-- ===== src/Orchestrator/Window.antt =====
-- `fetchWindow` of internal/orchestrator/orchestrator.go.
pub mod Bounds
use emailer.Prelude.{
  ℕ, ◌+◌, ◌*◌, ◌^◌, ◌≤◌, ◌≡◌, refl, ◌∙◌, ap, inl, inr, Bool, true, false, Option, none, some, arith,
  if◌then◌else◌, or_else, Bool-cases,
}
use emailer.Prelude.Int.{ℤ, pos, pos_part, neg_part, ◌-ℤ◌, ◌≤ℤ◌, ltb_ℤ, leb_ℤ, -ℤ_parts}
use emailer.Config.{Duration}
use emailer.Errors.{Error, Result, ok, err, window}
use emailer.Mail.Types.{Time}
use emailer.Orchestrator.World.{RunOptions, Pipeline, World, Act, ◌>>=◌, ◌>>◌, pure, ask_store, now}

-- Hours in nanoseconds.
abbrev pub hours : ℕ → Duration
hours n = pos (n * 3600 * 10 ^ 9)

unfoldable pub max_window_or_default : Duration → Duration
max_window_or_default d = if leb_ℤ d (pos 0) then hours 72 else d

module _ {S : Type 0} (p : Pipeline S) where
  -- The lookback derived from the last successful run.
  unfoldable pub dynamic_window : Option Time → Act S (Result Time)
  unfolding max_window_or_default
  dynamic_window last_run = do
    day ← now p
    let since = or_else last_run (day -ℤ hours 24)
    current ← now p
    let min_since = current -ℤ max_window_or_default p.config.max_window
    pure (ok (if ltb_ℤ since min_since then min_since else since))

  abbrev pub window_from : Result (Option Time) → Act S (Result Time)
  window_from (err e) = pure (err (window e))
  window_from (ok last_run) = dynamic_window last_run

  abbrev pub window_of : Option Duration → Act S (Result Time)
  window_of (some d) = do t ← now p; pure (ok (t -ℤ d))
  window_of none = do
    last_run ← ask_store p.store.get_last_successful_run_time
    window_from last_run

  unfoldable pub fetch_window : RunOptions → Act S (Result Time)
  unfolding dynamic_window
  fetch_window opts = window_of opts.window
