-- ===== src/Orchestrator/Window/Bounds.antt =====
-- The fetch window is the later of two starts.
use emailer.Prelude.{
  ◌+◌, ◌≡◌, refl, ◌⊎◌, inl, inr, Option, none, arith, if◌then◌else◌, or_else, Bool-cases,
}
use emailer.Prelude.Int.{◌-ℤ◌, ◌≤ℤ◌, ltb_ℤ}
use emailer.Errors.{ok}
use emailer.Mail.Types.{Time}
use emailer.Orchestrator.World.{RunOptions, Pipeline, World}
use emailer.Orchestrator.Window.{hours, max_window_or_default, fetch_window}

later_start :
    (since min_since : Time)
    → (min_since ≤ℤ (if ltb_ℤ since min_since then min_since else since))
      × (since ≤ℤ (if ltb_ℤ since min_since then min_since else since))
      × (((if ltb_ℤ since min_since then min_since else since) ≡ since)
          ⊎ ((if ltb_ℤ since min_since then min_since else since) ≡ min_since))
later_start since min_since = elim (Bool-cases (ltb_ℤ since min_since)) [
  | inl lt ↦ rw lt (omega arith, ground arith, inr refl)
  | inr ge ↦ rw ge (ground arith, omega arith, inl refl)
]

module _ {S : Type 0} (p : Pipeline S) (opts : RunOptions) (w : World S) where
  -- Without an explicit window the fetch starts at the last successful run, or 24 hours back if
  -- there is none, but never further back than the configured maximum (72 hours where that is not
  -- positive), counted from the second reading of the clock; nothing is sent or stored.
  pub fetch_window_capped :
      (last_run : Option Time)
      → opts.window ≡ none
      → p.store.get_last_successful_run_time w.store ≡ ok last_run
      → (since : Time) × ((fetch_window p opts w).0 ≡ ok since)
        × ((p.clock (w.reads + 1) -ℤ max_window_or_default p.config.max_window) ≤ℤ since)
        × (or_else last_run (p.clock w.reads -ℤ hours 24) ≤ℤ since)
        × ((since ≡ or_else last_run (p.clock w.reads -ℤ hours 24))
            ⊎ (since ≡ (p.clock (w.reads + 1) -ℤ max_window_or_default p.config.max_window)))
        × ((fetch_window p opts w).1.store ≡ w.store)
        × ((fetch_window p opts w).1.trace ≡ w.trace)
  unfolding fetch_window
  fetch_window_capped last_run explicit stored =
      let base : Time = or_else last_run (p.clock w.reads -ℤ hours 24) in
      let cap : Time = p.clock (w.reads + 1) -ℤ max_window_or_default p.config.max_window in
      let (a, b, c) = later_start base cap in
      rw (explicit, stored) (if ltb_ℤ base cap then cap else base, refl, a, b, c, refl, refl)
