-- ===== src/Orchestrator/Highlights.antt =====
-- `buildHighlights` of internal/orchestrator/orchestrator.go. A highlight is kept as the values that
-- its text shows; the text, and the cut of a long error in it, are not modelled.
use emailer.Prelude.{
  ◌-◌, ◌&&◌, List, [], ◌∷◌, ◌++◌, Option, none, some, or_else, ltb, leb, if◌then◌else◌,
}
use emailer.Prelude.Bytes.{Bytes, codes, bytes_eq}
use emailer.Prelude.Dict.{get}
use emailer.Errors.{Result, ok, err}
use emailer.Store.{RunDigestSummary}
use emailer.Digest.{
  AccountStats, Highlight, high_priority, account_failed, ads_up, burst, failures_increased,
}
use emailer.Orchestrator.World.{Pipeline, Act, ◌>>=◌, pure, ask_store, now}
use emailer.Orchestrator.Stats.{Counts, Stats, is_failed}

unfoldable pub account_highlights : List AccountStats → List Highlight
account_highlights [] = []
account_highlights (a ∷ accounts) =
    let rest = account_highlights accounts in
    if is_failed a.status then account_failed a.account_label a.error ∷ rest else rest

unfoldable pub ads_highlight : Counts → Counts → List Highlight
ads_highlight prev current =
    let before = or_else (get (codes "Ads") prev) 0 in
    let after = or_else (get (codes "Ads") current) 0 in
    if ltb before after && ltb 0 before then ads_up (after - before) before after ∷ [] else []

-- The source ranges over a Go map: the order of the bursts is not determined.
unfoldable pub burst_highlights : Counts → Counts → List Highlight
burst_highlights prev [] = []
burst_highlights prev ((sender, count) ∷ senders) =
    let before = or_else (get sender prev) 0 in
    let rest = burst_highlights prev senders in
    if leb 3 count && ltb before count then burst sender count before ∷ rest else rest

-- The comparison with the previous run, where there is a snapshot of it.
unfoldable pub delta_highlights : Stats → Result (Option RunDigestSummary) → List Highlight
unfolding ads_highlight burst_highlights
delta_highlights stats (err e) = []
delta_highlights stats (ok none) = []
delta_highlights stats (ok (some prev)) =
    let g = stats.global in
    ads_highlight prev.counts_by_label g.counts_by_label
    ++ (burst_highlights prev.sender_counts stats.senders
        ++ (if ltb prev.accounts_failed g.accounts_failed
            then failures_increased g.accounts_failed prev.accounts_failed ∷ []
            else []))

module _ {S : Type 0} (p : Pipeline S) where
  unfoldable pub build_highlights : Bytes → Stats → Act S (List Highlight)
  unfolding account_highlights delta_highlights
  build_highlights run_id stats = do
    t ← now p
    prev ← ask_store (p.store.get_previous_run_digest_summary t run_id)
    let n = stats.global.high_priority_count
    let urgent : List Highlight = if ltb 0 n then high_priority n ∷ [] else []
    pure (urgent ++ (account_highlights stats.accounts ++ delta_highlights stats prev))
