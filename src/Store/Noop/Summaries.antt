-- ===== src/Store/Noop/Summaries.antt =====
-- The digest snapshots of the store in memory.
use emailer.Prelude.{
  ◌≡◌, ap, ◌∙◌, ◌⊎◌, inl, inr, true, ◌&&◌, List, [], ◌∷◌, none, some, arith, if◌then◌else◌,
  Option-cases, Bool-cases,
}
use emailer.Prelude.Bytes.{Bytes, bytes_eq}
use emailer.Prelude.Dict.{Dict, get}
use emailer.Prelude.Int.{ltb_ℤ}
use emailer.Errors.{ok}
use emailer.Mail.Types.{Time}
use emailer.Store.{Run, RunDigestSummary}
use emailer.Store.Noop.{
  NoopStore, is_completed, find_run, better_prior, best_prior, get_previous_run_digest_summary,
  Prior, is_after_prior, is_zero, finish_of, prior_summary,
}

-- A snapshot's run is in the list: it completed, and finished before `before`.
pub record IsPrior (before : Time) (summaries : Dict Bytes RunDigestSummary)
    (sum : RunDigestSummary) (t : Time) (r : Run) : Type 0 where
  pub done : is_completed r.status ≡ true
  pub at : r.finished_at ≡ some t
  pub earlier : ltb_ℤ t before ≡ true
  pub saved : get r.id summaries ≡ some sum

-- Some run of the list has the property.
abbrev pub Any : (Run → Type 0) → List Run → Type 0
Any P [] = ⊥
Any P (r ∷ rs) = P r ⊎ Any P rs

module _ (before : Time) (summaries : Dict Bytes RunDigestSummary) where
  better_prior_lem :
      (prior : Prior) (r : Run) (sum : RunDigestSummary) (t : Time)
      → better_prior before summaries prior r ≡ some (sum, t)
      → (prior ≡ some (sum, t)) ⊎ IsPrior before summaries sum t r
  unfolding better_prior
  better_prior_lem prior r sum t e = elim (Option-cases r.finished_at) [
    | inl n ↦ inl (ground arith)
    | inr (u, f) ↦
        elim (Bool-cases (is_completed r.status && ltb_ℤ u before && is_after_prior u prior)) [
          | inr no' ↦ inl (ground arith)
          | inl test ↦ elim (Option-cases (get r.id summaries)) [
            | inl n ↦ inl (ground arith)
            | inr (s', g) ↦ inr (record {
              done = ground arith;
              at = ground arith;
              earlier = ground arith;
              saved = ground arith;
            })
          ]
        ]
  ]

  best_prior_lem :
      (prior : Prior) (rs : List Run) (sum : RunDigestSummary) (t : Time)
      → best_prior before summaries prior rs ≡ some (sum, t)
      → (prior ≡ some (sum, t)) ⊎ Any (IsPrior before summaries sum t) rs
  unfolding best_prior
  best_prior_lem prior [] sum t e = inl e
  best_prior_lem prior (r ∷ rs) sum t e =
      elim (best_prior_lem (better_prior before summaries prior r) rs sum t e) [
        | inr later ↦ inr (inr later)
        | inl here ↦ elim (better_prior_lem prior r sum t here) [
          | inl old ↦ inl old
          | inr own ↦ inr (inl own)
        ]
      ]

-- The store in memory has no earlier snapshot to offer for a run that has not finished, whatever
-- snapshots it holds.
pub get_previous_run_digest_summary_unfinished :
    (now : Time) (s : NoopStore) (id : Bytes)
    → finish_of (find_run id s.runs) ≡ none
    → get_previous_run_digest_summary now id s ≡ ok none
unfolding get_previous_run_digest_summary
get_previous_run_digest_summary_unfinished now s id e = rw (e, get_previous_run_digest_summary)

-- A snapshot that is offered for a finished run is the one saved for a completed run of the ledger
-- that finished strictly before it.
pub get_previous_run_digest_summary-IsPrior :
    (now : Time) (s : NoopStore) (id : Bytes) (t : Time) (sum : RunDigestSummary)
    → finish_of (find_run id s.runs) ≡ some t
    → get_previous_run_digest_summary now id s ≡ ok (some sum)
    → (u : Time) × Any (IsPrior (if is_zero t then now else t) s.digest_summaries sum u) s.runs
unfolding get_previous_run_digest_summary
get_previous_run_digest_summary-IsPrior now s id t sum f e =
    let before : Time = if is_zero t then now else t in
    let e' : ok (prior_summary (best_prior before s.digest_summaries none s.runs)) ≡ ok (some sum) =
      rw (f, get_previous_run_digest_summary) at e in
    elim (Option-cases (best_prior before s.digest_summaries none s.runs)) [
      | inl n ↦ absurd (ground arith)
      | inr ((sum', u), p) ↦
          let same : sum' ≡ sum = ground arith in
          (
            u,
            elim (best_prior_lem before s.digest_summaries none s.runs sum u
                (p ∙ ap (λ x. some (x, u)) same)) [ inl bad ↦ cc | inr found ↦ found ],
          )
    ]
