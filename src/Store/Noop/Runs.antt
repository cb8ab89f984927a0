-- ===== src/Store/Noop/Runs.antt =====
-- The run ledger of the store in memory: identifiers, finishes, and the latest success.
use emailer.Prelude.{
  ℕ, ◌+◌, ◌≤◌, ◌≡◌, refl, sym, subst, ◌∙◌, ◌⊎◌, inl, inr, Bool, true, false, List, [], ◌∷◌, ◌++◌,
  Option, none, some, arith, if◌then◌else◌, ◌==◌, nat_eq, All, Bool-cases, is_some,
}
use emailer.Prelude.Bytes.{Bytes, bytes_eq}
use emailer.Prelude.Decimal.{decimal-injective}
use emailer.Prelude.Int.{◌≤ℤ◌, ltb_ℤ}
use emailer.Errors.{Error, ok, run_not_found}
use emailer.Mail.Types.{Time}
use emailer.Store.{RunStatus, Run}
use emailer.Store.Noop.{
  NoopStore, noop_run_id, is_completed, filled_run, record_run, finish_first, finish_run, find_run,
  get_run, later_of, latest_success, get_last_successful_run_time,
}

abbrev pub finished : Time → RunStatus → ℕ → Option Error → Option Run → Option Run
finished now status count e none = none
finished now status count e (some r) =
    some (record r { finished_at = some now; status = status; message_count = count; error = e })

module _ (now : Time) (id : Bytes) (status : RunStatus) (count : ℕ) (e : Option Error) where
  abbrev runs_after : List Run → Option (List Run) → List Run
  runs_after rs none = rs
  runs_after rs (some rs') = rs'

  find_run-finish_first :
      (j : Bytes) (rs : List Run)
      → (find_run j (runs_after rs (finish_first now id status count e rs))
          ≡ (if j == id then finished now status count e (find_run j rs) else find_run j rs))
        × (is_some (finish_first now id status count e rs) ≡ is_some (find_run id rs))
  unfolding find_run finish_first
  find_run-finish_first j [] = ground arith
  find_run-finish_first j (r ∷ rs) = ground (
    arith,
    find_run-finish_first j rs,
    bytes_eq.test_iff r.id id,
    bytes_eq.test_iff r.id j,
    bytes_eq.test_iff j id,
  )

  pub find_run-finish_run :
      (j : Bytes) (s : NoopStore)
      → (find_run j (finish_run now id status count e s).1.runs ≡ (
          if j == id then finished now status count e (find_run j s.runs) else find_run j s.runs))
        × ((finish_run now id status count e s).0
            ≡ (if is_some (find_run id s.runs) then none else some run_not_found))
        × ((finish_run now id status count e s).1
            ≡ record s { runs = (finish_run now id status count e s).1.runs })
  unfolding finish_run
  find_run-finish_run j s = ground (arith, find_run-finish_first j s.runs)

-- Every run of the ledger has an identifier that the store generated.
abbrev pub IsGenerated : NoopStore → Type 0
IsGenerated s = All (λ r. (k : ℕ) × (k ≤ s.next_id) × (r.id ≡ noop_run_id k)) s.runs

noop_run_id-injective : (n m : ℕ) → noop_run_id n ≡ noop_run_id m → n ≡ m
unfolding noop_run_id
noop_run_id-injective n m e = decimal-injective n m (cc)

abbrev Known : ℕ → Run → Type 0
Known n r = (k : ℕ) × (k ≤ n) × (r.id ≡ noop_run_id k)

find_run-fresh :
    (n : ℕ) (rs : List Run) → All (Known n) rs → find_run (noop_run_id (n + 1)) rs ≡ none
unfolding find_run
find_run-fresh n [] h = refl
find_run-fresh n (r ∷ rs) ((k, le, e), t) = elim (Bool-cases (r.id == noop_run_id (n + 1))) [
  | inl same ↦ absurd (
      let q : k ≡ n + 1 =
        noop_run_id-injective k (n + 1)
          (sym e ∙ (bytes_eq.test_iff r.id (noop_run_id (n + 1))).0 same) in
      omega arith)
  | inr other ↦ rw other (find_run-fresh n rs t)
]

All-Known_suc :
    (n : ℕ) (r : Run) (rs : List Run)
    → r.id ≡ noop_run_id (n + 1)
    → All (Known n) rs
    → All (Known (n + 1)) (rs ++ r ∷ [])
All-Known_suc n r [] e h = ((n + 1, omega arith, e), tt)
All-Known_suc n r (x ∷ rs) e ((k, le, p), t) = ((k, omega arith, p), All-Known_suc n r rs e t)

find_run-append :
    (j : Bytes) (rs : List Run) (r : Run)
    → find_run j rs ≡ none
    → r.id ≡ j
    → find_run j (rs ++ r ∷ []) ≡ some r
unfolding find_run
find_run-append j [] r n e = ground (arith, bytes_eq.test_iff r.id j)
find_run-append j (x ∷ rs) r n e = ground (arith, find_run-append j rs r)

filled_run-id : (now : Time) (n : ℕ) (r : Run) → r.id ≡ [] → (filled_run now n r).id ≡ noop_run_id n
unfolding filled_run
filled_run-id now n r e = ground (arith, bytes_eq.test_iff r.id [])

get_run-of_find_run :
    (j : Bytes) (s : NoopStore) (r : Run) → find_run j s.runs ≡ some r → get_run j s ≡ ok r
unfolding get_run
get_run-of_find_run j s r e = rw (e, get_run)

-- In a ledger of generated identifiers, recording a run without an identifier gives it one that no
-- earlier run has; the run can then be looked up by it, and the identifiers are still generated.
pub record_run_fresh :
    (now : Time) (r : Run) (s : NoopStore)
    → IsGenerated s
    → r.id ≡ []
    → (find_run (noop_run_id (s.next_id + 1)) s.runs ≡ none)
      × ((record_run now r s).0 ≡ ok (filled_run now (s.next_id + 1) r))
      × (get_run (noop_run_id (s.next_id + 1)) (record_run now r s).1 ≡ (record_run now r s).0)
      × IsGenerated (record_run now r s).1
unfolding record_run
record_run_fresh now r s g e =
    let r' : Run = filled_run now (s.next_id + 1) r in
    let named : r'.id ≡ noop_run_id (s.next_id + 1) = filled_run-id now (s.next_id + 1) r e in
    let fresh : find_run (noop_run_id (s.next_id + 1)) s.runs ≡ none =
      find_run-fresh s.next_id s.runs g in
    (
      fresh,
      refl,
      get_run-of_find_run (noop_run_id (s.next_id + 1)) (record_run now r s).1 r'
          (find_run-append (noop_run_id (s.next_id + 1)) s.runs r' fresh named),
      All-Known_suc s.next_id r' s.runs named g,
    )

-- The instant at which a run succeeded, if it did.
abbrev pub success_of : Bool → Option Time → Option Time
success_of true finish = finish
success_of false finish = none

abbrev pub success_time : Run → Option Time
success_time r = success_of (is_completed r.status) r.finished_at

-- The first instant, if there is one, is no later than the second.
abbrev pub NotAfter : Option Time → Option Time → Type 0
NotAfter none u = Unit {0}
NotAfter (some t) none = ⊥
NotAfter (some t) (some u) = t ≤ℤ u

NotAfter-trans : (a b c : Option Time) → NotAfter a b → NotAfter b c → NotAfter a c
NotAfter-trans none b c p q = tt
NotAfter-trans (some x) (some y) (some z) p q = omega arith
NotAfter-trans (some x) (some y) none p q = q
NotAfter-trans (some x) none c p q = absurd p

-- `latest` is the success of one of the runs, or it is `from`.
abbrev pub ComesFrom : Option Time → Option Time → List Run → Type 0
ComesFrom latest from [] = latest ≡ from
ComesFrom latest from (r ∷ rs) = (latest ≡ success_time r) ⊎ ComesFrom latest from rs

later_of_lem :
    (done : Bool) (latest finish : Option Time)
    → ((later_of done latest finish ≡ latest)
        ⊎ (later_of done latest finish ≡ success_of done finish))
      × NotAfter latest (later_of done latest finish)
      × NotAfter (success_of done finish) (later_of done latest finish)
unfolding later_of
later_of_lem false none none = (inl refl, tt, tt)
later_of_lem true none none = (inl refl, tt, tt)
later_of_lem false (some u) none = (inl refl, omega arith, tt)
later_of_lem true (some u) none = (inl refl, omega arith, tt)
later_of_lem false none (some t) = (inl refl, tt, tt)
later_of_lem true none (some t) = (inr refl, tt, omega arith)
later_of_lem false (some u) (some t) = (inl refl, omega arith, tt)
later_of_lem true (some u) (some t) = elim (Bool-cases (ltb_ℤ u t)) [
  | inl lt ↦ rw lt (inr refl, ground arith, omega arith)
  | inr ge ↦ rw ge (inl refl, omega arith, ground arith)
]

ComesFrom-base :
    (latest a b : Option Time) (rs : List Run)
    → b ≡ a
    → ComesFrom latest a rs
    → ComesFrom latest b rs
ComesFrom-base latest a b rs e = subst (λ x. ComesFrom latest x rs) (sym e)

ComesFrom-step :
    (latest from here : Option Time) (r : Run) (rs : List Run)
    → (here ≡ from) ⊎ (here ≡ success_time r)
    → ComesFrom latest here rs
    → ComesFrom latest from (r ∷ rs)
ComesFrom-step latest from here r rs (inl e) c = inr (ComesFrom-base latest here from rs (sym e) c)
ComesFrom-step latest from here r [] (inr e) c = inl (c ∙ e)
ComesFrom-step latest from here r (x ∷ rs) (inr e) (inl p) = inr (inl p)
ComesFrom-step latest from here r (x ∷ rs) (inr e) (inr c) =
    elim (ComesFrom-step latest from here r rs (inr e) c) [ inl p ↦ inl p | inr q ↦ inr (inr q) ]

latest_success_lem :
    (from : Option Time) (rs : List Run)
    → ComesFrom (latest_success from rs) from rs
      × NotAfter from (latest_success from rs)
      × All (λ r. NotAfter (success_time r) (latest_success from rs)) rs
unfolding latest_success
latest_success_lem none [] = (refl, tt, tt)
latest_success_lem (some t) [] = (refl, omega arith, tt)
latest_success_lem from (r ∷ rs) =
    let here : Option Time = later_of (is_completed r.status) from r.finished_at in
    let (c, up, all) = latest_success_lem here rs in
    let (source, old, own) = later_of_lem (is_completed r.status) from r.finished_at in
    (
      ComesFrom-step (latest_success here rs) from here r rs source c,
      NotAfter-trans from here (latest_success here rs) old up,
      (NotAfter-trans (success_time r) here (latest_success here rs) own up, all),
    )

-- The watermark: GetLastSuccessfulRunTime gives the finish of a completed run, or nothing, and no
-- completed run of the ledger has finished later.
pub get_last_successful_run_time_latest :
    (s : NoopStore)
    → (latest : Option Time) × (get_last_successful_run_time s ≡ ok latest)
      × ComesFrom latest none s.runs
      × All (λ r. NotAfter (success_time r) latest) s.runs
unfolding get_last_successful_run_time
get_last_successful_run_time_latest s =
    let (c, up, all) = latest_success_lem none s.runs in (latest_success none s.runs, refl, c, all)
