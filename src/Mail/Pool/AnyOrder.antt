-- ===== src/Mail/Pool/AnyOrder.antt =====
-- The results of `FetchAll` do not depend on the order in which the goroutines end.
use emailer.Prelude.{
  ℕ, zero, suc, ◌<◌, ◌≤◌, ◌↔◌, length-set, ◌≡◌, refl, ap, ◌∙◌, Bool, true, List, [], ◌∷◌, Option,
  none, some, length, get_elem?, set, if◌then◌else◌, nat_beq, contains, arith, nat_eq, inl, inr,
  Option-cases,
}
use emailer.Prelude.Bytes.{Bytes}
use emailer.Prelude.Dict.{Dict}
use emailer.Config.{ImapAccount}
use emailer.Mail.Types.{FetchOptions, Ingester}
use emailer.Mail.Pool.{
  FetchAllResult, empty_slots, fetch_account, write_slot, run_schedule, fetch_all,
}

get_elem?-set {ℓ} :
    {A : Type ℓ} (xs : List A) (i j : ℕ) (v : A)
    → get_elem? (set xs i v) j ≡ (
        if nat_beq i j
        then (elim (get_elem? xs j) [ none ↦ none | some x ↦ some v ])
        else get_elem? xs j)
get_elem?-set [] i j v = ground arith
get_elem?-set (x ∷ xs) zero zero v = refl
get_elem?-set (x ∷ xs) zero (suc j) v = ground arith
get_elem?-set (x ∷ xs) (suc i) zero v = ground arith
get_elem?-set (x ∷ xs) (suc i) (suc j) v = ground (arith, get_elem?-set xs i j v)

get_elem?-eq-none {ℓ} :
    {A : Type ℓ} (xs : List A) (i : ℕ) → (get_elem? xs i ≡ none) ↔ (length xs ≤ i)
get_elem?-eq-none [] i = ground arith
get_elem?-eq-none (x ∷ xs) zero = ground arith
get_elem?-eq-none (x ∷ xs) (suc i) = ground (arith, get_elem?-eq-none xs i)

length-empty_slots : (accounts : List ImapAccount) → length (empty_slots accounts) ≡ length accounts
length-empty_slots [] = refl
length-empty_slots (a ∷ rest) = ap suc (length-empty_slots rest)

module _ (cancelled : ℕ → Bool) (ingesters : Dict Bytes Ingester) (opts : FetchOptions)
    (accounts : List ImapAccount) where
  -- What account `i` gives by itself.
  abbrev outcome : ℕ → ImapAccount → FetchAllResult
  outcome i acct = fetch_account (cancelled i) ingesters opts acct

  abbrev slot : ℕ → Option FetchAllResult
  slot i = elim (get_elem? accounts i) [ none ↦ none | some acct ↦ some (outcome i acct) ]

  -- Slots line up with the accounts.
  abbrev Fits : List FetchAllResult → Type 0
  Fits slots = length slots ≡ length accounts

  write_slot-lem :
      (i j : ℕ) (slots : List FetchAllResult)
      → Fits slots
      → get_elem? (write_slot cancelled ingesters opts accounts i slots) j
        ≡ (if nat_beq i j then slot j else get_elem? slots j)
  unfolding write_slot
  write_slot-lem i j slots h = elim (Option-cases (get_elem? accounts i)) [
    | inl e ↦ ground (arith, get_elem?-eq-none accounts i, get_elem?-eq-none slots i)
    | inr (acct, e) ↦ ground (
      arith,
      get_elem?-eq-none accounts i,
      get_elem?-eq-none slots i,
      get_elem?-set slots i j (outcome i acct),
    )
  ]

  write_slot-Fits :
      (i : ℕ) (slots : List FetchAllResult)
      → Fits slots
      → Fits (write_slot cancelled ingesters opts accounts i slots)
  unfolding write_slot
  write_slot-Fits i slots h = elim (Option-cases (get_elem? accounts i)) [
    | inl e ↦ rw (e, write_slot) h
    | inr (acct, e) ↦ rw (e, write_slot) (length-set slots i (outcome i acct) ∙ h)
  ]

  -- After a schedule, the slots that it names hold their outcome and the others are as before.
  run_schedule-lem :
      (is : List ℕ) (j : ℕ) (slots : List FetchAllResult)
      → Fits slots
      → get_elem? (run_schedule cancelled ingesters opts accounts is slots) j
        ≡ (if contains j is then slot j else get_elem? slots j)
  unfolding run_schedule contains
  run_schedule-lem [] j slots h = refl
  run_schedule-lem (i ∷ is) j slots h = ground (
    arith,
    run_schedule-lem is j (write_slot cancelled ingesters opts accounts i slots)
        (write_slot-Fits i slots h),
    write_slot-lem i j slots h,
  )

  run_schedule-Fits :
      (is : List ℕ) (slots : List FetchAllResult)
      → Fits slots
      → Fits (run_schedule cancelled ingesters opts accounts is slots)
  unfolding run_schedule
  run_schedule-Fits [] slots h = h
  run_schedule-Fits (i ∷ is) slots h =
      run_schedule-Fits is (write_slot cancelled ingesters opts accounts i slots)
        (write_slot-Fits i slots h)

  -- When the schedule names every goroutine, in whatever order, there is one result for each
  -- account, and the result at the position of an account is what fetching that account by itself
  -- gives.
  pub fetch_all_any_order :
      (schedule : List ℕ)
      → ((i : ℕ) → i < length accounts → contains i schedule ≡ true)
      → (i : ℕ) (acct : ImapAccount) → get_elem? accounts i ≡ some acct
      → (length (fetch_all cancelled ingesters opts accounts schedule) ≡ length accounts)
        × (get_elem? (fetch_all cancelled ingesters opts accounts schedule) i
            ≡ some (fetch_account (cancelled i) ingesters opts acct))
  unfolding fetch_all
  fetch_all_any_order schedule h i acct e =
      let named : contains i schedule ≡ true = h i (ground (arith, get_elem?-eq-none accounts i)) in
      (
        run_schedule-Fits schedule (empty_slots accounts) (length-empty_slots accounts),
        ground (
          arith,
          named,
          run_schedule-lem schedule i (empty_slots accounts) (length-empty_slots accounts),
        ),
      )
