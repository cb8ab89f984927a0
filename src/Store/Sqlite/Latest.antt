-- ===== src/Store/Sqlite/Latest.antt =====
-- The latest success in the database: ORDER BY finished_at DESC LIMIT 1, which orders texts.
use emailer.Prelude.{
  ◌≡◌, refl, subst, ◌∙◌, ◌⊎◌, inl, inr, Bool, true, false, List, [], ◌∷◌, Option, none, some, arith,
  Bool-cases, All,
}
use emailer.Prelude.Bytes.{Bytes, codes}
use emailer.Store.Noop.{is_completed}
use emailer.Store.Sqlite.{RunRow, Tables, Driver, select_last, text_lt}
use emailer.Store.Sqlite.Runs.{
  greater_text, greatest_finish, parse_finish, get_last_successful_run_time,
}

text_lt_trans : (a b c : Bytes) → text_lt a b ≡ true → text_lt b c ≡ true → text_lt a c ≡ true
unfolding text_lt
text_lt_trans [] [] c p q = ground arith
text_lt_trans [] (y ∷ b) [] p q = ground arith
text_lt_trans [] (y ∷ b) (z ∷ c) p q = refl
text_lt_trans (x ∷ a) [] c p q = ground arith
text_lt_trans (x ∷ a) (y ∷ b) [] p q = ground arith
text_lt_trans (x ∷ a) (y ∷ b) (z ∷ c) p q = ground (arith, text_lt_trans a b c)

text_lt_irrefl : (a : Bytes) → text_lt a a ≡ false
unfolding text_lt
text_lt_irrefl [] = refl
text_lt_irrefl (x ∷ a) = ground (arith, text_lt_irrefl a)

-- The text of the instant at which a run succeeded, if it did.
abbrev pub success_text_of : Bool → Option Bytes → Option Bytes
success_text_of true finish = finish
success_text_of false finish = none

abbrev pub success_text : RunRow → Option Bytes
success_text r = success_text_of (is_completed r.status) r.finished_at

-- The first text, if there is one, does not stand after the second.
abbrev pub NotAfterText : Option Bytes → Option Bytes → Type 0
NotAfterText none b = Unit {0}
NotAfterText (some s) none = ⊥
NotAfterText (some s) (some b) = text_lt b s ≡ false

-- `best` is the success of one of the rows, or it is `from`.
abbrev pub IsFrom : Option Bytes → Option Bytes → List RunRow → Type 0
IsFrom best from [] = best ≡ from
IsFrom best from (r ∷ rs) = (best ≡ success_text r) ⊎ IsFrom best from rs

NotAfterText-step :
    (a b : Option Bytes) (done : Bool) (finish : Option Bytes)
    → NotAfterText a b
    → NotAfterText a (greater_text done b finish)
unfolding greater_text
NotAfterText-step none b done finish h = tt
NotAfterText-step (some s) (some b) done none h = h
NotAfterText-step (some s) (some b) done (some f) h = ground (arith, text_lt_trans b f s)
NotAfterText-step (some s) none done finish h = absurd h

greater_text_lem :
    (done : Bool) (best finish : Option Bytes)
    → ((greater_text done best finish ≡ best)
        ⊎ (greater_text done best finish ≡ success_text_of done finish))
      × NotAfterText (success_text_of done finish) (greater_text done best finish)
unfolding greater_text
greater_text_lem false best none = (inl refl, tt)
greater_text_lem true best none = (inl refl, tt)
greater_text_lem false none (some f) = (inl refl, tt)
greater_text_lem true none (some f) = (inr refl, text_lt_irrefl f)
greater_text_lem false (some b) (some f) = (inl refl, tt)
greater_text_lem true (some b) (some f) = elim (Bool-cases (text_lt b f)) [
  | inl lt ↦ rw lt (inr refl, text_lt_irrefl f)
  | inr ge ↦ rw ge (inl refl, ge)
]

NotAfterText-greatest :
    (a from : Option Bytes) (rs : List RunRow)
    → NotAfterText a from
    → NotAfterText a (greatest_finish from rs)
unfolding greatest_finish
NotAfterText-greatest a from [] h = h
NotAfterText-greatest a from (r ∷ rs) h =
    NotAfterText-greatest a (greater_text (is_completed r.status) from r.finished_at) rs
      (NotAfterText-step a from (is_completed r.status) r.finished_at h)

IsFrom-step :
    (best from here : Option Bytes) (r : RunRow) (rs : List RunRow)
    → (here ≡ from) ⊎ (here ≡ success_text r)
    → IsFrom best here rs
    → IsFrom best from (r ∷ rs)
IsFrom-step best from here r rs (inl e) c = inr (subst (λ x. IsFrom best x rs) e c)
IsFrom-step best from here r [] (inr e) c = inl (c ∙ e)
IsFrom-step best from here r (x ∷ rs) (inr e) (inl p) = inr (inl p)
IsFrom-step best from here r (x ∷ rs) (inr e) (inr c) =
    elim (IsFrom-step best from here r rs (inr e) c) [ inl p ↦ inl p | inr q ↦ inr (inr q) ]

greatest_finish_lem :
    (from : Option Bytes) (rs : List RunRow)
    → IsFrom (greatest_finish from rs) from rs
      × All (λ r. NotAfterText (success_text r) (greatest_finish from rs)) rs
unfolding greatest_finish
greatest_finish_lem from [] = (refl, tt)
greatest_finish_lem from (r ∷ rs) =
    let here : Option Bytes = greater_text (is_completed r.status) from r.finished_at in
    let (source, own) = greater_text_lem (is_completed r.status) from r.finished_at in
    let (c, all) = greatest_finish_lem here rs in
    (
      IsFrom-step (greatest_finish here rs) from here r rs source c,
      (NotAfterText-greatest (success_text r) here rs own, all),
    )

-- The watermark of the database: where the query does not fail, GetLastSuccessfulRunTime reads the
-- finish text of a completed run, or there is none, and no completed run has a finish text that
-- stands after it in byte order. (It is the latest instant as far as texts stand in the order of
-- their instants.)
pub get_last_successful_run_time_greatest :
    (db : Driver) (t : Tables)
    → db.fault select_last t ≡ none
    → (best : Option Bytes) × (get_last_successful_run_time db t
        ≡ parse_finish db (codes "store.GetLastSuccessfulRunTime: parse") best)
      × IsFrom best none t.runs
      × All (λ r. NotAfterText (success_text r) best) t.runs
unfolding get_last_successful_run_time
get_last_successful_run_time_greatest db t alive =
    let (source, all) = greatest_finish_lem none t.runs in
    (greatest_finish none t.runs, ground arith, source, all)
