-- ===== src/Orchestrator/TopN.antt =====
-- `topN` of internal/orchestrator/orchestrator.go. `sort.Slice`, whose algorithm is not modelled, is
-- an insertion sort by the same comparison; the keys of a map differ, so no two entries tie.
pub mod AnyOrder
use emailer.Prelude.{
  ℕ, Bool, true, false, ◌&&◌, ◌||◌, List, [], ◌∷◌, ◌++◌, map, take, ltb, nat_beq, if◌then◌else◌,
}
use emailer.Prelude.Bytes.{Bytes, codes}
use emailer.Prelude.Decimal.{decimal}
use emailer.Prelude.Dict.{Dict}

-- Go's `<` on strings.
unfoldable pub text_ltb : Bytes → Bytes → Bool
text_ltb [] [] = false
text_ltb [] (y ∷ t) = true
text_ltb (x ∷ s) [] = false
text_ltb (x ∷ s) (y ∷ t) = ltb x y || (nat_beq x y && text_ltb s t)

abbrev pub Entry : Type 0
Entry = Bytes × ℕ

-- The comparison: the larger count first, and by key where the counts are equal.
unfoldable pub goes_before : Entry → Entry → Bool
unfolding text_ltb
goes_before (k, n) (j, m) = if nat_beq n m then text_ltb k j else ltb m n

unfoldable pub insert_entry : Entry → List Entry → List Entry
unfolding goes_before
insert_entry e [] = e ∷ []
insert_entry e (x ∷ xs) = if goes_before e x then e ∷ (x ∷ xs) else x ∷ insert_entry e xs

unfoldable pub sort_entries : List Entry → List Entry
unfolding insert_entry
sort_entries [] = []
sort_entries (e ∷ es) = insert_entry e (sort_entries es)

-- fmt.Sprintf("%s (%d)", key, count)
unfoldable pub entry_text : Entry → Bytes
unfolding decimal
entry_text (k, n) = k ++ (codes " (" ++ (decimal n ++ codes ")"))

unfoldable pub top_n : Dict Bytes ℕ → ℕ → List Bytes
unfolding sort_entries entry_text
top_n counts n = map entry_text (take n (sort_entries counts))
