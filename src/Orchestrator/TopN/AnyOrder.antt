-- ===== src/Orchestrator/TopN/AnyOrder.antt =====
-- The top entries do not depend on the order in which a map is ranged over.
use emailer.Prelude.{
  ℕ, ◌≡◌, ◌≢◌, refl, ◌∙◌, ap, sym, subst, inl, inr, ◌⊎◌, true, false, List, [], ◌∷◌, arith, map,
  take, contains, AllDistinct,
}
use mathlib.Core.List.{Permᴰ}
use mathlib.Core.List.Permᴰ.{nil, cons, swap, trans}
use emailer.Prelude.Bytes.{Bytes, bytes_eq}
use emailer.Orchestrator.TopN.{
  text_ltb, Entry, goes_before, insert_entry, sort_entries, entry_text, top_n,
}

text_ltb_trans : (s t u : Bytes) → text_ltb s t ≡ true → text_ltb t u ≡ true → text_ltb s u ≡ true
unfolding text_ltb
text_ltb_trans [] [] u h k = ground arith
text_ltb_trans [] (y ∷ t) [] h k = ground arith
text_ltb_trans [] (y ∷ t) (z ∷ u) h k = refl
text_ltb_trans (x ∷ s) [] u h k = ground arith
text_ltb_trans (x ∷ s) (y ∷ t) [] h k = ground arith
text_ltb_trans (x ∷ s) (y ∷ t) (z ∷ u) h k = ground (arith, text_ltb_trans s t u)

-- One of two different texts is below the other, and only one.
text_ltb_total :
    (s t : Bytes)
    → (s ≡ t)
      ⊎ ((text_ltb s t ≡ true) × (text_ltb t s ≡ false))
      ⊎ ((text_ltb s t ≡ false) × (text_ltb t s ≡ true))
unfolding text_ltb
text_ltb_total [] [] = inl refl
text_ltb_total [] (y ∷ t) = ground arith
text_ltb_total (x ∷ s) [] = ground arith
text_ltb_total (x ∷ s) (y ∷ t) = ground (arith, text_ltb_total s t)

goes_before_trans :
    (a b c : Entry) → goes_before a b ≡ true → goes_before b c ≡ true → goes_before a c ≡ true
unfolding goes_before
goes_before_trans (k, n) (j, m) (i, l) h g = ground (arith, text_ltb_trans k j i)

goes_before_total :
    (a b : Entry)
    → a.0 ≢ b.0
    → ((goes_before a b ≡ true) × (goes_before b a ≡ false))
      ⊎ ((goes_before a b ≡ false) × (goes_before b a ≡ true))
unfolding goes_before
goes_before_total (k, n) (j, m) h = ground (arith, text_ltb_total k j)

insert_entry_swap :
    (a b : Entry) (xs : List Entry)
    → a.0 ≢ b.0
    → insert_entry a (insert_entry b xs) ≡ insert_entry b (insert_entry a xs)
unfolding insert_entry
insert_entry_swap a b [] h = elim (goes_before_total a b h) [
  | inl (p, q) ↦ rw (p, q) refl
  | inr (p, q) ↦ rw (p, q) refl
]
insert_entry_swap a b (x ∷ xs) h = ground (
  arith,
  insert_entry_swap a b xs h,
  goes_before_total a b h,
  goes_before_trans a b x,
  goes_before_trans b a x,
)

-- No key has two entries.
abbrev pub IsMap : List Entry → Type 0
IsMap xs = AllDistinct (map (λ (e : Entry). e.0) xs)

contains_key-Perm :
    (k : Bytes) {xs ys : List Entry}
    → Permᴰ xs ys
    → contains k (map (λ (e : Entry). e.0) xs) ≡ contains k (map (λ (e : Entry). e.0) ys)
unfolding contains
contains_key-Perm k nil = refl
contains_key-Perm k (cons e d) = ground (arith, contains_key-Perm k d)
contains_key-Perm k (swap e₁ e₂) = ground arith
contains_key-Perm k (trans d₁ d₂) = contains_key-Perm k d₁ ∙ contains_key-Perm k d₂

IsMap-Perm : {xs ys : List Entry} → Permᴰ xs ys → IsMap xs → IsMap ys
unfolding contains
IsMap-Perm nil h = tt
IsMap-Perm (cons {a = a} {b = b} {l₁ = xs} {l₂ = ys} e d) (p, h) =
    let same : contains a.0 (map (λ (x : Entry). x.0) xs)
        ≡ contains b.0 (map (λ (x : Entry). x.0) ys) =
      contains_key-Perm a.0 d ∙ ap (λ (x : Entry). contains x.0 (map (λ (x : Entry). x.0) ys)) e in
    (sym same ∙ p, IsMap-Perm d h)
IsMap-Perm (swap {a = a} {b = b} {a' = a'} {b' = b'} {l = l} e₁ e₂) (p, (q, h)) =
    subst (λ x. IsMap (x ∷ (b' ∷ l))) e₂
      (subst (λ x. IsMap (b ∷ (x ∷ l))) e₁
        (ground (arith, bytes_eq.test_iff a.0 b.0, bytes_eq.test_iff b.0 a.0), (ground arith, h)))
IsMap-Perm (trans d₁ d₂) h = IsMap-Perm d₂ (IsMap-Perm d₁ h)

keys_differ : (a b : Entry) (xs : List Bytes) → contains a.0 (b.0 ∷ xs) ≡ false → a.0 ≢ b.0
unfolding contains
keys_differ a b xs h e = ground (arith, bytes_eq.test_iff b.0 a.0)

sort_entries-Perm :
    {xs ys : List Entry} → Permᴰ xs ys → IsMap xs → sort_entries xs ≡ sort_entries ys
unfolding sort_entries
sort_entries-Perm nil h = refl
sort_entries-Perm (cons e d) (p, h) = cc (e, sort_entries-Perm d h)
sort_entries-Perm (swap {a = a} {b = b} {l = l} e₁ e₂) (p, h) = cc (
  e₁,
  e₂,
  insert_entry_swap a b (sort_entries l) (keys_differ a b (map (λ (x : Entry). x.0) l) p),
)
sort_entries-Perm (trans d₁ d₂) h = sort_entries-Perm d₁ h ∙ sort_entries-Perm d₂ (IsMap-Perm d₁ h)

-- Go ranges over a map in any order: two listings of the same entries, with one entry for each key,
-- give the same top `n`.
pub top_n_any_order :
    (xs ys : List Entry) (n : ℕ) → IsMap xs → Permᴰ xs ys → top_n xs n ≡ top_n ys n
unfolding top_n
top_n_any_order xs ys n h d =
    ap (λ (es : List Entry). map entry_text (take n es)) (sort_entries-Perm d h)
