-- ===== src/Mail/Imap/Chunks.antt =====
-- chunkUIDs and fetchHeaders of internal/mail/fetch.go: the messages do not depend on the batches.
use mathlib.Core.List.{append-nil, Mem}
use mathlib.Core.Logic.Or
use emailer.Prelude.{
  ℕ, zero, suc, ◌-◌, ◌≤◌, ◌≡◌, ◌≢◌, ◌↔◌, false, refl, ap, subst, ◌∙◌, List, [], ◌∷◌, ◌++◌, arith,
  All, length, take, drop,
}
use emailer.Prelude.Int.{ℤ, pos, negsuc}
use emailer.Mail.Imap.{is_empty, chunks_from, chunk_uids, Fetched, found}

abbrev pub concat : List (List ℕ) → List ℕ
concat [] = []
concat (c ∷ cs) = c ++ concat cs

take-append-drop : (n : ℕ) (xs : List ℕ) → take n xs ++ drop n xs ≡ xs
take-append-drop zero xs = refl
take-append-drop (suc n) [] = refl
take-append-drop (suc n) (x ∷ xs) = ap (λ l. x ∷ l) (take-append-drop n xs)

length-drop : (n : ℕ) (xs : List ℕ) → length (drop n xs) ≡ length xs - n
length-drop zero xs = omega arith
length-drop (suc n) [] = omega arith
length-drop (suc n) (x ∷ xs) = omega (arith, length-drop n xs)

length-take : (n : ℕ) (xs : List ℕ) → length (take n xs) ≤ n
length-take zero xs = omega arith
length-take (suc n) [] = omega arith
length-take (suc n) (x ∷ xs) = omega (arith, length-take n xs)

chunks_from_lem :
    (rounds size : ℕ) (uids : List ℕ)
    → length uids ≤ rounds
    → (concat (chunks_from rounds (suc size) uids) ≡ uids)
      × All (λ c. length c ≤ suc size) (chunks_from rounds (suc size) uids)
      × All (λ c. is_empty c ≡ false) (chunks_from rounds (suc size) uids)
unfolding chunks_from
chunks_from_lem zero size [] h = (refl, tt, tt)
chunks_from_lem zero size (u ∷ uids) h = absurd (omega arith)
chunks_from_lem (suc rounds) size [] h = (refl, tt, tt)
chunks_from_lem (suc rounds) size (u ∷ uids) h =
    let (whole, small, filled) =
      chunks_from_lem rounds size (drop (suc size) (u ∷ uids))
        (omega (arith, length-drop size uids)) in
    (
      ap (λ l. take (suc size) (u ∷ uids) ++ l) whole ∙ take-append-drop (suc size) (u ∷ uids),
      (length-take (suc size) (u ∷ uids), small),
      (refl, filled),
    )

chunk_uids-nil : (size : ℤ) → chunk_uids [] size ≡ [] ∷ []
unfolding chunk_uids chunks_from
chunk_uids-nil size = ground arith

chunk_uids-negsuc :
    (u : ℕ) (uids : List ℕ) (k : ℕ) → chunk_uids (u ∷ uids) (negsuc k) ≡ (u ∷ uids) ∷ []
unfolding chunk_uids
chunk_uids-negsuc u uids k = ground arith

chunk_uids-pos :
    (u : ℕ) (uids : List ℕ) (k : ℕ)
    → chunk_uids (u ∷ uids) (pos (suc k)) ≡ chunks_from (length (u ∷ uids)) (suc k) (u ∷ uids)
unfolding chunk_uids
chunk_uids-pos u uids k = ground arith

pos_suc : (k n : ℕ) → pos (suc k) ≡ pos (suc n) → k ≡ n
pos_suc k n e = let h : suc k ≡ suc n = cc in omega arith

pos_zero : (n : ℕ) → pos 0 ≢ pos (suc n)
pos_zero n e = let h : 0 ≡ suc n = cc in omega arith

-- The chunks of a list that is not empty hold its UIDs in order, and none of them is empty; with a
-- positive size none is larger than it.
pub concat-chunk_uids :
    (u : ℕ) (uids : List ℕ) (size : ℤ)
    → (concat (chunk_uids (u ∷ uids) size) ≡ u ∷ uids)
      × All (λ c. is_empty c ≡ false) (chunk_uids (u ∷ uids) size)
      × ((n : ℕ) → size ≡ pos (suc n) → All (λ c. length c ≤ suc n) (chunk_uids (u ∷ uids) size))
unfolding chunk_uids
concat-chunk_uids u uids (pos zero) =
    (append-nil (u ∷ uids), (refl, tt), λ n e. absurd (pos_zero n e))
concat-chunk_uids u uids (negsuc k) =
    rw (chunk_uids-negsuc u uids k) (append-nil (u ∷ uids), (refl, tt), λ n e. cc)
concat-chunk_uids u uids (pos (suc k)) =
    let (whole, small, filled) = chunks_from_lem (length (u ∷ uids)) k (u ∷ uids) (omega arith) in
    rw (chunk_uids-pos u uids k) (
      whole,
      filled,
      λ n e.
          subst
            (λ (m : ℕ).
              All (λ c. length c ≤ suc m) (chunks_from (length (u ∷ uids)) (suc k) (u ∷ uids)))
            (pos_suc k n e) small,
    )

-- A command for some UIDs succeeds, and answers with those messages of the mailbox that have one of
-- the UIDs, in any order: UIDs that are not in the mailbox are passed over.
abbrev pub IsAnswered : {M : Type 0} → (M → ℕ) → List M → List ℕ → Fetched (List M) → Type 0
IsAnswered {M} uid mailbox uids answer =
    (messages : List M) × (answer ≡ found messages)
    × ((m : M) → Mem m messages ↔ (Mem (uid m) uids × Mem m mailbox))
