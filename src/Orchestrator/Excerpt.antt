-- ===== src/Orchestrator/Excerpt.antt =====
-- `truncateExcerpt` of internal/orchestrator/orchestrator.go. It counts bytes.
use emailer.Prelude.{
  ℕ, zero, suc, ◌+◌, ◌≤◌, ◌≡◌, refl, ap, ◌||◌, [], ◌∷◌, ◌++◌, arith, length, take, leb,
  if◌then◌else◌, length-append, Bool-cases, inl, inr,
}
use emailer.Prelude.Bytes.{Bytes}
use emailer.Prelude.Int.{ℤ, pos, leb_ℤ, pos_part}

-- "…" in UTF-8.
abbrev ellipsis : Bytes
ellipsis = 0xe2 ∷ 0x80 ∷ 0xa6 ∷ []

unfoldable pub truncate_excerpt : Bytes → ℤ → Bytes
truncate_excerpt body limit =
    if leb_ℤ limit (pos 0) || leb (length body) (pos_part limit)
    then body
    else take (pos_part limit) body ++ ellipsis

take-take_append : (n : ℕ) (s t : Bytes) → n ≤ length s → take n (take n s ++ t) ≡ take n s
take-take_append zero s t h = refl
take-take_append (suc n) [] t h = absurd (omega arith)
take-take_append (suc n) (c ∷ s) t h = ap (◌∷◌ c) (take-take_append n s t (omega arith))

length-take : (n : ℕ) (s : Bytes) → length (take n s) ≤ n
length-take zero s = omega arith
length-take (suc n) [] = omega arith
length-take (suc n) (c ∷ s) = omega (arith, length-take n s)

-- With a positive limit, an excerpt agrees with the body on the first `limit` bytes and is at most
-- three bytes, the ellipsis, longer than the limit.
pub truncate_excerpt_bounds :
    (body : Bytes) (n : ℕ)
    → (take (suc n) (truncate_excerpt body (pos (suc n))) ≡ take (suc n) body)
      × (length (truncate_excerpt body (pos (suc n))) ≤ suc n + 3)
unfolding truncate_excerpt
truncate_excerpt_bounds body n =
    elim (Bool-cases (leb_ℤ (pos (suc n)) (pos 0) || leb (length body) (suc n))) [
      | inl short ↦ rw short (refl, ground arith)
      | inr long ↦ rw long (
        take-take_append (suc n) body ellipsis (ground arith),
        omega (arith, length-append (take (suc n) body) ellipsis, length-take (suc n) body),
      )
    ]
