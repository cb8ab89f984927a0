-- ===== src/Mail/Sanitize/Truncated.antt =====
-- The runes of a truncated text.
use emailer.Prelude.Utf8.{decode_rune, decode_three}
use emailer.Prelude.{false}
use emailer.Prelude.{◌<◌, length-append}
use emailer.Prelude.{
  ℕ, zero, suc, ◌-◌, ◌≤◌, ◌≡◌, refl, ap, ◌∙◌, true, List, [], ◌∷◌, ◌++◌, arith, leb, length, take,
  All,
}
use emailer.Prelude.Bytes.{Bytes}
use emailer.Prelude.Int.{pos}
use emailer.Prelude.Utf8.{
  runes, runes_from, text_of_runes, encode_rune, is_scalar, runes-text_of_runes, runes-IsScalar,
}
use emailer.Mail.Sanitize.{truncate, ellipsis_rune}

All-take :
    (n : ℕ) (rs : List ℕ)
    → All (λ r. is_scalar r ≡ true) rs
    → All (λ r. is_scalar r ≡ true) (take n rs)
All-take zero rs h = tt
All-take (suc n) [] h = tt
All-take (suc n) (r ∷ rs) (h, hs) = (h, All-take n rs hs)

length-take : (n : ℕ) (rs : List ℕ) → n ≤ length rs → length (take n rs) ≡ n
length-take zero rs h = refl
length-take (suc n) [] h = absurd (omega arith)
length-take (suc n) (r ∷ rs) h = omega (arith, length-take n rs (omega arith))

runes_scalars : (s : Bytes) → All (λ r. is_scalar r ≡ true) (runes s)
unfolding runes
runes_scalars s = runes-IsScalar 0 s

runes-ellipsis : runes (encode_rune ellipsis_rune) ≡ ellipsis_rune ∷ []
unfolding runes runes_from encode_rune decode_rune decode_three
runes-ellipsis = refl

truncate-long :
    (s : Bytes) (n : ℕ)
    → suc n < length (runes s)
    → truncate s (pos (suc n)) ≡ text_of_runes (take n (runes s)) ++ encode_rune ellipsis_rune
unfolding truncate
truncate-long s n h =
    let long : leb (length (runes s)) (suc n) ≡ false = ground arith in
    let one_less : suc n - 1 ≡ n = omega arith in
    ground (
      arith,
      ap (λ (k : ℕ). text_of_runes (take k (runes s)) ++ encode_rune ellipsis_rune) one_less,
    )

-- A text of at most `n` runes is not changed by Truncate to a positive limit `n`; a longer one is cut
-- to its first n - 1 runes and an ellipsis, so that it has exactly `n`.
pub runes-truncate :
    (s : Bytes) (n : ℕ)
    → (length (runes s) ≤ suc n → truncate s (pos (suc n)) ≡ s)
      × (suc n < length (runes s)
          → (runes (truncate s (pos (suc n))) ≡ take n (runes s) ++ ellipsis_rune ∷ [])
            × (length (runes (truncate s (pos (suc n)))) ≡ suc n))
unfolding truncate
runes-truncate s n =
    let cut : List ℕ = take n (runes s) in
    let read : runes (text_of_runes cut ++ encode_rune ellipsis_rune) ≡ cut ++ ellipsis_rune ∷ [] =
      runes-text_of_runes cut (encode_rune ellipsis_rune) (All-take n (runes s) (runes_scalars s))
      ∙ ap (λ l. cut ++ l) runes-ellipsis in
    let shape : suc n < length (runes s)
        → truncate s (pos (suc n)) ≡ text_of_runes cut ++ encode_rune ellipsis_rune =
      λ h. truncate-long s n h in
    (
      λ h. ground arith,
      λ h. (
        ap runes (shape h) ∙ read,
        ap (λ t. length (runes t)) (shape h)
            ∙ ap length read
            ∙ omega (arith, length-append cut (ellipsis_rune ∷ []), length-take n (runes s)),
      ),
    )
