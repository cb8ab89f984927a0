-- ===== src/Prelude/Utf8.antt =====
-- UTF-8 as package `unicode/utf8` reads and writes it. It models no code of its own.
use mathlib.Core.List.{append_assoc}
use Prim.Native.Nat.{ℕ, zero, suc, ◌+◌, ◌-◌, ◌*◌, ◌/◌, ◌%◌, ◌≤◌, ◌<◌}
use mathlib.Core.Path.{◌≡◌, refl, ap, ◌∙◌}
use mathlib.Core.Logic.{inl, inr}
use mathlib.Core.Bool.{Bool, true, ◌&&◌, ◌||◌}
use mathlib.Core.List.{List, [], ◌∷◌, ◌++◌}
use native.Mathlib.Omega.{arith}
use emailer.Prelude.Tests.{ltb, leb, nat_beq, if◌then◌else◌, Bool-cases}
use emailer.Prelude.Lists.{All}
use emailer.Prelude.Bytes.{Bytes}

abbrev pub rune_error : ℕ
rune_error = 0xfffd

abbrev pub is_between : ℕ → ℕ → ℕ → Bool
is_between lo hi c = leb lo c && leb c hi

-- The bounds of the second byte, which keep out overlong forms, surrogates and what is too large.
abbrev second_low : ℕ → ℕ
second_low a = if nat_beq a 0xe0 then 0xa0 else if nat_beq a 0xf0 then 0x90 else 0x80

abbrev second_high : ℕ → ℕ
second_high a = if nat_beq a 0xed then 0x9f else if nat_beq a 0xf4 then 0x8f else 0xbf

abbrev is_tail : ℕ → Bool
is_tail c = is_between 0x80 0xbf c

-- A byte `a` and those after it, as a rune and the bytes that follow it within the rune; `none`
-- where the byte is no start of a rune.
abbrev pub Decoded : Type 0
Decoded = ℕ × ℕ

abbrev bad : Decoded
bad = (rune_error, 1)

unfoldable pub decode_two : ℕ → Bytes → Decoded
decode_two a [] = bad
decode_two a (b ∷ s) = if is_tail b then (a % 32 * 64 + b % 64, 2) else bad

unfoldable pub decode_three : ℕ → Bytes → Decoded
decode_three a [] = bad
decode_three a (b ∷ []) = bad
decode_three a (b ∷ c ∷ s) =
    if is_between (second_low a) (second_high a) b && is_tail c
    then (a % 16 * 4096 + b % 64 * 64 + c % 64, 3)
    else bad

unfoldable pub decode_four : ℕ → Bytes → Decoded
decode_four a [] = bad
decode_four a (b ∷ []) = bad
decode_four a (b ∷ c ∷ []) = bad
decode_four a (b ∷ c ∷ d ∷ s) =
    if is_between (second_low a) (second_high a) b && is_tail c && is_tail d
    then (a % 8 * 262144 + b % 64 * 4096 + c % 64 * 64 + d % 64, 4)
    else bad

-- utf8.DecodeRuneInString of a text that starts with the byte `a`: the rune and its size.
unfoldable pub decode_rune : ℕ → Bytes → Decoded
unfolding decode_two decode_three decode_four
decode_rune a s =
    if ltb a 0x80
    then (a, 1)
    else if is_between 0xc2 0xdf a
    then decode_two a s
    else if is_between 0xe0 0xef a
    then decode_three a s
    else if is_between 0xf0 0xf4 a
    then decode_four a s
    else bad

abbrev pub is_scalar : ℕ → Bool
is_scalar r = ltb r 0xd800 || is_between 0xe000 0x10ffff r

encode_scalar : ℕ → Bytes
encode_scalar r =
    if ltb r 0x80
    then r ∷ []
    else if ltb r 0x800
    then (0xc0 + r / 64) ∷ (0x80 + r % 64) ∷ []
    else if ltb r 0x10000
    then (0xe0 + r / 4096) ∷ (0x80 + r / 64 % 64) ∷ (0x80 + r % 64) ∷ []
    else (0xf0 + r / 262144) ∷ (0x80 + r / 4096 % 64) ∷ (0x80 + r / 64 % 64) ∷ (0x80 + r % 64) ∷ []

-- strings.Builder.WriteRune
unfoldable pub encode_rune : ℕ → Bytes
unfolding encode_scalar
encode_rune r = if is_scalar r then encode_scalar r else 0xef ∷ 0xbf ∷ 0xbd ∷ []

-- The runes of a text, as `range` and a conversion to []rune give them; the number counts the bytes
-- of the last rune that are still to pass.
unfoldable pub runes_from : ℕ → Bytes → List ℕ
unfolding decode_rune
runes_from n [] = []
runes_from (suc n) (a ∷ s) = runes_from n s
runes_from zero (a ∷ s) = (decode_rune a s).0 ∷ runes_from ((decode_rune a s).1 - 1) s

unfoldable pub runes : Bytes → List ℕ
unfolding runes_from
runes s = runes_from 0 s

-- A conversion of []rune to string.
unfoldable pub text_of_runes : List ℕ → Bytes
unfolding encode_rune
text_of_runes [] = []
text_of_runes (r ∷ rs) = encode_rune r ++ text_of_runes rs

pub decode_rune-is_scalar : (a : ℕ) (s : Bytes) → is_scalar (decode_rune a s).0 ≡ true
unfolding decode_rune decode_two decode_three decode_four
decode_rune-is_scalar a [] = ground arith
decode_rune-is_scalar a (b ∷ []) = ground arith
decode_rune-is_scalar a (b ∷ c ∷ []) = ground arith
decode_rune-is_scalar a (b ∷ c ∷ d ∷ s) = ground arith

module _ (r : ℕ) (s : Bytes) where
  decode_one : (r < 0x80) → decode_rune r s ≡ (r, 1)
  unfolding decode_rune
  decode_one h = ground arith

  decode-encode_two :
      0x80 ≤ r → r < 0x800 → decode_rune (0xc0 + r / 64) ((0x80 + r % 64) ∷ s) ≡ (r, 2)
  unfolding decode_rune decode_two
  decode-encode_two lo hi = ground arith

  decode-encode_three :
      0x800 ≤ r
      → r < 0x10000
      → is_scalar r ≡ true
      → decode_rune (0xe0 + r / 4096) ((0x80 + r / 64 % 64) ∷ (0x80 + r % 64) ∷ s) ≡ (r, 3)
  unfolding decode_rune decode_three
  decode-encode_three lo hi h = ground arith

  decode-encode_four :
      0x10000 ≤ r
      → is_scalar r ≡ true
      → decode_rune
          (0xf0 + r / 262144)
          ((0x80 + r / 4096 % 64) ∷ (0x80 + r / 64 % 64) ∷ (0x80 + r % 64) ∷ s)
        ≡ (r, 4)
  unfolding decode_rune decode_four
  decode-encode_four lo h = ground arith

runes_from-step :
    (a r n : ℕ) (s : Bytes)
    → decode_rune a s ≡ (r, suc n)
    → runes_from 0 (a ∷ s) ≡ r ∷ runes_from n s
unfolding runes_from
runes_from-step a r n s e =
    ap (λ (d : Decoded). d.0 ∷ runes_from (d.1 - 1) s) e
    ∙ ap (λ (k : ℕ). r ∷ runes_from k s) (omega arith)

runes_from-skip_one : (a : ℕ) (s : Bytes) → runes_from 1 (a ∷ s) ≡ runes_from 0 s
unfolding runes_from
runes_from-skip_one a s = refl

runes_from-skip_two : (a b : ℕ) (s : Bytes) → runes_from 2 (a ∷ b ∷ s) ≡ runes_from 0 s
unfolding runes_from
runes_from-skip_two a b s = refl

runes_from-skip_three : (a b c : ℕ) (s : Bytes) → runes_from 3 (a ∷ b ∷ c ∷ s) ≡ runes_from 0 s
unfolding runes_from
runes_from-skip_three a b c s = refl

runes_from-encode_rune :
    (r : ℕ) (s : Bytes)
    → is_scalar r ≡ true
    → runes_from 0 (encode_rune r ++ s) ≡ r ∷ runes_from 0 s
unfolding encode_rune encode_scalar
runes_from-encode_rune r s h = rw h (elim (Bool-cases (ltb r 0x80)) [
  | inl one ↦ rw one (runes_from-step r r 0 s (decode_one r s (ground arith)))
  | inr more ↦ rw more (elim (Bool-cases (ltb r 0x800)) [
    | inl two ↦ rw two (
        runes_from-step _ r 1 _ (decode-encode_two r s (ground arith) (ground arith))
        ∙ ap (λ (l : List ℕ). r ∷ l) (runes_from-skip_one _ s))
    | inr large ↦ rw large (elim (Bool-cases (ltb r 0x10000)) [
      | inl three ↦ rw three (
          runes_from-step _ r 2 _ (decode-encode_three r s (ground arith) (ground arith) h)
          ∙ ap (λ (l : List ℕ). r ∷ l) (runes_from-skip_two _ _ s))
      | inr four ↦ rw four (
          runes_from-step _ r 3 _ (decode-encode_four r s (ground arith) h)
          ∙ ap (λ (l : List ℕ). r ∷ l) (runes_from-skip_three _ _ _ s))
    ])
  ])
])

-- Writing runes and reading them gives the runes back.
pub runes-text_of_runes :
    (rs : List ℕ) (s : Bytes)
    → All (λ r. is_scalar r ≡ true) rs
    → runes (text_of_runes rs ++ s) ≡ rs ++ runes s
unfolding runes text_of_runes
runes-text_of_runes [] s h = refl
runes-text_of_runes (r ∷ rs) s (h, hs) =
    ap (runes_from 0) (append_assoc (encode_rune r) (text_of_runes rs) s)
    ∙ runes_from-encode_rune r (text_of_runes rs ++ s) h
    ∙ ap (λ (l : List ℕ). r ∷ l) (runes-text_of_runes rs s hs)

pub runes-IsScalar : (n : ℕ) (s : Bytes) → All (λ r. is_scalar r ≡ true) (runes_from n s)
unfolding runes_from
runes-IsScalar n [] = tt
runes-IsScalar (suc n) (a ∷ s) = runes-IsScalar n s
runes-IsScalar zero (a ∷ s) =
    (decode_rune-is_scalar a s, runes-IsScalar ((decode_rune a s).1 - 1) s)
