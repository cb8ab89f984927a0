-- ===== src/Prelude/Decimal.antt =====
-- Decimal texts, as `%d` prints a number that is not negative.
use Prim.Native.Nat.{ℕ, zero, suc, ◌+◌, ◌-◌, ◌*◌, ◌/◌, ◌%◌, ◌≤◌}
use mathlib.Core.Path.{◌≡◌, sym, ap, ◌∙◌}
use mathlib.Core.List.{[], ◌∷◌}
use mathlib.Core.Logic.{inl, inr}
use native.Mathlib.Omega.{arith}
use emailer.Prelude.Tests.{nat_beq, if◌then◌else◌, Bool-cases}
use emailer.Prelude.Bytes.{Bytes}

-- Each round takes the last digit off; `n` rounds are more than a number `n` has digits.
decimal_loop : ℕ → ℕ → Bytes → Bytes
decimal_loop zero n out = out
decimal_loop (suc rounds) n out =
    let rest = decimal_loop rounds (n / 10) ((b'0' + n % 10) ∷ out) in
    if nat_beq n 0 then out else rest

unfoldable pub decimal : ℕ → Bytes
unfolding decimal_loop
decimal n = if nat_beq n 0 then b'0' ∷ [] else decimal_loop n n []

-- The number that a text of digits stands for, after those that made `n`.
abbrev pub value : ℕ → Bytes → ℕ
value n [] = n
value n (c ∷ s) = value (n * 10 + (c - b'0')) s

value-decimal_loop :
    (rounds n : ℕ) (out : Bytes) → n ≤ rounds → value 0 (decimal_loop rounds n out) ≡ value n out
unfolding decimal_loop
value-decimal_loop zero n out h = ap (λ (k : ℕ). value k out) (omega arith)
value-decimal_loop (suc rounds) n out h = elim (Bool-cases (nat_beq n 0)) [
  | inl done ↦ rw done (ap (λ (k : ℕ). value k out) (ground arith))
  | inr more ↦ rw more (
      value-decimal_loop rounds (n / 10) ((b'0' + n % 10) ∷ out) (ground arith)
      ∙ ap (λ (k : ℕ). value k out) (omega arith))
]

pub value-decimal : (n : ℕ) → value 0 (decimal n) ≡ n
unfolding decimal
value-decimal n = elim (Bool-cases (nat_beq n 0)) [
  | inl z ↦ rw z (ground arith)
  | inr nz ↦ rw nz (value-decimal_loop n n [] (omega arith))
]

pub decimal-injective : (n m : ℕ) → decimal n ≡ decimal m → n ≡ m
decimal-injective n m e = sym (value-decimal n) ∙ ap (value 0) e ∙ value-decimal m
