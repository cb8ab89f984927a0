-- ===== src/Mail/Key.antt =====
-- internal/mail/types.go: `itoa` and `MessageKey.Key`. The same two functions stand in
-- internal/store/store.go.
pub mod Injective
use native.Mathlib.Nat.{pow-suc}
use emailer.Prelude.{
  ℕ, zero, suc, ◌+◌, ◌-◌, ◌*◌, ◌/◌, ◌%◌, ◌^◌, ◌<◌, ◌≤◌, ◌≡◌, refl, sym, ap, ◌∙◌, true, false, List,
  [], ◌∷◌, ◌++◌, Option, none, some, arith, Bool-cases, nat_beq, if◌then◌else◌, inl, inr, All, ◌≢◌,
}
use emailer.Prelude.Bytes.{Bytes}
use emailer.Mail.Types.{MessageKey}

-- The loop over a buffer with `slots` free bytes; `none` is the panic on a full buffer.
itoa_loop : ℕ → ℕ → Bytes → Option Bytes
itoa_loop zero n out = if nat_beq n 0 then some out else none
itoa_loop (suc slots) n out =
    let rest = itoa_loop slots (n / 10) ((b'0' + n % 10) ∷ out) in
    if nat_beq n 0 then some out else rest

pub itoa : ℕ → Option Bytes
itoa n = if nat_beq n 0 then some (b'0' ∷ []) else itoa_loop 10 n []

-- MessageKey.Key
pub key_text : MessageKey → Option Bytes
key_text k = elim (itoa k.uid) [ none ↦ none | some s ↦ some (k.account_label ++ (b'/' ∷ s)) ]

-- The number that a text of digits stands for, after those that made `n`.
abbrev pub value : ℕ → Bytes → ℕ
value n [] = n
value n (c ∷ s) = value (n * 10 + (c - b'0')) s

abbrev pub NotSlash : ℕ → Type 0
NotSlash c = c ≢ b'/'

-- What `itoa` gives back for `n`: a text that reads as `n` and holds no slash.
pub record Prints (n : ℕ) (s : Bytes) : Type 0 where
  pub reads : value 0 s ≡ n
  pub no_slash : All NotSlash s

itoa_loop-Prints :
    (slots n : ℕ) (out : Bytes)
    → n < 10 ^ slots
    → All NotSlash out
    → (s : Bytes) × (itoa_loop slots n out ≡ some s) × (value 0 s ≡ value n out) × All NotSlash s
unfolding itoa_loop
itoa_loop-Prints zero n out h d = (out, ground arith, ap (λ (k : ℕ). value k out) (omega arith), d)
itoa_loop-Prints (suc slots) n out h d = elim (Bool-cases (nat_beq n 0)) [
  | inl done ↦ (out, rw done, ap (λ (k : ℕ). value k out) (ground arith), d)
  | inr more ↦
      let (s, e, v, a) =
        itoa_loop-Prints slots (n / 10) ((b'0' + n % 10) ∷ out) (omega (arith, pow-suc 10 slots))
          (omega arith, d) in
      (s, rw more e, v ∙ ap (λ (k : ℕ). value k out) (omega arith), a)
]

pub itoa-Prints : (n : ℕ) → n < 2 ^ 32 → (s : Bytes) × (itoa n ≡ some s) × Prints n s
unfolding itoa
itoa-Prints n h = elim (Bool-cases (nat_beq n 0)) [
  | inl z ↦ (b'0' ∷ [], rw z, record { reads = ground arith; no_slash = (omega arith, tt) })
  | inr nz ↦
      let (s, e, v, a) = itoa_loop-Prints 10 n [] (omega arith) tt in
      (s, rw nz e, record { reads = v; no_slash = a })
]
