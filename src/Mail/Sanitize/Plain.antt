-- ===== src/Mail/Sanitize/Plain.antt =====
-- What StripControlChars leaves.
use emailer.Prelude.{◌&&◌, if-keeps}
use emailer.Prelude.{◌-◌}
use emailer.Prelude.{
  ℕ, zero, suc, ◌≤◌, ◌≢◌, ◌⊎◌, inl, inr, ◌≡◌, true, false, [], ◌∷◌, ◌++◌, arith, All, leb, nat_beq,
  Bool-cases,
}
use emailer.Prelude.Bytes.{Bytes}
use emailer.Prelude.Utf8.{decode_rune, encode_rune, rune_error}
use emailer.Mail.Sanitize.{is_control, kept_rune, strip_control_from, strip_control_chars}

-- A byte of ASCII that is printed or white space, or a byte of another rune.
abbrev pub IsPlain : ℕ → Type 0
IsPlain c = ((32 ≤ c) × (c ≢ 127)) ⊎ ((c ≡ 9) ⊎ ((c ≡ 10) ⊎ (c ≡ 13)))

encode_rune-IsPlain : (r : ℕ) → is_control r ≡ false → All IsPlain (encode_rune r)
unfolding is_control encode_rune
encode_rune-IsPlain r h = ground arith

decode_rune-bad : (a : ℕ) (s : Bytes) → nat_beq (decode_rune a s).0 rune_error ≡ true → 128 ≤ a
unfolding decode_rune
decode_rune-bad a s h = ground arith

kept_rune_lem :
    (a r size : ℕ) → (nat_beq r rune_error ≡ true → 128 ≤ a) → All IsPlain (kept_rune a (r, size))
unfolding kept_rune
kept_rune_lem a r size bad = elim (Bool-cases (nat_beq r rune_error && nat_beq size 1)) [
  | inl raw ↦ rw raw (
      let high : 128 ≤ a = bad (ground arith) in
      if-keeps (All IsPlain) (leb 0x7f a && leb a 0x9f) [] (a ∷ []) tt
        (inl (omega arith, λ e. omega arith), tt))
  | inr decoded ↦ rw decoded (elim (Bool-cases (is_control r)) [
    | inl control ↦ rw control tt
    | inr fine ↦ rw fine (encode_rune-IsPlain r fine)
  ])
]

kept_rune-IsPlain : (a : ℕ) (s : Bytes) → All IsPlain (kept_rune a (decode_rune a s))
kept_rune-IsPlain a s =
    kept_rune_lem a (decode_rune a s).0 (decode_rune a s).1 (decode_rune-bad a s)

All-append : (xs ys : Bytes) → All IsPlain xs → All IsPlain ys → All IsPlain (xs ++ ys)
All-append [] ys p q = q
All-append (x ∷ xs) ys (p, ps) q = (p, All-append xs ys ps q)

strip_control_from-IsPlain : (n : ℕ) (s : Bytes) → All IsPlain (strip_control_from n s)
unfolding strip_control_from
strip_control_from-IsPlain n [] = tt
strip_control_from-IsPlain (suc n) (a ∷ s) = strip_control_from-IsPlain n s
strip_control_from-IsPlain zero (a ∷ s) =
    All-append (kept_rune a (decode_rune a s)) _ (kept_rune-IsPlain a s)
      (strip_control_from-IsPlain ((decode_rune a s).1 - 1) s)

-- Whatever bytes the text holds, valid UTF-8 or not, StripControlChars leaves no C0 control byte but
-- tab, line feed and carriage return, and no DEL.
pub strip_control_chars-IsPlain : (s : Bytes) → All IsPlain (strip_control_chars s)
unfolding strip_control_chars
strip_control_chars-IsPlain s = strip_control_from-IsPlain 0 s
