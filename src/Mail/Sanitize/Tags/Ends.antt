-- ===== src/Mail/Sanitize/Tags/Ends.antt =====
-- The loop of StripHTML ends, and writes no more than it reads.
use emailer.Mail.Sanitize.Tags.{starts_tag}
use emailer.Mail.Sanitize.Tags.{element_start, markup_start}
use emailer.Prelude.{sym}
use emailer.Prelude.{if-keeps, nat_eq}
use emailer.Prelude.{
  ℕ, zero, suc, ◌+◌, ◌-◌, ◌≤◌, ◌≡◌, refl, ap, ◌∙◌, [], ◌∷◌, ◌++◌, some, arith, length, take, drop,
  length-append, Option-cases, inl, inr, if-keeps, nat_eq,
}
use emailer.Prelude.Bytes.{Bytes, codes, bytes_eq, index}
use emailer.Mail.Sanitize.Tags.{
  TagState, text, tag, script, style, comment, doctype, after, read_tag_name, break_for, cdata,
  closing_tag, opening_tag, tag_start, raw_step, step, strip_loop, write, Step, markup_step,
}

length-after : (q : ℕ) (s : Bytes) → length (after q s) ≤ length s
unfolding after
length-after q [] = omega arith
length-after q (c ∷ s) = ground (arith, length-after q s)

length-drop : (n : ℕ) (s : Bytes) → length (drop n s) ≡ length s - n
length-drop zero s = omega arith
length-drop (suc n) [] = omega arith
length-drop (suc n) (c ∷ s) = omega (arith, length-drop n s)

length-take : (n : ℕ) (s : Bytes) → (length (take n s) ≤ n) × (length (take n s) ≤ length s)
length-take zero s = omega arith
length-take (suc n) [] = omega arith
length-take (suc n) (c ∷ s) = omega (arith, length-take n s)

-- A step before `k` more bytes leaves at most these, and writes no more than it takes.
abbrev next : Step → TagState
next (st, o, s) = st

abbrev written : Step → Bytes
written (st, o, s) = o

abbrev left : Step → Bytes
left (st, o, s) = s

abbrev Spares : ℕ → Step → Type 0
Spares k r = (length (left r) ≤ k) × (length (written r) + length (left r) ≤ suc k)

break_for-length : (name : Bytes) → length (break_for name) ≤ 1
break_for-length name = ground arith

cdata-Spares : (s : Bytes) → Spares (length s) (cdata s)
unfolding cdata
cdata-Spares s = elim (Option-cases (index (drop 2 s) (codes "]]>"))) [
  | inr (end, e) ↦
      ground (arith, length-drop (2 + end + 3) s, length-take (end - 6) (drop 8 s), length-drop 8 s)
  | inl n ↦ elim (Option-cases (index (b'<' ∷ s) (codes ">"))) [
    | inr (end, e) ↦ ground (arith, length-drop (end + 1) (b'<' ∷ s))
    | inl m ↦ ground arith
  ]
]

module _ (tables : Bytes → Bytes) where
  closing_tag-Spares : (s : Bytes) → Spares (length s) (closing_tag tables s)
  unfolding closing_tag
  closing_tag-Spares s =
      let name : Bytes = read_tag_name tables s in
      ground (
        arith,
        length-after b'>' (drop (1 + length name) s),
        length-drop (1 + length name) s,
        length-after b'>' s,
        break_for-length name,
      )

  opening_tag-Spares : (s : Bytes) → Spares (length s) (opening_tag tables s)
  unfolding opening_tag
  opening_tag-Spares s =
      ground (arith, length-after b'>' s, break_for-length (read_tag_name tables s))

  element_start-Spares : (c : ℕ) (s : Bytes) → Spares (suc (length s)) (element_start tables c s)
  unfolding element_start
  element_start-Spares c s = ground (arith, closing_tag-Spares (c ∷ s), opening_tag-Spares (c ∷ s))

  markup_start-Spares : (c : ℕ) (s : Bytes) → Spares (suc (length s)) (markup_start tables c s)
  unfolding markup_start
  markup_start-Spares c s =
      ground (arith, length-drop 3 (c ∷ s), cdata-Spares (c ∷ s), element_start-Spares c s)

  tag_start-Spares : (s : Bytes) → Spares (length s) (tag_start tables s)
  unfolding tag_start
  tag_start-Spares [] = omega arith
  tag_start-Spares (c ∷ s) =
      if-keeps (Spares (length (c ∷ s))) (starts_tag c) (markup_start tables c s)
        (text, b'<' ∷ [], c ∷ s) (markup_start-Spares c s) (omega arith)

  raw_step-Spares :
      (st : TagState) (close : Bytes) (c : ℕ) (s : Bytes)
      → 1 ≤ length close
      → Spares (length s) (raw_step tables st close c s)
  unfolding raw_step
  raw_step-Spares st close c s h =
      ground
        (arith, length-after b'>' (drop (length close) (c ∷ s)), length-drop (length close) (c ∷ s))

  markup_step-Spares : (st : TagState) (c : ℕ) (s : Bytes) → Spares (length s) (markup_step st c s)
  markup_step-Spares st c s = ground (arith, length-after c s)

  step-Spares : (st : TagState) (c : ℕ) (s : Bytes) → Spares (length s) (step tables st c s)
  unfolding step
  step-Spares text c s = ground (arith, tag_start-Spares s)
  step-Spares tag c s = markup_step-Spares tag c s
  step-Spares script c s = raw_step-Spares script (codes "</script") c s (omega arith)
  step-Spares style c s = raw_step-Spares style (codes "</style") c s (omega arith)
  step-Spares comment c s = ground (arith, length-drop 3 (c ∷ s))
  step-Spares doctype c s = markup_step-Spares doctype c s

  strip_loop-nil : (n : ℕ) (st : TagState) → strip_loop tables n st [] ≡ some []
  unfolding strip_loop
  strip_loop-nil zero st = refl
  strip_loop-nil (suc n) st = refl

  -- The loop of StripHTML ends: from any state, as many rounds as there are bytes left suffice, and
  -- what it writes is no longer than what it reads.
  pub strip_loop-terminates :
      (n : ℕ) (st : TagState) (s : Bytes)
      → length s ≤ n
      → (o : Bytes) × (strip_loop tables n st s ≡ some o) × (length o ≤ length s)
  unfolding strip_loop
  strip_loop-terminates n st [] h = ([], strip_loop-nil n st, omega arith)
  strip_loop-terminates zero st (c ∷ s) h = absurd (omega arith)
  strip_loop-terminates (suc n) st (c ∷ s) h =
      let r : Step = step tables st c s in
      let (rest, within) = step-Spares st c s in
      let (o, e, short) = strip_loop-terminates n (next r) (left r) (omega arith) in
      (written r ++ o, ap (write (written r)) e, omega (arith, length-append (written r) o))

  -- More rounds than suffice change nothing.
  pub strip_loop-enough :
      (n m : ℕ) (st : TagState) (s : Bytes)
      → length s ≤ n
      → length s ≤ m
      → strip_loop tables n st s ≡ strip_loop tables m st s
  unfolding strip_loop
  strip_loop-enough n m st [] h k = strip_loop-nil n st ∙ sym (strip_loop-nil m st)
  strip_loop-enough (suc n) (suc m) st (c ∷ s) h k =
      let r : Step = step tables st c s in
      let (rest, within) = step-Spares st c s in
      ap (write (written r)) (strip_loop-enough n m (next r) (left r) (omega arith) (omega arith))
  strip_loop-enough zero m st (c ∷ s) h k = absurd (omega arith)
  strip_loop-enough (suc n) zero st (c ∷ s) h k = absurd (omega arith)
