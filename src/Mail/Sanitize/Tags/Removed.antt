-- ===== src/Mail/Sanitize/Tags/Removed.antt =====
-- What StripHTML keeps and what it removes.
use mathlib.Core.List.{append-nil}
use emailer.Prelude.{subst}
use mathlib.Core.List.{append_assoc}
use emailer.Prelude.{
  ℕ, ◌≤◌, ◌≡◌, refl, ap, sym, ◌∙◌, true, false, [], ◌∷◌, ◌++◌, Option, none, some, arith, ltb,
  length, nat_beq, nat_eq, contains, or_else, length-append, list_beq,
}
use emailer.Prelude.Bytes.{Bytes, codes, bytes_eq, has_prefix, to_lower}
use emailer.Mail.Sanitize.Tags.{
  TagState, text, script, after, name_bytes, read_tag_name, opening_tag, element_start,
  markup_start, tag_start, starts_tag, raw_step, step, strip_loop, strip_tags, write, Step,
}
use emailer.Mail.Sanitize.Tags.Ends.{strip_loop-terminates, strip_loop-enough}

write-write : (o p : Bytes) (r : Option Bytes) → write o (write p r) ≡ write (o ++ p) r
write-write o p none = refl
write-write o p (some r) = ap some (sym (append_assoc o p r))

write-nil : (r : Option Bytes) → write [] r ≡ r
write-nil none = refl
write-nil (some r) = refl

after-append : (q : ℕ) (a s : Bytes) → contains q a ≡ false → after q (a ++ q ∷ s) ≡ s
unfolding after contains
after-append q [] s h = ground arith
after-append q (c ∷ a) s h = ground (arith, after-append q a s)

module _ (tables : Bytes → Bytes) where
  -- The loop with as many rounds as there are bytes.
  abbrev strip_from : TagState → Bytes → Option Bytes
  strip_from st s = strip_loop tables (length s) st s

  strip_from-step :
      (st st' : TagState) (c : ℕ) (s o s' : Bytes)
      → step tables st c s ≡ (st', o, s')
      → length s' ≤ length s
      → strip_from st (c ∷ s) ≡ write o (strip_from st' s')
  unfolding strip_loop
  strip_from-step st st' c s o s' e h =
      ap (λ (r : Step). write r.1 (strip_loop tables (length s) r.0 r.2)) e
      ∙ ap (write o) (strip_loop-enough tables (length s) (length s') st' s' h (omega arith))

  step-text :
      (c : ℕ) (s : Bytes) → nat_beq c b'<' ≡ false → step tables text c s ≡ (text, c ∷ [], s)
  unfolding step
  step-text c s h = rw h refl

  strip_from-text :
      (a s : Bytes)
      → contains b'<' a ≡ false
      → strip_from text (a ++ s) ≡ write a (strip_from text s)
  unfolding contains
  strip_from-text [] s h = sym (write-nil (strip_from text s))
  strip_from-text (c ∷ a) s h =
      strip_from-step text text c (a ++ s) (c ∷ []) (a ++ s) (step-text c (a ++ s) (ground arith))
        (omega arith)
      ∙ ap (write (c ∷ [])) (strip_from-text a s (ground arith))
      ∙ write-write (c ∷ []) a (strip_from text s)

  step-script :
      (c : ℕ) (s : Bytes) → nat_beq c b'<' ≡ false → step tables script c s ≡ (script, [], s)
  unfolding step raw_step
  step-script c s h = rw h refl

  strip_from-script :
      (a s : Bytes) → contains b'<' a ≡ false → strip_from script (a ++ s) ≡ strip_from script s
  unfolding contains
  strip_from-script [] s h = refl
  strip_from-script (c ∷ a) s h =
      strip_from-step script script c (a ++ s) [] (a ++ s) (step-script c (a ++ s) (ground arith))
        (omega arith)
      ∙ write-nil (strip_from script (a ++ s))
      ∙ strip_from-script a s (ground arith)

  name_bytes-attributes : (a s : Bytes) → name_bytes a ≡ [] → name_bytes (a ++ b'>' ∷ s) ≡ []
  unfolding name_bytes
  name_bytes-attributes [] s h = refl
  name_bytes-attributes (c ∷ a) s h = ground arith

  read_tag_name-script :
      (z : Bytes) → name_bytes z ≡ [] → read_tag_name tables (codes "script" ++ z) ≡ codes "script"
  unfolding read_tag_name name_bytes to_lower
  read_tag_name-script z h =
      let same : name_bytes (codes "script" ++ z) ≡ codes "script" =
        ap (λ (n : Bytes). codes "script" ++ n) h in
      ap (to_lower tables) same

  opening_tag-script :
      (r s : Bytes)
      → read_tag_name tables r ≡ codes "script"
      → after b'>' r ≡ s
      → opening_tag tables r ≡ (script, [], s)
  unfolding opening_tag list_beq
  opening_tag-script r s n e = rw (n, e) refl

  step-script_open :
      (z s : Bytes)
      → name_bytes z ≡ []
      → after b'>' z ≡ s
      → step tables text b'<' (codes "script" ++ z) ≡ (script, [], s)
  unfolding step tag_start starts_tag markup_start element_start opening_tag has_prefix after
  step-script_open z s n e = opening_tag-script (codes "script" ++ z) s (read_tag_name-script z n) e

  strip_from-script_open :
      (a s : Bytes)
      → name_bytes a ≡ []
      → contains b'>' a ≡ false
      → strip_from text (codes "<script" ++ (a ++ b'>' ∷ s)) ≡ strip_from script s
  strip_from-script_open a s n h =
      strip_from-step text script b'<' (codes "script" ++ (a ++ b'>' ∷ s)) [] s
        (step-script_open (a ++ b'>' ∷ s) s (name_bytes-attributes a s n) (after-append b'>' a s h))
        (omega (arith, length-append a (b'>' ∷ s)))
      ∙ write-nil (strip_from script s)

  step-script_close : (s : Bytes) → step tables script b'<' (codes "/script>" ++ s) ≡ (text, [], s)
  unfolding step raw_step to_lower after list_beq
  step-script_close s =
      let long : ltb 8 (length (codes "</script>" ++ s)) ≡ true = ground arith in rw long refl

  strip_from-script_close :
      (s : Bytes) → strip_from script (codes "</script>" ++ s) ≡ strip_from text s
  strip_from-script_close s =
      strip_from-step script text b'<' (codes "/script>" ++ s) [] s (step-script_close s)
        (omega arith)
      ∙ write-nil (strip_from text s)

  -- A script is removed with its content, and the text before it is kept byte by byte: `a` is what
  -- stands before the script and has no '<', `attributes` has no '>' and starts with no byte of a
  -- name, and the script's `body` has no '<'. What follows the script is treated as if it stood
  -- alone.
  pub strip_tags-script :
      (a attributes body rest : Bytes)
      → contains b'<' a ≡ false
      → name_bytes attributes ≡ []
      → contains b'>' attributes ≡ false
      → contains b'<' body ≡ false
      → strip_tags tables
          (a ++ (codes "<script" ++ (attributes ++ b'>' ∷ (body ++ (codes "</script>" ++ rest)))))
        ≡ a ++ strip_tags tables rest
  unfolding strip_tags
  strip_tags-script a attributes body rest ha n h hb =
      let inner : Bytes = body ++ (codes "</script>" ++ rest) in
      let whole : strip_from text (a ++ (codes "<script" ++ (attributes ++ b'>' ∷ inner)))
          ≡ write a (strip_from text rest) =
        strip_from-text a (codes "<script" ++ (attributes ++ b'>' ∷ inner)) ha
        ∙ ap (write a) (
            strip_from-script_open attributes inner n h
            ∙ strip_from-script body (codes "</script>" ++ rest) hb
            ∙ strip_from-script_close rest) in
      let (o, e, short) = strip_loop-terminates tables (length rest) text rest (omega arith) in
      ap (λ (r : Option Bytes). or_else r []) whole ∙ rw e refl

  -- Text without a '<' passes the stripping of tags unchanged.
  pub strip_tags-plain : (a : Bytes) → contains b'<' a ≡ false → strip_tags tables a ≡ a
  unfolding strip_tags strip_loop
  strip_tags-plain a h =
      let whole : strip_from text (a ++ []) ≡ some (a ++ []) = strip_from-text a [] h in
      let e : a ++ [] ≡ a = append-nil a in
      ap (λ (r : Option Bytes). or_else r [])
        (subst (λ (x : Bytes). strip_from text x ≡ some x) e whole)
