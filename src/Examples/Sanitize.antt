-- ===== src/Examples/Sanitize.antt =====
-- Examples for internal/mail/sanitize.go.
use emailer.Prelude.{◌<◌, ◌≤◌, ◌≡◌, refl, [], ◌∷◌, ◌++◌, some, All, arith, length, take, contains}
use emailer.Prelude.Bytes.{Bytes, codes}
use emailer.Prelude.Int.{pos}
use emailer.Prelude.Utf8.{runes}
use emailer.Mail.Sanitize.{strip_control_chars, truncate, ellipsis_rune}
use emailer.Mail.Sanitize.Tags.{tag, strip_loop, strip_tags, name_bytes}
use emailer.Mail.Sanitize.Tags.Ends.{strip_loop-terminates}
use emailer.Mail.Sanitize.Tags.Removed.{strip_tags-script}
use emailer.Mail.Sanitize.Plain.{IsPlain, strip_control_chars-IsPlain}
use emailer.Mail.Sanitize.Truncated.{runes-truncate}

-- The case tables, where the text is ASCII.
abbrev tables : Bytes → Bytes
tables s = s

strip_loop-terminates_example :
    (o : Bytes) × (strip_loop tables 20 tag (codes "b class='x'>Hi</b>") ≡ some o) × (length o ≤ 18)
strip_loop-terminates_example =
    strip_loop-terminates tables 20 tag (codes "b class='x'>Hi</b>") (omega arith)

strip_tags-script_example :
    strip_tags tables (codes "Hi <script src=a>run(1 > 0)</script> <b>there</b>")
    ≡ codes "Hi " ++ strip_tags tables (codes " <b>there</b>")
unfolding contains name_bytes
strip_tags-script_example =
    strip_tags-script tables (codes "Hi ") (codes " src=a") (codes "run(1 > 0)")
      (codes " <b>there</b>") refl refl refl refl

strip_control_chars-IsPlain_example :
    All IsPlain (strip_control_chars (7 ∷ 72 ∷ 0xc2 ∷ 0x85 ∷ 0x9f ∷ []))
strip_control_chars-IsPlain_example = strip_control_chars-IsPlain (7 ∷ 72 ∷ 0xc2 ∷ 0x85 ∷ 0x9f ∷ [])

runes-truncate_example :
    (length (runes (codes "Hello")) ≤ 3 → truncate (codes "Hello") (pos 3) ≡ codes "Hello")
    × (3 < length (runes (codes "Hello"))
        → (runes (truncate (codes "Hello") (pos 3))
            ≡ take 2 (runes (codes "Hello")) ++ ellipsis_rune ∷ [])
          × (length (runes (truncate (codes "Hello") (pos 3))) ≡ 3))
runes-truncate_example = runes-truncate (codes "Hello") 2
