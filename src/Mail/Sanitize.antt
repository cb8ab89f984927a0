-- ===== src/Mail/Sanitize.antt =====
-- internal/mail/sanitize.go, except the stripping of tags (Tags) and the entities (Entities), and
-- ConvertCharset, which only calls golang.org/x/net.
pub mod Tags
pub mod Entities
pub mod Header
pub mod Plain
pub mod Truncated
use emailer.Prelude.{
  ℕ, zero, suc, ◌+◌, ◌-◌, Bool, true, false, not, ◌&&◌, ◌||◌, List, [], ◌∷◌, ◌++◌, Option, none,
  some, leb, length, take, nat_beq, reverse, if◌then◌else◌,
}
use emailer.Prelude.Bytes.{Bytes, trim_space}
use emailer.Prelude.Int.{ℤ, pos, leb_ℤ, pos_part}
use emailer.Prelude.Utf8.{decode_rune, encode_rune, runes, text_of_runes, rune_error, is_between}

abbrev pub newline : ℕ
newline = 10

-- The loop of collapseNewlines over the runes; `after` is prevNL.
unfoldable pub collapse_from : Bool → List ℕ → Bytes
unfolding encode_rune
collapse_from after [] = []
collapse_from after (r ∷ rs) =
    let rest = collapse_from (nat_beq r newline) rs in
    if nat_beq r newline && after then rest else encode_rune r ++ rest

unfoldable pub collapse_newlines : Bytes → Bytes
unfolding collapse_from runes
collapse_newlines s = collapse_from false (runes s)

-- The loop of trimLines; `line` is the current line, the last byte first.
unfoldable pub trim_lines_from : Bytes → Bytes → Bytes
unfolding trim_space
trim_lines_from line [] = trim_space (reverse line)
trim_lines_from line (c ∷ s) =
    let rest = trim_lines_from (if nat_beq c newline then [] else c ∷ line) s in
    if nat_beq c newline then trim_space (reverse line) ++ newline ∷ rest else rest

unfoldable pub trim_lines : Bytes → Bytes
unfolding trim_lines_from
trim_lines s = trim_lines_from [] s

unfoldable pub is_control : ℕ → Bool
is_control r =
    if leb r 0x1f
    then not (nat_beq r 9) && not (nat_beq r 10) && not (nat_beq r 13)
    else leb 0x7f r && leb r 0x9f

-- What the loop of StripControlChars writes for the rune at a byte.
unfoldable pub kept_rune : ℕ → ℕ × ℕ → Bytes
unfolding is_control encode_rune
kept_rune a (r, size) =
    if nat_beq r rune_error && nat_beq size 1
    then (if leb 0x7f a && leb a 0x9f then [] else a ∷ [])
    else if is_control r
    then []
    else encode_rune r

-- The number counts the bytes of the last rune that are still to pass.
unfoldable pub strip_control_from : ℕ → Bytes → Bytes
unfolding kept_rune decode_rune
strip_control_from n [] = []
strip_control_from (suc n) (a ∷ s) = strip_control_from n s
strip_control_from zero (a ∷ s) =
    kept_rune a (decode_rune a s) ++ strip_control_from ((decode_rune a s).1 - 1) s

unfoldable pub strip_control_chars : Bytes → Bytes
unfolding strip_control_from
strip_control_chars s = strip_control_from 0 s

abbrev pub ellipsis_rune : ℕ
ellipsis_rune = 0x2026

unfoldable pub truncate : Bytes → ℤ → Bytes
unfolding runes text_of_runes encode_rune
truncate s limit =
    if leb_ℤ limit (pos 0)
    then []
    else if leb (length (runes s)) (pos_part limit)
    then s
    else text_of_runes (take (pos_part limit - 1) (runes s)) ++ encode_rune ellipsis_rune
