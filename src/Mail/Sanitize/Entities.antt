-- ===== src/Mail/Sanitize/Entities.antt =====
-- `DecodeEntities` of internal/mail/sanitize.go.
use emailer.Prelude.{
  ℕ, zero, suc, ◌+◌, ◌-◌, ◌*◌, ◌%◌, ◌&&◌, ◌||◌, List, [], ◌∷◌, ◌++◌, Option, none, some, ltb,
  length, take, drop, nat_beq, nat_eq, contains, get_elem?, or_else, if◌then◌else◌,
}
use emailer.Prelude.Bytes.{Bytes, codes, bytes_eq, index}
use emailer.Prelude.Dict.{Dict, get}
use emailer.Prelude.Utf8.{encode_rune, runes, is_scalar, is_between}

-- `htmlEntities`, each with the code point of its text.
unfoldable pub html_entities : Dict Bytes ℕ
html_entities =
    (codes "&amp;", 38)
    ∷ (codes "&lt;", 60)
    ∷ (codes "&gt;", 62)
    ∷ (codes "&quot;", 34)
    ∷ (codes "&apos;", 39)
    ∷ (codes "&nbsp;", 160)
    ∷ (codes "&iexcl;", 161)
    ∷ (codes "&cent;", 162)
    ∷ (codes "&pound;", 163)
    ∷ (codes "&curren;", 164)
    ∷ (codes "&yen;", 165)
    ∷ (codes "&brvbar;", 166)
    ∷ (codes "&sect;", 167)
    ∷ (codes "&uml;", 168)
    ∷ (codes "&copy;", 169)
    ∷ (codes "&ordf;", 170)
    ∷ (codes "&laquo;", 171)
    ∷ (codes "&not;", 172)
    ∷ (codes "&shy;", 173)
    ∷ (codes "&reg;", 174)
    ∷ (codes "&macr;", 175)
    ∷ (codes "&deg;", 176)
    ∷ (codes "&plusmn;", 177)
    ∷ (codes "&sup2;", 178)
    ∷ (codes "&sup3;", 179)
    ∷ (codes "&acute;", 180)
    ∷ (codes "&micro;", 181)
    ∷ (codes "&para;", 182)
    ∷ (codes "&middot;", 183)
    ∷ (codes "&cedil;", 184)
    ∷ (codes "&sup1;", 185)
    ∷ (codes "&ordm;", 186)
    ∷ (codes "&raquo;", 187)
    ∷ (codes "&frac14;", 188)
    ∷ (codes "&frac12;", 189)
    ∷ (codes "&frac34;", 190)
    ∷ (codes "&iquest;", 191)
    ∷ (codes "&times;", 215)
    ∷ (codes "&divide;", 247)
    ∷ (codes "&ndash;", 8211)
    ∷ (codes "&mdash;", 8212)
    ∷ (codes "&lsquo;", 8216)
    ∷ (codes "&rsquo;", 8217)
    ∷ (codes "&sbquo;", 8218)
    ∷ (codes "&ldquo;", 8220)
    ∷ (codes "&rdquo;", 8221)
    ∷ (codes "&bdquo;", 8222)
    ∷ (codes "&bull;", 8226)
    ∷ (codes "&hellip;", 8230)
    ∷ (codes "&prime;", 8242)
    ∷ (codes "&Prime;", 8243)
    ∷ (codes "&euro;", 8364)
    ∷ (codes "&trade;", 8482)
    ∷ (codes "&larr;", 8592)
    ∷ (codes "&uarr;", 8593)
    ∷ (codes "&rarr;", 8594)
    ∷ (codes "&darr;", 8595)
    ∷ (codes "&spades;", 9824)
    ∷ (codes "&clubs;", 9827)
    ∷ (codes "&hearts;", 9829)
    ∷ (codes "&diams;", 9830)
    ∷ []

-- The range of uint32.
abbrev pub uint32_size : ℕ
uint32_size = 4294967296

abbrev pub hex_value : ℕ → ℕ
hex_value c =
    if is_between b'0' b'9' c
    then c - b'0'
    else if is_between b'a' b'f' c
    then c - b'a' + 10
    else if is_between b'A' b'F' c
    then c - b'A' + 10
    else 0

-- The two loops over the digits. A rune that is no digit counts as the digit 0 in the first and is
-- passed over in the second.
unfoldable pub hex_from : ℕ → List ℕ → ℕ
hex_from cp [] = cp
hex_from cp (c ∷ cs) = hex_from ((cp * 16 + hex_value c) % uint32_size) cs

unfoldable pub decimal_from : ℕ → List ℕ → ℕ
decimal_from cp [] = cp
decimal_from cp (c ∷ cs) =
    decimal_from (if is_between b'0' b'9' c then (cp * 10 + (c - b'0')) % uint32_size else cp) cs

abbrev pub byte_at : Bytes → ℕ → ℕ
byte_at s i = or_else (get_elem? s i) 0

-- entity[:len(entity)-1], less its first `n` bytes.
abbrev pub digits_of : ℕ → Bytes → Bytes
digits_of n entity = drop n (take (length entity - 1) entity)

unfoldable pub code_point : Bytes → ℕ
unfolding hex_from decimal_from runes
code_point entity =
    if nat_beq (byte_at entity 2) b'x' || nat_beq (byte_at entity 2) b'X'
    then hex_from 0 (runes (digits_of 3 entity))
    else decimal_from 0 (runes (digits_of 2 entity))

-- The text for an entity, from its '&' to its ';'.
unfoldable pub decode_entity : Bytes → Bytes
unfolding code_point html_entities encode_rune
decode_entity entity =
    if ltb 3 (length entity) && nat_beq (byte_at entity 1) b'#'
    then (if ltb 0 (code_point entity) && is_scalar (code_point entity)
        then encode_rune (code_point entity)
        else entity)
    else elim (get entity html_entities) [ none ↦ entity | some r ↦ encode_rune r ]

-- The place of the ';' in the text after a '&'.
unfoldable pub semicolon : ℕ → Bytes → Option ℕ
unfolding index
semicolon c s = if nat_beq c b'&' then index s (codes ";") else none

unfoldable pub decoded_at : ℕ → Bytes → Option ℕ → Bytes
unfolding decode_entity
decoded_at c s none = c ∷ []
decoded_at c s (some i) = decode_entity (take (i + 2) (c ∷ s))

abbrev pub bytes_to_pass : Option ℕ → ℕ
bytes_to_pass none = 0
bytes_to_pass (some i) = i + 1

-- The loop; the number counts the bytes of the last entity that are still to pass.
unfoldable pub decode_from : ℕ → Bytes → Bytes
unfolding semicolon decoded_at
decode_from n [] = []
decode_from (suc n) (c ∷ s) = decode_from n s
decode_from zero (c ∷ s) =
    decoded_at c s (semicolon c s) ++ decode_from (bytes_to_pass (semicolon c s)) s

unfoldable pub decode_entities : Bytes → Bytes
unfolding decode_from
decode_entities s = if contains b'&' s then decode_from 0 s else s
