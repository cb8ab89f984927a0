-- ===== src/Prelude/Bytes.antt =====
-- Go strings as the bytes that they hold, and the functions of the `strings` package on them.
use Prim.Native.Char.{code}
use Prim.Native.String.{String}
use Prim.Native.Nat.{ℕ, suc, ◌+◌}
use mathlib.Core.Path.{◌≡◌, refl}
use mathlib.Core.Bool.{Bool, true, false, ◌&&◌, ◌||◌}
use mathlib.Core.Option.{Option, none, some}
use mathlib.Core.List.{List, [], ◌∷◌, map, reverse}
use emailer.Prelude.Tests.{leb, if◌then◌else◌, is_some}
use emailer.Prelude.Equality.{HasEq, ◌==◌, nat_eq, list_beq, list_beq_iff}

abbrev pub Bytes : Type 0
Bytes = List ℕ

-- The bytes of an ASCII literal. `String` has its own `[]` and `∷`.
abbrev pub codes : String → Bytes
codes String.[] = []
codes (String.◌∷◌ c s) = code c ∷ codes s

instance abbrev pub bytes_eq : HasEq Bytes
bytes_eq = record { test = list_beq; test_iff = list_beq_iff }

-- The multi-byte white space of `unicode.IsSpace`, in UTF-8, as the bytes stand in the text.
abbrev is_space2 : ℕ → ℕ → Bool
is_space2 a b = a == 0xc2 && (b == 0x85 || b == 0xa0)

abbrev is_space3 : ℕ → ℕ → ℕ → Bool
is_space3 a b c =
    (a == 0xe1 && b == 0x9a && c == 0x80)
    || (a == 0xe2
        && b == 0x80
        && ((leb 0x80 c && leb c 0x8a) || c == 0xa8 || c == 0xa9 || c == 0xaf))
    || (a == 0xe2 && b == 0x81 && c == 0x9f)
    || (a == 0xe3 && b == 0x80 && c == 0x80)

abbrev is_space1 : ℕ → Bool
is_space1 c = (leb 9 c && leb c 13) || c == 32

-- strings.TrimLeft of white space: each case takes one whole space off.
unfoldable pub trim_left : Bytes → Bytes
trim_left [] = []
trim_left (a ∷ []) = if is_space1 a then [] else a ∷ []
trim_left (a ∷ b ∷ []) =
    let one = trim_left (b ∷ []) in
    if is_space1 a then one else if is_space2 a b then [] else a ∷ b ∷ []
trim_left (a ∷ b ∷ c ∷ s) =
    let one = trim_left (b ∷ c ∷ s) in
    let two = trim_left (c ∷ s) in
    let three = trim_left s in
    if is_space1 a
    then one
    else if is_space2 a b
    then two
    else if is_space3 a b c
    then three
    else a ∷ b ∷ c ∷ s

-- The same from the end, on the reversed text.
trim_back : Bytes → Bytes
trim_back [] = []
trim_back (a ∷ []) = if is_space1 a then [] else a ∷ []
trim_back (a ∷ b ∷ []) =
    let one = trim_back (b ∷ []) in
    if is_space1 a then one else if is_space2 b a then [] else a ∷ b ∷ []
trim_back (a ∷ b ∷ c ∷ s) =
    let one = trim_back (b ∷ c ∷ s) in
    let two = trim_back (c ∷ s) in
    let three = trim_back s in
    if is_space1 a
    then one
    else if is_space2 b a
    then two
    else if is_space3 c b a
    then three
    else a ∷ b ∷ c ∷ s

-- strings.TrimSpace
unfoldable pub trim_space : Bytes → Bytes
unfolding trim_left trim_back
trim_space s = reverse (trim_back (reverse (trim_left s)))

-- strings.TrimSpace(s) == ""
unfoldable pub is_blank : Bytes → Bool
unfolding trim_space
is_blank s = trim_space s == []

pub is_blank-nil : is_blank [] ≡ true
unfolding is_blank trim_space trim_left trim_back list_beq
is_blank-nil = refl

-- strings.HasPrefix(s, prefix)
unfoldable pub has_prefix : Bytes → Bytes → Bool
has_prefix s [] = true
has_prefix [] (x ∷ p) = false
has_prefix (c ∷ s) (x ∷ p) = c == x && has_prefix s p

-- strings.Index(s, t): the first position, or `none` for -1.
unfoldable pub index : Bytes → Bytes → Option ℕ
unfolding has_prefix
index [] t = if has_prefix [] t then some 0 else none
index (c ∷ s) t =
    let rest = index s t in
    if has_prefix (c ∷ s) t then some 0 else elim rest [ none ↦ none | some i ↦ some (suc i) ]

-- strings.LastIndex(s, t)
unfoldable pub last_index : Bytes → Bytes → Option ℕ
unfolding has_prefix
last_index [] t = if has_prefix [] t then some 0 else none
last_index (c ∷ s) t =
    let rest = last_index s t in
    elim rest [ some i ↦ some (suc i) | none ↦ if has_prefix (c ∷ s) t then some 0 else none ]

-- strings.Contains(s, t)
unfoldable pub contains_text : Bytes → Bytes → Bool
unfolding index
contains_text s t = is_some (index s t)

lower_ascii : ℕ → ℕ
lower_ascii c = if leb b'A' c && leb c b'Z' then c + 32 else c

-- strings.EqualFold(s, t) for a text `t` of ASCII letters other than k and s, which alone have
-- letters outside ASCII in their case-folding orbit.
unfoldable pub equal_fold : Bytes → Bytes → Bool
unfolding lower_ascii
equal_fold s t = map lower_ascii s == map lower_ascii t

-- strings.ToLower: bytes of ASCII are lowered here; a text with other bytes goes through the
-- case tables of the Unicode standard, the argument `tables`.
is_ascii : Bytes → Bool
is_ascii [] = true
is_ascii (c ∷ s) = leb c 127 && is_ascii s

unfoldable pub to_lower : (Bytes → Bytes) → Bytes → Bytes
unfolding is_ascii lower_ascii
to_lower tables s = if is_ascii s then map lower_ascii s else tables s
