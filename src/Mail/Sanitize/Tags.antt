-- ===== src/Mail/Sanitize/Tags.antt =====
-- `StripHTML` of internal/mail/sanitize.go. The loop is a step on the state and the text that is
-- left; `tables` are the case tables of Unicode, for strings.ToLower.
pub mod Ends
pub mod Removed
use emailer.Prelude.{
  ℕ, zero, suc, ◌+◌, ◌-◌, ◌≡◌, Bool, true, false, not, ◌&&◌, ◌||◌, List, [], ◌∷◌, ◌++◌, Option,
  none, some, ltb, leb, length, take, drop, nat_beq, nat_eq, ◌==◌, contains, or_else, if◌then◌else◌,
}
use emailer.Prelude.Bytes.{Bytes, codes, bytes_eq, has_prefix, index, to_lower, trim_space}
use emailer.Mail.Sanitize.{newline, collapse_newlines, trim_lines}

abbrev pub block_tags : List Bytes
block_tags =
    codes "p"
    ∷ codes "div"
    ∷ codes "br"
    ∷ codes "hr"
    ∷ codes "h1"
    ∷ codes "h2"
    ∷ codes "h3"
    ∷ codes "h4"
    ∷ codes "h5"
    ∷ codes "h6"
    ∷ codes "blockquote"
    ∷ codes "pre"
    ∷ codes "table"
    ∷ codes "tr"
    ∷ codes "th"
    ∷ codes "td"
    ∷ codes "li"
    ∷ codes "ol"
    ∷ codes "ul"
    ∷ codes "dl"
    ∷ codes "dt"
    ∷ codes "dd"
    ∷ codes "section"
    ∷ codes "article"
    ∷ codes "nav"
    ∷ codes "header"
    ∷ codes "footer"
    ∷ codes "aside"
    ∷ codes "details"
    ∷ codes "summary"
    ∷ codes "figure"
    ∷ codes "figcaption"
    ∷ []

pub data TagState : Type 0 where
  text tag script style comment doctype : TagState

abbrev pub is_letter : ℕ → Bool
is_letter c = (leb b'a' c && leb c b'z') || (leb b'A' c && leb c b'Z')

-- Otherwise a '<' before the byte is taken for a comparison.
unfoldable pub starts_tag : ℕ → Bool
starts_tag next = is_letter next || nat_beq next b'/' || nat_beq next b'!'

abbrev pub is_name_byte : ℕ → Bool
is_name_byte c = is_letter c || nat_beq c b'-' || (leb b'0' c && leb c b'9')

abbrev pub is_quote : ℕ → Bool
is_quote c = nat_beq c b'\'' || nat_beq c b'"'

-- The bytes of a name, up to the first other byte.
unfoldable pub name_bytes : Bytes → Bytes
name_bytes [] = []
name_bytes (c ∷ s) = let rest = name_bytes s in if is_name_byte c then c ∷ rest else []

abbrev pub without_slash : Bytes → Bytes
without_slash [] = []
without_slash (c ∷ s) = if nat_beq c b'/' then s else c ∷ s

-- The text after the first `q`; nothing where there is none.
unfoldable pub after : ℕ → Bytes → Bytes
after q [] = []
after q (c ∷ s) = let rest = after q s in if nat_beq c q then s else rest

-- The new state, what is written, and the text that is left.
abbrev pub Step : Type 0
Step = TagState × Bytes × Bytes

abbrev pub break_for : Bytes → Bytes
break_for name = if contains name block_tags then newline ∷ [] else []

-- `remaining` starts with "![CDATA["; its third byte on is s[i+3:], so `end` is at least 6.
unfoldable pub cdata : Bytes → Step
unfolding index
cdata remaining = elim (index (drop 2 remaining) (codes "]]>")) [
  | some end ↦ (text, take (end - 6) (drop 8 remaining), drop (2 + end + 3) remaining)
  | none ↦ elim (index (b'<' ∷ remaining) (codes ">")) [
    | some end ↦ (text, [], drop (end + 1) (b'<' ∷ remaining))
    | none ↦ (text, [], remaining)
  ]
]

abbrev pub markup_step : TagState → ℕ → Bytes → Step
markup_step st c s =
    if nat_beq c b'>'
    then (text, [], s)
    else if is_quote c
    then (st, [], after c s)
    else (st, [], s)

abbrev pub write : Bytes → Option Bytes → Option Bytes
write o none = none
write o (some rest) = some (o ++ rest)

module _ (tables : Bytes → Bytes) where
  unfoldable pub read_tag_name : Bytes → Bytes
  unfolding name_bytes to_lower
  read_tag_name s = to_lower tables (name_bytes (without_slash s))

  unfoldable pub closing_tag : Bytes → Step
  unfolding read_tag_name after
  closing_tag remaining =
      let name = read_tag_name remaining in
      if name == codes "script" || name == codes "style"
      then (text, [], after b'>' (drop (1 + length name) remaining))
      else (text, break_for name, after b'>' remaining)

  unfoldable pub opening_tag : Bytes → Step
  unfolding read_tag_name after
  opening_tag remaining =
      let name = read_tag_name remaining in
      if name == codes "script"
      then (script, [], after b'>' remaining)
      else if name == codes "style"
      then (style, [], after b'>' remaining)
      else (tag, break_for name, remaining)

  unfoldable pub element_start : ℕ → Bytes → Step
  unfolding closing_tag opening_tag
  element_start next r =
      if nat_beq next b'/' then closing_tag (next ∷ r) else opening_tag (next ∷ r)

  unfoldable pub markup_start : ℕ → Bytes → Step
  unfolding cdata element_start has_prefix
  markup_start next r =
      if has_prefix (next ∷ r) (codes "!--")
      then (comment, [], drop 3 (next ∷ r))
      else if has_prefix (next ∷ r) (codes "![CDATA[")
      then cdata (next ∷ r)
      else if nat_beq next b'!'
      then (doctype, [], r)
      else element_start next r

  -- After a '<' in the text.
  unfoldable pub tag_start : Bytes → Step
  unfolding markup_start starts_tag
  tag_start [] = (text, b'<' ∷ [], [])
  tag_start (next ∷ r) =
      if starts_tag next then markup_start next r else (text, b'<' ∷ [], next ∷ r)

  -- In an element whose content is dropped, up to its closing tag, `close`.
  unfoldable pub raw_step : TagState → Bytes → ℕ → Bytes → Step
  unfolding to_lower after
  raw_step st close c s =
      if nat_beq c b'<'
        && ltb (length close) (length (c ∷ s))
        && to_lower tables (take (length close) (c ∷ s)) == close
      then (text, [], after b'>' (drop (length close) (c ∷ s)))
      else (st, [], s)

  -- The loop body at the byte `c`, with `s` after it.
  unfoldable pub step : TagState → ℕ → Bytes → Step
  unfolding tag_start raw_step has_prefix after
  step text c s = if nat_beq c b'<' then tag_start s else (text, c ∷ [], s)
  step tag c s = markup_step tag c s
  step script c s = raw_step script (codes "</script") c s
  step style c s = raw_step style (codes "</style") c s
  step comment c s =
      if has_prefix (c ∷ s) (codes "-->") then (text, [], drop 3 (c ∷ s)) else (comment, [], s)
  step doctype c s = markup_step doctype c s

  -- The loop, for as many rounds as the number says; `none` where they do not suffice.
  unfoldable pub strip_loop : ℕ → TagState → Bytes → Option Bytes
  unfolding step
  strip_loop n st [] = some []
  strip_loop zero st (c ∷ s) = none
  strip_loop (suc n) st (c ∷ s) = let (st', o, s') = step st c s in write o (strip_loop n st' s')

  -- The text that the loop writes: a round for each byte suffices.
  unfoldable pub strip_tags : Bytes → Bytes
  unfolding strip_loop
  strip_tags s = or_else (strip_loop (length s) text s) []

  unfoldable pub strip_html : Bytes → Bytes
  unfolding strip_tags collapse_newlines trim_lines trim_space
  strip_html s = trim_space (collapse_newlines (trim_lines (collapse_newlines (strip_tags s))))
