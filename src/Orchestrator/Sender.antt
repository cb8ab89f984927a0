-- ===== src/Orchestrator/Sender.antt =====
-- `parseSender` and `extractAddress` of internal/orchestrator/orchestrator.go.
pub mod Address
use emailer.Prelude.{
  ℕ, ◌+◌, ◌-◌, Bool, ◌&&◌, List, [], ◌∷◌, Option, none, some, length, take, drop, ltb, ◌==◌,
  if◌then◌else◌, or_else,
}
use emailer.Prelude.Bytes.{Bytes, codes, bytes_eq, trim_space, last_index, to_lower}

-- The text between the last "<" and the last ">", which may be missing.
abbrev pub inside_brackets : Bytes → Option ℕ → Option ℕ → Bytes
inside_brackets from none close = from
inside_brackets from (some open') close =
    let end = or_else close (length from) in
    if ltb open' end then trim_space (drop (open' + 1) (take end from)) else from

unfoldable pub extract_address : Bytes → Bytes
unfolding trim_space last_index
extract_address header =
    let from = trim_space header in
    if from == []
    then []
    else inside_brackets from (last_index from (codes "<")) (last_index from (codes ">"))

-- The sender and domain of an address that has its last "@" at the position.
abbrev pub split_at : (Bytes → Bytes) → Bytes → Option ℕ → Bytes × Bytes
split_at tables addr none = ([], [])
split_at tables addr (some i) =
    if ltb 0 i && ltb i (length addr - 1)
    then (addr, to_lower tables (drop (i + 1) addr))
    else ([], [])

unfoldable pub parse_sender : (Bytes → Bytes) → Bytes → Bytes × Bytes
unfolding extract_address last_index to_lower
parse_sender tables from =
    let addr = extract_address from in
    if addr == [] then ([], []) else split_at tables addr (last_index addr (codes "@"))
