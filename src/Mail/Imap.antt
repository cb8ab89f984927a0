-- ===== src/Mail/Imap.antt =====
-- internal/mail/fetch.go, and of internal/mail/client.go the reconnecting. What the IMAP library
-- answers is given by functions.
pub mod Chunks
pub mod Reconnect
use emailer.Prelude.{
  ℕ, zero, suc, Bool, true, false, ◌||◌, List, [], ◌∷◌, ◌++◌, Option, none, some, length, take,
  drop, if◌then◌else◌, ◌==◌,
}
use emailer.Prelude.Bytes.{Bytes, codes, bytes_eq, contains_text, to_lower}
use emailer.Prelude.Int.{ℤ, pos, leb_ℤ, pos_part}
use emailer.Mail.Sanitize.Header.{sanitize_header}

-- The loop over the positions, `size` apart; a round for each UID is enough.
unfoldable pub chunks_from : ℕ → ℕ → List ℕ → List (List ℕ)
chunks_from zero size uids = []
chunks_from (suc rounds) size [] = []
chunks_from (suc rounds) size (u ∷ uids) =
    take size (u ∷ uids) ∷ chunks_from rounds size (drop size (u ∷ uids))

abbrev pub is_empty : List ℕ → Bool
is_empty [] = true
is_empty (u ∷ uids) = false

unfoldable pub chunk_uids : List ℕ → ℤ → List (List ℕ)
unfolding chunks_from
chunk_uids uids size =
    if leb_ℤ size (pos 0) || is_empty uids
    then uids ∷ []
    else chunks_from (length uids) (pos_part size) uids

-- A Go call that gives a value or an error.
pub data Fetched (A : Type 0) : Type 0 where
  found : A → Fetched A
  failed : Bytes → Fetched A

-- `add_num` makes the imap.SeqSet of a chunk, and `uid_fetch` is the answer to a command with it.
module _ {M SeqSet : Type 0} (add_num : List ℕ → SeqSet)
    (uid_fetch : SeqSet → Fetched (List M)) where
  -- The loop over the chunks.
  unfoldable pub fetch_chunks : List (List ℕ) → Fetched (List M)
  fetch_chunks [] = found []
  fetch_chunks (chunk ∷ chunks) =
      let later = fetch_chunks chunks in
      elim (uid_fetch (add_num chunk)) [
        | failed e ↦ failed (codes "imap.uid_fetch: " ++ e)
        | found messages ↦ elim later [
          | failed e ↦ failed e
          | found rest ↦ found (messages ++ rest)
        ]
      ]

  unfoldable pub fetch_headers : Bool → List ℕ → ℤ → Fetched (List M)
  unfolding fetch_chunks chunk_uids
  fetch_headers connected uids batch_size =
      if connected
      then (if is_empty uids then found [] else fetch_chunks (chunk_uids uids batch_size))
      else failed (codes "imap.fetch_headers: not connected")

unfoldable pub is_read : List Bytes → Bool
is_read [] = false
is_read (f ∷ flags) = let rest = is_read flags in if f == codes "\\Seen" then true else rest

-- imap.Address; `none` stands for nil.
pub record Address : Type 0 where
  pub personal_name : Bytes
  pub mailbox_name : Bytes
  pub host_name : Bytes

unfoldable pub format_address : (Bytes → Bytes) → Option Address → Bytes
unfolding sanitize_header
format_address tables none = []
format_address tables (some a) =
    let addr = a.mailbox_name ++ b'@' ∷ a.host_name in
    if a.personal_name == []
    then addr
    else sanitize_header tables a.personal_name ++ (codes " <" ++ (addr ++ codes ">"))

unfoldable pub format_address_list : (Bytes → Bytes) → List (Option Address) → Bytes
unfolding format_address
format_address_list tables [] = []
format_address_list tables (a ∷ []) = format_address tables a
format_address_list tables (a ∷ b ∷ addrs) =
    format_address tables a ++ (codes ", " ++ format_address_list tables (b ∷ addrs))

-- An error of the IMAP client: whether it wraps a net.OpError or is io.EOF, and its text.
pub record ClientError : Type 0 where
  pub is_op_error : Bool
  pub is_eof : Bool
  pub message : Bytes

unfoldable pub is_connection_error : (Bytes → Bytes) → ClientError → Bool
unfolding to_lower contains_text
is_connection_error tables e =
    let msg = to_lower tables e.message in
    e.is_op_error
    || e.is_eof
    || contains_text msg (codes "connection")
    || contains_text msg (codes "closed")
    || contains_text msg (codes "broken pipe")
    || contains_text msg (codes "use of closed")
    || contains_text msg (codes "timeout")

-- What withReconnect returns: the error of the operation, or that of connecting; that of the
-- second connecting is wrapped with the original one of the operation.
pub data Reconnected : Type 0 where
  done : Reconnected
  connect_failed operation_failed : ClientError → Reconnected
  reconnect_failed : ClientError → ClientError → Reconnected

-- A run of the operation or of `reconnect`, with its answer.
pub data Event : Type 0 where
  ran reconnected : Option ClientError → Event

abbrev pub Traced : Type 0
Traced = Reconnected × List Event

abbrev pub after_event : Event → Traced → Traced
after_event event (result, events) = (result, event ∷ events)

-- The n-th run of the operation and the n-th reconnect are answered by `op n` and `reconnect n`; the
-- events stand with the result, the earliest first.
module _ (tables : Bytes → Bytes) (op reconnect : ℕ → Option ClientError) where
  unfoldable pub retried : ℕ → ClientError → Traced
  unfolding is_connection_error
  retried reconnects e =
      if is_connection_error tables e
      then (elim (reconnect reconnects) [
        | some r ↦ (reconnect_failed r e, reconnected (some r) ∷ [])
        | none ↦ after_event (reconnected none) (elim (op 1) [
          | some e' ↦ (operation_failed e', ran (some e') ∷ [])
          | none ↦ (done, ran none ∷ [])
        ])
      ])
      else (operation_failed e, [])

  unfoldable pub attempt : ℕ → Traced
  unfolding retried
  attempt reconnects = elim (op 0) [
    | none ↦ (done, ran none ∷ [])
    | some e ↦ after_event (ran (some e)) (retried reconnects e)
  ]

  -- The argument says whether the client is connected.
  unfoldable pub with_reconnect : Bool → Traced
  unfolding attempt
  with_reconnect true = attempt 0
  with_reconnect false = elim (reconnect 0) [
    | some r ↦ (connect_failed r, reconnected (some r) ∷ [])
    | none ↦ after_event (reconnected none) (attempt 1)
  ]
