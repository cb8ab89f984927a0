-- ===== src/Store/Sqlite/Dedup.antt =====
-- The processed messages of the database.
use emailer.Prelude.{
  ◌≡◌, refl, ap, inl, inr, Bool, true, ◌&&◌, ◌||◌, List, [], ◌∷◌, ◌++◌, none, some, arith,
  if◌then◌else◌, ◌==◌, nat_eq, contains,
}
use emailer.Prelude.Bytes.{bytes_eq}
use emailer.Prelude.Dict.{Dict, get, put, get-put}
use emailer.Errors.{Error, ok}
use emailer.Mail.Types.{MessageKey, key_beq, key_eq, Time}
use emailer.Store.{ProcessedMessage, processed_key, DedupLaws, RunDigestSummary}
use emailer.Store.Sqlite.{Tables, Driver, MessageRow}
use emailer.Store.Sqlite.Runs.{record_run, insert_run_row, finish_run}
use emailer.Store.Sqlite.Messages.{
  row_key, has_message, message_row, insert_message_row, record_message, matches_any, scan_keys,
  already_processed, record_flag, record_digest,
}
use emailer.Store.Sqlite.Ops.{sqlite_ops}
use emailer.Store.Sqlite.Summaries.{save_run_digest_summary}
use emailer.Store.Sqlite.Snapshots.{save_run_digest_summary_atomic}

unfoldable pub processed : Tables → MessageKey → Bool
processed t k = has_message k t.processed_messages

has_message-append :
    (k : MessageKey) (r : MessageRow) (rs : List MessageRow)
    → has_message k (rs ++ r ∷ []) ≡ (has_message k rs || row_key r == k)
unfolding has_message
has_message-append k r [] = ground arith
has_message-append k r (x ∷ rs) = ground (arith, has_message-append k r rs)

has_message-insert :
    (k : MessageKey) (r : MessageRow) (rs : List MessageRow)
    → has_message k (insert_message_row r rs) ≡ (has_message k rs || row_key r == k)
unfolding insert_message_row
has_message-insert k r rs = ground (arith, has_message-append k r rs, key_eq.test_iff (row_key r) k)

processed-record_message_lem :
    (db : Driver) (now : Time) (m : ProcessedMessage) (t : Tables) (k : MessageKey)
    → (record_message db now m t).0 ≡ none
    → processed (record_message db now m t).1 k ≡ (processed t k || processed_key m == k)
unfolding record_message processed message_row
processed-record_message_lem db now m t k e =
    ground (arith, has_message-insert k (message_row db now m) t.processed_messages)

processed-record_message_err_lem :
    (db : Driver) (now : Time) (m : ProcessedMessage) (t : Tables) (k : MessageKey) (x : Error)
    → (record_message db now m t).0 ≡ some x
    → processed (record_message db now m t).1 k ≡ processed t k
unfolding record_message processed
processed-record_message_err_lem db now m t k x e = ground arith

matches_any_lem :
    (keys : List MessageKey) (r : MessageRow) → matches_any keys r ≡ contains (row_key r) keys
unfolding matches_any contains key_beq
matches_any_lem [] r = refl
matches_any_lem (k ∷ ks) r = ground (
  arith,
  matches_any_lem ks r,
  bytes_eq.test_iff r.account_label k.account_label,
  bytes_eq.test_iff k.account_label r.account_label,
)

module _ (db : Driver) (t : Tables) (keys : List MessageKey) (k : MessageKey) where
  get-scan_keys :
      (rows : List MessageRow) (found d : Dict MessageKey Bool)
      → scan_keys db t keys rows found ≡ ok d
      → get k d ≡ (if contains k keys && has_message k rows then some true else get k found)
  unfolding scan_keys has_message
  get-scan_keys [] found d e = ground arith
  get-scan_keys (r ∷ rs) found d e = ground (
    arith,
    matches_any_lem keys r,
    key_eq.test_iff (row_key r) k,
    get-put (row_key r) k true found,
    get-scan_keys rs found d,
    get-scan_keys rs (put (row_key r) true found) d,
  )

  get-already_processed_lem :
      (d : Dict MessageKey Bool)
      → already_processed db keys t ≡ ok d
      → get k d ≡ (if contains k keys && processed t k then some true else none)
  unfolding already_processed processed get contains
  get-already_processed_lem d e = ground (arith, get-scan_keys t.processed_messages [] d)

processed-save_run_digest_summary_lem :
    (db : Driver) (summary : RunDigestSummary) (t : Tables) (k : MessageKey)
    → processed (save_run_digest_summary db summary t).1 k ≡ processed t k
unfolding processed
processed-save_run_digest_summary_lem db summary t k =
    elim (save_run_digest_summary_atomic db summary t) [
      | inl (bad, same) ↦ ap (λ (u : Tables). processed u k) same
      | inr (fine, saved) ↦ ap (λ (u : Tables). processed u k) saved
    ]

-- The database keeps what the interface promises of processed messages, whatever statement fails:
-- a key that was recorded without an error is known from then on, no other operation and no
-- failed recording adds or removes one, and an answer of AlreadyProcessed has exactly the asked
-- keys that are known.
pub sqlite_dedup : (db : Driver) → DedupLaws (sqlite_ops db)
unfolding processed record_run insert_run_row finish_run record_flag record_digest
sqlite_dedup db = record {
  processed = processed;
  processed-record_message = λ now m s k e. processed-record_message_lem db now m s k e;
  processed-record_message_err = λ now m s k x e. processed-record_message_err_lem db now m s k x e;
  get-already_processed = λ keys s d k e. get-already_processed_lem db s keys k d e;
  processed-record_flag = λ now r s k. ground arith;
  processed-record_digest = λ d s k. ground arith;
  processed-record_run = λ now r s k. ground arith;
  processed-finish_run = λ now id status count e s k. ground arith;
  processed-save_run_digest_summary =
      λ summary s k. processed-save_run_digest_summary_lem db summary s k;
}
