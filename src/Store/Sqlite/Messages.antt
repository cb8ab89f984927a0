-- ===== src/Store/Sqlite/Messages.antt =====
-- internal/store/sqlite.go: the processed messages, the flag records and the digest records.
use emailer.Prelude.{
  Bool, true, false, ◌&&◌, ◌||◌, List, [], ◌∷◌, ◌++◌, Option, none, some, ◌==◌, nat_beq,
  if◌then◌else◌,
}
use emailer.Prelude.Bytes.{Bytes, codes, bytes_eq}
use emailer.Prelude.Dict.{Dict, put}
use emailer.Errors.{Error, Result, ok, err, wrapped}
use emailer.Mail.Types.{MessageKey, key_eq, Time}
use emailer.Store.{ProcessedMessage, FlagRecord, DigestRecord}
use emailer.Store.Noop.{is_zero}
use emailer.Store.Sqlite.{
  MessageRow, FlagRow, Tables, Driver, insert_message, select_messages, scan_messages,
  rows_messages, insert_flag, insert_digest, guarded, format_time,
}

-- The outcome of a statement that changes the tables.
abbrev pub exec : Option Error → Bytes → Tables → Tables → Option Error × Tables
exec none what t t' = (none, t')
exec (some e) what t t' = (some (wrapped what e), t)

abbrev pub row_key : MessageRow → MessageKey
row_key r = record { account_label = r.account_label; uid = r.uid }

unfoldable pub has_message : MessageKey → List MessageRow → Bool
has_message k [] = false
has_message k (r ∷ rs) = row_key r == k || has_message k rs

unfoldable pub message_row : Driver → Time → ProcessedMessage → MessageRow
unfolding format_time
message_row db now m = record {
  run_id = m.run_id;
  account_label = m.account_label;
  uid = m.uid;
  is_read = if m.is_read then 1 else 0;
  classification = m.classification;
  digest_excerpt = m.digest_excerpt;
  processed_at = format_time db (if is_zero m.processed_at then now else m.processed_at);
}

-- INSERT OR IGNORE INTO processed_messages
unfoldable pub insert_message_row : MessageRow → List MessageRow → List MessageRow
unfolding has_message
insert_message_row r rows = if has_message (row_key r) rows then rows else rows ++ r ∷ []

unfoldable pub record_message : Driver → Time → ProcessedMessage → Tables → Option Error × Tables
unfolding insert_message_row message_row
record_message db now m t =
    exec (db.fault insert_message t) (codes "store.RecordMessage: exec") t (record t {
      processed_messages = insert_message_row (message_row db now m) t.processed_messages;
    })

-- WHERE (account_label = ? AND uid = ?) OR ...
unfoldable pub matches_any : List MessageKey → MessageRow → Bool
matches_any [] r = false
matches_any (k ∷ ks) r =
    (r.account_label == k.account_label && nat_beq r.uid k.uid) || matches_any ks r

-- The loop over the selected rows.
unfoldable pub scan_keys :
    Driver
    → Tables
    → List MessageKey
    → List MessageRow
    → Dict MessageKey Bool
    → Result (Dict MessageKey Bool)
unfolding matches_any
scan_keys db t keys [] found = ok found
scan_keys db t keys (r ∷ rs) found =
    let later =
      scan_keys db t keys rs (if matches_any keys r then put (row_key r) true found else found) in
    if matches_any keys r
    then guarded (db.fault scan_messages t) (codes "store.AlreadyProcessed: scan") later
    else later

abbrev pub is_empty_keys : List MessageKey → Bool
is_empty_keys [] = true
is_empty_keys (k ∷ ks) = false

unfoldable pub already_processed : Driver → List MessageKey → Tables → Result (Dict MessageKey Bool)
unfolding scan_keys
already_processed db keys t =
    if is_empty_keys keys
    then ok []
    else guarded (db.fault select_messages t) (codes "store.AlreadyProcessed: query")
        (elim (scan_keys db t keys t.processed_messages []) [
          | err e ↦ err e
          | ok found ↦
              guarded (db.fault rows_messages t) (codes "store.AlreadyProcessed: rows") (ok found)
        ])

unfoldable pub has_flag_row : FlagRow → List FlagRow → Bool
has_flag_row r [] = false
has_flag_row r (x ∷ xs) =
    (x.account_label == r.account_label && nat_beq x.uid r.uid && x.flag == r.flag)
    || has_flag_row r xs

-- INSERT OR IGNORE INTO flags_applied
unfoldable pub insert_flag_row : FlagRow → List FlagRow → List FlagRow
unfolding has_flag_row
insert_flag_row r rows = if has_flag_row r rows then rows else rows ++ r ∷ []

unfoldable pub record_flag : Driver → Time → FlagRecord → Tables → Option Error × Tables
unfolding insert_flag_row format_time
record_flag db now r t =
    let row : FlagRow = record {
      account_label = r.account_label;
      uid = r.uid;
      flag = r.flag;
      applied_at = format_time db (if is_zero r.applied_at then now else r.applied_at);
    } in
    exec (db.fault insert_flag t) (codes "store.RecordFlag: exec") t
      (record t { flags_applied = insert_flag_row row t.flags_applied })

unfoldable pub record_digest : Driver → DigestRecord → Tables → Option Error × Tables
record_digest db d t =
    exec (db.fault insert_digest t) (codes "store.RecordDigest: exec") t
      (record t { digests = t.digests ++ d ∷ [] })
