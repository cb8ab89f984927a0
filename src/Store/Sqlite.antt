-- ===== src/Store/Sqlite.antt =====
-- internal/store/sqlite.go: the tables of the database (internal/store/migrations), the clock texts
-- and the run identifiers. What is outside the code is the record `Driver`: package `time`'s
-- Format and Parse at a layout, crypto/rand, and the failures of the database, which may meet any
-- statement. Foreign keys are off, as SQLite has them unless a pragma asks.
pub mod Runs
pub mod Messages
pub mod Summaries
pub mod Ops
pub mod Text
pub mod Ledger
pub mod Latest
pub mod Dedup
pub mod Snapshots
pub mod Loads
use emailer.Prelude.{
  ℕ, ◌≡◌, ◌+◌, ◌-◌, ◌/◌, ◌%◌, Bool, true, false, List, [], ◌∷◌, ◌++◌, Option, none, some, take,
  drop, length, ltb, if◌then◌else◌,
}
use emailer.Prelude.Bytes.{Bytes, codes, index}
use emailer.Errors.{Error, Result, ok, err, wrapped, no_time_layout}
use emailer.Mail.Types.{Time}
use emailer.Store.{RunStatus, DigestRecord}

-- 0001_runs.up.sql. `id` is the primary key; a time is the text that it was written as.
pub record RunRow : Type 0 where
  pub id : Bytes
  pub started_at : Bytes
  pub finished_at : Option Bytes
  pub status : RunStatus
  pub message_count : ℕ
  pub error : Option Error

-- 0002_processed_messages.up.sql, with the primary key (account_label, uid)
pub record MessageRow : Type 0 where
  pub run_id : Bytes
  pub account_label : Bytes
  pub uid : ℕ
  pub is_read : ℕ
  pub classification : Bytes
  pub digest_excerpt : Bytes
  pub processed_at : Bytes

-- 0003_flags_applied.up.sql, with the primary key (account_label, uid, flag)
pub record FlagRow : Type 0 where
  pub account_label : Bytes
  pub uid : ℕ
  pub flag : Bytes
  pub applied_at : Bytes

-- 0005_run_digest_summaries.up.sql, with the primary key run_id
pub record SummaryRow : Type 0 where
  pub run_id : Bytes
  pub finished_at : Bytes
  pub accounts_failed : ℕ
  pub high_priority_count : ℕ
  pub payload_json : Bytes

-- The three count tables, with the primary key (run_id, name).
pub record CountRow : Type 0 where
  pub run_id : Bytes
  pub name : Bytes
  pub count : ℕ

pub data CountTable : Type 0 where
  labels senders domains : CountTable

pub record Tables : Type 0 where
  pub runs : List RunRow
  pub processed_messages : List MessageRow
  pub flags_applied : List FlagRow
  pub digests : List DigestRecord
  pub run_digest_summaries : List SummaryRow
  pub label_counts : List CountRow
  pub sender_counts : List CountRow
  pub domain_counts : List CountRow

-- The calls of `database/sql` that can fail: a statement, or the reading of its result.
pub data Statement : Type 0 where
  insert_run update_run rows_affected select_run select_runs scan_runs rows_runs : Statement
  select_last insert_message select_messages scan_messages rows_messages : Statement
  insert_flag insert_digest begin_tx upsert_summary commit : Statement
  select_current select_previous : Statement
  delete_counts select_counts scan_counts rows_counts : CountTable → Statement
  insert_count : CountTable → Bytes → Statement

pub record Driver : Type 0 where
  pub fault : Statement → Tables → Option Error
  pub constraint_failed : Error
  pub random : Tables → Result Bytes
  pub format : Bytes → Time → Bytes
  pub parse : Bytes → Bytes → Result Time

-- A statement that fails, with the error wrapped as the code wraps it.
abbrev pub guarded {ℓ} : {A : Type ℓ} → Option Error → Bytes → Result A → Result A
guarded none what r = r
guarded (some e) what r = err (wrapped what e)

-- time.RFC3339Nano
abbrev pub time_layout : Bytes
time_layout = codes "2006-01-02T15:04:05.999999999Z07:00"

abbrev pub legacy_formats : List Bytes
legacy_formats =
    codes "2006-01-02 15:04:05.999999999 -0700 -07"
    ∷ codes "2006-01-02 15:04:05.999999999 -0700 MST"
    ∷ codes "2006-01-02 15:04:05.999999999 -0700"
    ∷ codes "2006-01-02 15:04:05 -0700"
    ∷ codes "2006-01-02 15:04:05"
    ∷ []

unfoldable pub format_time : Driver → Time → Bytes
format_time db t = db.format time_layout t

-- The monotonic clock suffix of a legacy row.
unfoldable pub strip_monotonic : Bytes → Bytes
strip_monotonic s = elim (index s (codes " m=")) [ none ↦ s | some i ↦ take i s ]

unfoldable pub parse_first : Driver → List Bytes → Bytes → Result Time
parse_first db [] s = err (no_time_layout s)
parse_first db (f ∷ fs) s =
    let later = parse_first db fs s in elim (db.parse f s) [ ok t ↦ ok t | err e ↦ later ]

unfoldable pub parse_time : Driver → Bytes → Result Time
unfolding strip_monotonic parse_first
parse_time db s = parse_first db (time_layout ∷ legacy_formats) (strip_monotonic s)

abbrev pub hex_digit : ℕ → ℕ
hex_digit d = if ltb d 10 then b'0' + d else b'a' + d - 10

-- The verb %x on a slice of bytes.
unfoldable pub hex : Bytes → Bytes
hex [] = []
hex (b ∷ bs) = hex_digit (b / 16) ∷ hex_digit (b % 16) ∷ hex bs

-- generateID's text of the 16 random bytes.
unfoldable pub uuid : Bytes → Bytes
unfolding hex
uuid b =
    hex (take 4 b)
    ++ b'-'
      ∷ (hex (take 2 (drop 4 b))
          ++ b'-'
            ∷ (hex (take 2 (drop 6 b))
                ++ b'-' ∷ (hex (take 2 (drop 8 b)) ++ b'-' ∷ hex (take 6 (drop 10 b)))))

unfoldable pub generate_id : Driver → Tables → Result Bytes
unfolding uuid
generate_id db t = elim (db.random t) [ err e ↦ err e | ok b ↦ ok (uuid b) ]

-- The order of SQLite on texts (memcmp): is `s` before `t`?
unfoldable pub text_lt : Bytes → Bytes → Bool
text_lt s [] = false
text_lt [] (y ∷ t) = true
text_lt (x ∷ s) (y ∷ t) =
    let rest = text_lt s t in if ltb x y then true else if ltb y x then false else rest
