-- ===== src/Store.antt =====
-- internal/store/store.go: the records of the state store and its interface. `MessageKey` and its
-- `Key` are those of internal/mail/types.go once more, and are modelled there.
pub mod Noop
pub mod Sqlite
use emailer.Prelude.{
  ℕ, ◌≡◌, ◌||◌, ◌&&◌, Bool, true, List, Option, none, some, contains, ◌==◌, if◌then◌else◌,
}
use emailer.Prelude.Bytes.{Bytes}
use emailer.Prelude.Dict.{Dict, get}
use emailer.Prelude.Int.{ℤ}
use emailer.Errors.{Error, Result, ok}
use emailer.Mail.Types.{MessageKey, key_eq, Time}

-- The strings of `RunStatus`; `unset` is the empty one.
pub data RunStatus : Type 0 where
  unset running completed degraded ingest_failed partial partially_classified cancelled : RunStatus

-- `error` is `none` where the source has the empty string.
pub record Run : Type 0 where
  pub id : Bytes
  pub started_at : Time
  pub finished_at : Option Time
  pub status : RunStatus
  pub message_count : ℕ
  pub error : Option Error

pub record ProcessedMessage : Type 0 where
  pub run_id : Bytes
  pub account_label : Bytes
  pub uid : ℕ
  pub is_read : Bool
  pub classification : Bytes
  pub digest_excerpt : Bytes
  pub processed_at : Time

-- ProcessedMessage.Key
abbrev pub processed_key : ProcessedMessage → MessageKey
processed_key m = record { account_label = m.account_label; uid = m.uid }

pub record FlagRecord : Type 0 where
  pub account_label : Bytes
  pub uid : ℕ
  pub flag : Bytes
  pub applied_at : Time

pub data DigestStatus : Type 0 where
  sent failed skipped : DigestStatus

-- `payload_hash` is SHA-256 in hex, which is a parameter of the pipeline.
pub record DigestRecord : Type 0 where
  pub run_id : Bytes
  pub channel : Bytes
  pub status : DigestStatus
  pub payload_hash : Bytes

pub record RunDigestSummary : Type 0 where
  pub run_id : Bytes
  pub finished_at : Time
  pub counts_by_label : Dict Bytes ℕ
  pub sender_counts : Dict Bytes ℕ
  pub domain_counts : Dict Bytes ℕ
  pub accounts_failed : ℕ
  pub high_priority_count : ℕ

-- The interface `Store` over a state. An operation that reads the clock has the instant that it
-- reads as its first argument, and an error is `some`.
pub record StoreOps (S : Type 0) : Type 0 where
  pub record_run : Time → Run → S → Result Run × S
  pub finish_run : Time → Bytes → RunStatus → ℕ → Option Error → S → Option Error × S
  pub get_run : Bytes → S → Result Run
  pub list_runs : ℤ → S → Result (List Run)
  pub get_last_successful_run_time : S → Result (Option Time)
  pub record_message : Time → ProcessedMessage → S → Option Error × S
  pub already_processed : List MessageKey → S → Result (Dict MessageKey Bool)
  pub record_flag : Time → FlagRecord → S → Option Error × S
  pub record_digest : DigestRecord → S → Option Error × S
  pub save_run_digest_summary : RunDigestSummary → S → Option Error × S
  pub get_previous_run_digest_summary : Time → Bytes → S → Result (Option RunDigestSummary)

-- What a client may rely on about processed messages: `processed` is the set of their keys.
pub record DedupLaws {S : Type 0} (ops : StoreOps S) : Type 0 where
  pub processed : S → MessageKey → Bool
  pub processed-record_message :
      (now : Time) (m : ProcessedMessage) (s : S) (k : MessageKey)
      → (ops.record_message now m s).0 ≡ none
      → processed (ops.record_message now m s).1 k ≡ (processed s k || processed_key m == k)
  pub processed-record_message_err :
      (now : Time) (m : ProcessedMessage) (s : S) (k : MessageKey) (e : Error)
      → (ops.record_message now m s).0 ≡ some e
      → processed (ops.record_message now m s).1 k ≡ processed s k
  pub get-already_processed :
      (keys : List MessageKey) (s : S) (d : Dict MessageKey Bool) (k : MessageKey)
      → ops.already_processed keys s ≡ ok d
      → get k d ≡ (if contains k keys && processed s k then some true else none)
  pub processed-record_flag :
      (now : Time) (r : FlagRecord) (s : S) (k : MessageKey)
      → processed (ops.record_flag now r s).1 k ≡ processed s k
  pub processed-record_digest :
      (d : DigestRecord) (s : S) (k : MessageKey)
      → processed (ops.record_digest d s).1 k ≡ processed s k
  pub processed-record_run :
      (now : Time) (r : Run) (s : S) (k : MessageKey)
      → processed (ops.record_run now r s).1 k ≡ processed s k
  pub processed-finish_run :
      (now : Time) (id : Bytes) (status : RunStatus) (count : ℕ) (e : Option Error) (s : S)
      (k : MessageKey)
      → processed (ops.finish_run now id status count e s).1 k ≡ processed s k
  pub processed-save_run_digest_summary :
      (summary : RunDigestSummary) (s : S) (k : MessageKey)
      → processed (ops.save_run_digest_summary summary s).1 k ≡ processed s k
