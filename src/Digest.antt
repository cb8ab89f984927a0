-- ===== src/Digest.antt =====
-- internal/digest/digest.go: what a renderer is given. The renderers fill `text/template`s and are
-- functions that the orchestrator is given.
use emailer.Prelude.{ℕ, Bool, List, Option}
use emailer.Prelude.Bytes.{Bytes}
use emailer.Prelude.Dict.{Dict}
use emailer.Errors.{Error}
use emailer.Mail.Types.{Classification, Time}

pub record MessageEntry : Type 0 where
  pub subject : Bytes
  pub from : Bytes
  pub date : Time
  pub is_read : Bool
  pub classification : Classification
  pub excerpt : Bytes

pub record DigestStats : Type 0 where
  pub fetched_count : ℕ
  pub classified_count : ℕ
  pub failed_count : ℕ
  pub read_count : ℕ
  pub unread_count : ℕ
  pub counts_by_label : Dict Bytes ℕ
  pub accounts_checked : ℕ
  pub accounts_succeeded : ℕ
  pub accounts_failed : ℕ
  pub high_priority_count : ℕ
  pub analysis_failed_count : ℕ
  pub top_senders : List Bytes
  pub top_domains : List Bytes

-- The strings "ok" and "error".
pub data AccountStatus : Type 0 where
  fetch_ok fetch_error : AccountStatus

-- `error` is `none` for the empty text.
pub record AccountStats : Type 0 where
  pub account_label : Bytes
  pub fetched_count : ℕ
  pub classified_count : ℕ
  pub failed_count : ℕ
  pub read_count : ℕ
  pub unread_count : ℕ
  pub counts_by_label : Dict Bytes ℕ
  pub status : AccountStatus
  pub error : Option Error
  pub analysis_failed_count : ℕ
  pub top_senders : List Bytes
  pub top_domains : List Bytes

-- One highlight, with the values that its text shows.
pub data Highlight : Type 0 where
  high_priority : ℕ → Highlight
  account_failed : Bytes → Option Error → Highlight
  ads_up : ℕ → ℕ → ℕ → Highlight
  burst : Bytes → ℕ → ℕ → Highlight
  failures_increased : ℕ → ℕ → Highlight

pub record DigestData : Type 0 where
  pub run_id : Bytes
  pub generated_at : Time
  pub messages : List MessageEntry
  pub total_fetched : ℕ
  pub total_classified : ℕ
  pub failed_count : ℕ
  pub global_stats : DigestStats
  pub account_stats : List AccountStats
  pub analysis_failed_count : ℕ
  pub highlights : List Highlight
