-- ===== src/Config.antt =====
-- internal/config/config.go: the configuration, section by section. Struct tags are not modelled.
pub mod Normalize
pub mod Validate
use emailer.Prelude.{Bool, true, List, [], ◌∷◌, Option, some, or_else, if◌then◌else◌}
use emailer.Prelude.Bytes.{Bytes, codes}
use emailer.Prelude.Int.{ℤ, pos, beq_ℤ}

-- `time.Duration`, in nanoseconds.
abbrev pub Duration : Type 0
Duration = ℤ

pub record LlmConfig : Type 0 where
  pub provider : Bytes
  pub api_key : Bytes
  pub model : Bytes
  pub endpoint : Bytes
  pub timeout : Duration
  pub max_retries : ℤ
  pub max_concurrent : ℤ
  pub analysis_repair_max_attempts : ℤ

-- `folders` is `none` for a nil slice.
pub record ImapAccount : Type 0 where
  pub label : Bytes
  pub host : Bytes
  pub port : ℤ
  pub username : Bytes
  pub password : Bytes
  pub folders : Option (List Bytes)
  pub use_tls : Bool

-- IMAPAccount.normalize
unfoldable pub normalize : ImapAccount → ImapAccount
normalize a =
    let implicit = beq_ℤ a.port (pos 0) in
    record a {
      port = if implicit then pos 993 else a.port;
      use_tls = if implicit then true else a.use_tls;
      folders = some (or_else a.folders (codes "INBOX" ∷ []));
    }

pub record ImapConfig : Type 0 where
  pub accounts : List ImapAccount
  pub timeout : Duration

pub record TelegramConfig : Type 0 where
  pub bot_token : Bytes
  pub chat_id : ℤ

pub record NotifyConfig : Type 0 where
  pub telegram : TelegramConfig

pub record StorageConfig : Type 0 where
  pub state_path : Bytes
  pub stateless : Bool

pub record DigestConfig : Type 0 where
  pub max_message_excerpt : ℤ
  pub include_read_status : Bool
  pub include_global_stats : Bool
  pub include_account_stats : Bool
  pub include_summaries : Bool
  pub include_key_points : Bool
  pub include_action_items : Bool
  pub include_raw_excerpt_fallback : Bool
  pub max_messages : ℤ
  pub max_key_points_per_message : ℤ
  pub max_action_items_per_message : ℤ
  pub priority_only : Bool

pub record LabelsConfig : Type 0 where
  pub custom : List Bytes

pub record PromptConfig : Type 0 where
  pub classification_prompt : Bytes
  pub system_prompt : Bytes

pub record ConcurrencyConfig : Type 0 where
  pub max_accounts : ℤ
  pub max_llm_calls : ℤ
  pub fetch_batch_size : ℤ

pub record Config : Type 0 where
  pub fetch_unread_only : Bool
  pub max_window : Duration
  pub llm : LlmConfig
  pub imap : ImapConfig
  pub notify : NotifyConfig
  pub storage : StorageConfig
  pub digest : DigestConfig
  pub labels : LabelsConfig
  pub prompts : PromptConfig
  pub concurrency : ConcurrencyConfig
