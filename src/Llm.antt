-- ===== src/Llm.antt =====
-- internal/llm/llm.go: requests, responses, the provider interface and the provider registry.
pub mod Prompt
pub mod Parse
pub mod Registry
use emailer.Prelude.{ℕ, Bool, List, Option}
use emailer.Prelude.Bytes.{Bytes}
use emailer.Prelude.Int.{ℤ}
use emailer.Errors.{Error}
use emailer.Mail.Types.{MessageKey, Classification, Time}

pub record InputMessage : Type 0 where
  pub key : MessageKey
  pub subject : Bytes
  pub from : Bytes
  pub date : Time
  pub body : Bytes
  pub is_read : Bool

pub record Request : Type 0 where
  pub model : Bytes
  pub system_prompt : Bytes
  pub classification_prompt : Bytes
  pub labels : List Bytes
  pub messages : List InputMessage

pub record TokenUsage : Type 0 where
  pub prompt_tokens : ℤ
  pub completion_tokens : ℤ
  pub total_tokens : ℤ

pub record Response : Type 0 where
  pub classifications : List Classification
  pub token_usage : TokenUsage
  pub raw_response : Bytes
  pub schema_version : ℤ
