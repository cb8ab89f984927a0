-- ===== src/Mail/Types.antt =====
-- internal/mail/types.go and ingester.go: messages, classifications, flags and fetch options.
use emailer.Prelude.{
  ℕ, ◌*◌, ◌^◌, ◌≡◌, ◌↔◌, Bool, true, not, ◌&&◌, List, Option, arith, ltb, nat_beq, HasEq, ◌==◌,
}
use emailer.Prelude.Bytes.{Bytes, bytes_eq}
use emailer.Prelude.Int.{ℤ}
use emailer.Config.{ImapAccount}
use emailer.Errors.{Error}

-- An instant, in nanoseconds since year 1, the zero value of `time.Time`.
abbrev pub Time : Type 0
Time = ℤ

-- `uid` is a uint32.
pub record MessageKey : Type 0 where
  pub account_label : Bytes
  pub uid : ℕ

-- Go compares the struct field by field.
unfoldable pub key_beq : MessageKey → MessageKey → Bool
key_beq a b = a.account_label == b.account_label && nat_beq a.uid b.uid

pub key_beq_iff : (a b : MessageKey) → (key_beq a b ≡ true) ↔ (a ≡ b)
unfolding key_beq
key_beq_iff a b = ground (arith, (bytes_eq).test_iff a.account_label b.account_label)

instance abbrev pub key_eq : HasEq MessageKey
key_eq = record { test = key_beq; test_iff = key_beq_iff }

pub record AttachmentMeta : Type 0 where
  pub filename : Bytes
  pub mime_type : Bytes
  pub size : ℕ

pub record Message : Type 0 where
  pub account_label : Bytes
  pub uid : ℕ
  pub folder : Bytes
  pub subject : Bytes
  pub from : Bytes
  pub to : Bytes
  pub date : Time
  pub body : Bytes
  pub attachments : List AttachmentMeta
  pub is_read : Bool

-- Message.Key
abbrev pub message_key : Message → MessageKey
message_key m = record { account_label = m.account_label; uid = m.uid }

-- A finite float64: its sign and magnitude `significand * 2 ^ up / 2 ^ down`. encoding/json
-- produces no others.
pub record Float64 : Type 0 where
  pub negative : Bool
  pub significand : ℕ
  pub up : ℕ
  pub down : ℕ

-- x < 0.0
unfoldable pub lt_zero : Float64 → Bool
lt_zero x = x.negative && ltb 0 x.significand

-- x > 1.0
unfoldable pub gt_one : Float64 → Bool
gt_one x = not x.negative && ltb (2 ^ x.down) (x.significand * 2 ^ x.up)

-- The `Stage` of an analysis error.
pub data Stage : Type 0 where
  parse repair unknown : Stage

-- The `Error` text of an analysis error, as the place that writes it.
pub data AnalysisReason : Type 0 where
  parse_failed repair_failed repair_invalid : Error → AnalysisReason
  repair_no_item analysis_failed : AnalysisReason

pub record AnalysisError : Type 0 where
  pub key : MessageKey
  pub error : AnalysisReason
  pub stage : Stage

pub record Classification : Type 0 where
  pub key : MessageKey
  pub label : Bytes
  pub confidence : Float64
  pub reason : Bytes
  pub summary : Bytes
  pub key_points : List Bytes
  pub action_items : List Bytes
  pub priority : Bytes
  pub urgency : Bytes
  pub analysis_error : Option AnalysisError

pub record Flag : Type 0 where
  pub key : MessageKey
  pub keyword : Bytes

pub record FetchOptions : Type 0 where
  pub since : Time
  pub fetch_unread_only : Bool
  pub folders : List Bytes
  pub batch_size : ℤ

-- The interface `Ingester`, as what its two calls answer in this run.
pub record Ingester : Type 0 where
  pub fetch : ImapAccount → FetchOptions → List Message × Option Error
  pub apply_flags : ImapAccount → List Flag → Option Error
