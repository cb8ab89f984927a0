-- ===== src/Notify.antt =====
-- internal/notify: the delivery of a digest. The channel registry is the code of the provider registry
-- once more (Llm/Registry).
pub mod Telegram
use emailer.Prelude.Bytes.{Bytes}

pub record SendOptions : Type 0 where
  pub filename : Bytes
  pub caption : Bytes
