-- ===== src/Mail.antt =====
-- internal/mail: the message model, the classification labels and the pool of fetches.
pub mod Types
pub mod Key
pub mod Classification
pub mod Pool
pub mod Imap
pub mod Sanitize
