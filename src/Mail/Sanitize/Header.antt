-- ===== src/Mail/Sanitize/Header.antt =====
-- `SanitizeHeader` and `SanitizeAddressField` of internal/mail/sanitize.go.
use emailer.Prelude.Bytes.{Bytes, trim_space}
use emailer.Mail.Sanitize.{strip_control_chars}
use emailer.Mail.Sanitize.Tags.{strip_html}
use emailer.Mail.Sanitize.Entities.{decode_entities}

unfoldable pub sanitize_header : (Bytes → Bytes) → Bytes → Bytes
unfolding strip_html strip_control_chars decode_entities trim_space
sanitize_header tables s = trim_space (decode_entities (strip_control_chars (strip_html tables s)))

unfoldable pub sanitize_address_field : Bytes → Bytes
unfolding strip_control_chars decode_entities trim_space
sanitize_address_field s = trim_space (decode_entities (strip_control_chars s))
