-- ===== src/Examples/Settings.antt =====
-- Examples for internal/config.
use emailer.Prelude.{refl, not, ◌&&◌, AllDistinct, All, list_beq, ◌≡◌, false, [], ◌∷◌}
use emailer.Prelude.Bytes.{
  codes, bytes_eq, trim_left, trim_space, is_blank, has_prefix, index, contains_text,
}
use emailer.Prelude.Dict.{get, put}
use emailer.Prelude.Int.{pos, ltb_ℤ, leb_ℤ}
use emailer.Config.{ImapAccount, normalize, Config}
use emailer.Config.Validate.{
  report, validate_top_level, validate_llm_config, validate_folders, validate_imap_account,
  validate_accounts, validate_labels_unique, validate_imap_config, validate_telegram_config,
  validate_storage_config, validate_digest_config, validate_concurrency_config,
  validate_custom_labels, validate,
}
use emailer.Config.Validate.Accounts.{labels_of, IsValidAccount, validate_sound}
use emailer.Examples.{account, config}

abbrev bare : ImapAccount
bare = record (account (codes "home")) { port = pos 0; use_tls = false }

abbrev with_password : ImapAccount → ImapAccount
with_password a = record a { password = codes "secret" }

abbrev valid_config : Config
valid_config = record config {
  max_window = pos 100;
  llm = record (config.llm) { timeout = pos 30 };
  imap = record {
    accounts = with_password bare ∷ with_password (account (codes "work")) ∷ [];
    timeout = pos 30;
  };
  notify = record { telegram = record { bot_token = codes "12:ab"; chat_id = pos 1 } };
}

no_failures : (validate valid_config).0 ≡ []
unfolding report validate_top_level validate_llm_config validate_folders validate_imap_account
    validate_accounts validate_labels_unique validate_imap_config validate_telegram_config
    validate_storage_config validate_digest_config validate_concurrency_config
    validate_custom_labels validate normalize is_blank trim_space trim_left has_prefix index
    contains_text list_beq get put
no_failures = refl

validate_sound_example :
    AllDistinct (labels_of (validate valid_config).1.imap.accounts)
    × All IsValidAccount (validate valid_config).1.imap.accounts
    × (leb_ℤ (pos 100) (pos 0) ≡ false)
    × (ltb_ℤ (pos 1) (pos 0) ≡ false)
    × ((valid_config.storage.stateless && not valid_config.fetch_unread_only) ≡ false)
validate_sound_example = validate_sound valid_config no_failures
