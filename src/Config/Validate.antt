-- ===== src/Config/Validate.antt =====
-- internal/config/validate.go: `Validate`. Its argument shares the slice of accounts with the caller,
-- so that the normalized accounts are a result too. `SecretRedactionPatterns` is not modelled.
pub mod Accounts
use emailer.Prelude.{
  ℕ, ◌+◌, Bool, true, false, not, ◌&&◌, ◌||◌, List, [], ◌∷◌, ◌++◌, Option, none, some, or_else, map,
  length, is_some, nat_beq, ◌==◌, if◌then◌else◌,
}
use emailer.Prelude.Bytes.{Bytes, codes, bytes_eq, is_blank, index, contains_text}
use emailer.Prelude.Dict.{Dict, get, put}
use emailer.Prelude.Int.{ℤ, pos, ltb_ℤ, leb_ℤ, beq_ℤ}
use emailer.Config.{
  LlmConfig, ImapAccount, normalize, ImapConfig, TelegramConfig, NotifyConfig, StorageConfig,
  DigestConfig, LabelsConfig, ConcurrencyConfig, Config,
}

-- The failures, one constructor for each text; an account or label with its position.
pub data ConfigError : Type 0 where
  max_window_positive state_path_required : ConfigError
  provider_required api_key_required model_required timeout_positive : ConfigError
  max_retries_negative max_concurrent_positive repair_attempts_negative : ConfigError
  account_required imap_timeout_negative : ConfigError
  label_required host_required port_range username_required password_required : ℕ → ConfigError
  folder_empty : ℕ → ℕ → ConfigError
  host_scheme : ℕ → ConfigError
  same_label : ℕ → ℕ → ConfigError
  bot_token_required chat_id_zero bot_token_form : ConfigError
  stateless_needs_unread : ConfigError
  excerpt_positive max_messages_negative key_points_negative action_items_negative : ConfigError
  no_content : ConfigError
  max_accounts_positive max_llm_calls_positive batch_size_negative : ConfigError
  custom_label_empty : ℕ → ConfigError

-- if failed { errs = append(errs, e) }
unfoldable pub report : Bool → ConfigError → List ConfigError
report failed e = if failed then e ∷ [] else []

abbrev pub not_positive : ℤ → Bool
not_positive n = leb_ℤ n (pos 0)

abbrev pub negative : ℤ → Bool
negative n = ltb_ℤ n (pos 0)

unfoldable pub validate_top_level : Config → List ConfigError
unfolding report
validate_top_level cfg =
    report (not_positive cfg.max_window) max_window_positive
    ++ report
        (not cfg.fetch_unread_only && not cfg.storage.stateless && cfg.storage.state_path == [])
        state_path_required

unfoldable pub validate_llm_config : LlmConfig → List ConfigError
unfolding report
validate_llm_config c =
    report (c.provider == []) provider_required
    ++ (report (not (c.provider == codes "ollama") && c.api_key == []) api_key_required
        ++ (report (c.model == []) model_required
            ++ (report (not_positive c.timeout) timeout_positive
                ++ (report (negative c.max_retries) max_retries_negative
                    ++ (report (not_positive c.max_concurrent) max_concurrent_positive
                        ++ report (negative c.analysis_repair_max_attempts)
                            repair_attempts_negative)))))

-- The folders of account `i`, from position `j`.
unfoldable pub validate_folders : ℕ → ℕ → List Bytes → List ConfigError
unfolding report
validate_folders i j [] = []
validate_folders i j (f ∷ fs) =
    report (is_blank f) (folder_empty i j) ++ validate_folders i (j + 1) fs

unfoldable pub validate_imap_account : ℕ → ImapAccount → List ConfigError
unfolding report validate_folders
validate_imap_account i a =
    report (is_blank a.label) (label_required i)
    ++ (report (is_blank a.host) (host_required i)
        ++ (report (ltb_ℤ a.port (pos 1) || ltb_ℤ (pos 65535) a.port) (port_range i)
            ++ (report (is_blank a.username) (username_required i)
                ++ (report (a.password == []) (password_required i)
                    ++ (validate_folders i 0 (or_else a.folders [])
                        ++ report (not (a.host == []) && contains_text a.host (codes "://"))
                            (host_scheme i))))))

unfoldable pub validate_accounts : ℕ → List ImapAccount → List ConfigError
unfolding validate_imap_account
validate_accounts i [] = []
validate_accounts i (a ∷ as') = validate_imap_account i a ++ validate_accounts (i + 1) as'

-- The loop over the labels from position `i`, with the positions of those seen.
unfoldable pub validate_labels_unique : ℕ → Dict Bytes ℕ → List ImapAccount → List ConfigError
validate_labels_unique i seen [] = []
validate_labels_unique i seen (a ∷ as') =
    let known : Bool = a.label == [] || is_some (get a.label seen) in
    let rest = validate_labels_unique (i + 1) (if known then seen else put a.label i seen) as' in
    if a.label == []
    then rest
    else elim (get a.label seen) [ none ↦ rest | some first ↦ same_label first i ∷ rest ]

unfoldable pub validate_imap_config : ImapConfig → List ConfigError × ImapConfig
unfolding validate_accounts validate_labels_unique report
validate_imap_config c =
    let accounts = map normalize c.accounts in
    (
      report (nat_beq (length c.accounts) 0) account_required
          ++ (report (negative c.timeout) imap_timeout_negative
              ++ (validate_accounts 0 accounts ++ validate_labels_unique 0 [] accounts)),
      record c { accounts = accounts },
    )

abbrev pub malformed_token : Bytes → Option ℕ → Bool
malformed_token token none = true
malformed_token token (some i) = nat_beq i 0 || nat_beq (i + 1) (length token)

unfoldable pub validate_telegram_config : TelegramConfig → List ConfigError
unfolding report
validate_telegram_config c =
    report (c.bot_token == []) bot_token_required
    ++ (report (beq_ℤ c.chat_id (pos 0)) chat_id_zero
        ++ report
            (not (c.bot_token == []) && malformed_token c.bot_token (index c.bot_token (codes ":")))
            bot_token_form)

unfoldable pub validate_storage_config : StorageConfig → Bool → List ConfigError
unfolding report
validate_storage_config c unread_only =
    report (c.stateless && not unread_only) stateless_needs_unread

unfoldable pub validate_digest_config : DigestConfig → List ConfigError
unfolding report
validate_digest_config c =
    report (not_positive c.max_message_excerpt) excerpt_positive
    ++ (report (negative c.max_messages) max_messages_negative
        ++ (report (negative c.max_key_points_per_message) key_points_negative
            ++ (report (negative c.max_action_items_per_message) action_items_negative
                ++ report (not c.include_summaries && not c.include_raw_excerpt_fallback)
                    no_content)))

unfoldable pub validate_concurrency_config : ConcurrencyConfig → List ConfigError
unfolding report
validate_concurrency_config c =
    report (not_positive c.max_accounts) max_accounts_positive
    ++ (report (not_positive c.max_llm_calls) max_llm_calls_positive
        ++ report (negative c.fetch_batch_size) batch_size_negative)

unfoldable pub validate_custom_labels : ℕ → List Bytes → List ConfigError
unfolding report
validate_custom_labels i [] = []
validate_custom_labels i (l ∷ ls) =
    report (is_blank l) (custom_label_empty i) ++ validate_custom_labels (i + 1) ls

-- The failures in the order of the source, and the configuration as the caller then has it.
unfoldable pub validate : Config → List ConfigError × Config
unfolding validate_imap_config validate_top_level validate_llm_config validate_telegram_config
    validate_storage_config validate_digest_config validate_concurrency_config
    validate_custom_labels
validate cfg =
    let (imap_errors, imap') = validate_imap_config cfg.imap in
    (
      validate_top_level cfg
          ++ (validate_llm_config cfg.llm
              ++ (imap_errors
                  ++ (validate_telegram_config cfg.notify.telegram
                      ++ (validate_storage_config cfg.storage cfg.fetch_unread_only
                          ++ (validate_digest_config cfg.digest
                              ++ (validate_concurrency_config cfg.concurrency
                                  ++ validate_custom_labels 0 cfg.labels.custom)))))),
      record cfg { imap = imap' },
    )
