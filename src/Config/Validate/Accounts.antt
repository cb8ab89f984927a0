-- ===== src/Config/Validate/Accounts.antt =====
-- What a configuration without failures has.
use emailer.Prelude.{
  nat_beq, length, ℕ, ◌+◌, ◌≡◌, refl, inl, inr, Bool, true, false, not, ◌&&◌, ◌||◌, List, [], ◌∷◌,
  ◌++◌, arith, map, contains, AllDistinct, All, is_some, list_beq, Option-cases, ◌==◌,
}
use emailer.Prelude.Bytes.{Bytes, bytes_eq, is_blank, is_blank-nil}
use emailer.Prelude.Dict.{Dict, get, put, get-put, get-put_self}
use emailer.Prelude.Int.{pos, ltb_ℤ, leb_ℤ}
use emailer.Config.{ImapAccount, ImapConfig, LlmConfig, Config, normalize}
use emailer.Config.Validate.{
  ConfigError, report, account_required, imap_timeout_negative, validate_telegram_config,
  validate_imap_account, validate_accounts, validate_labels_unique, validate_imap_config,
  validate_top_level, validate_llm_config, validate_storage_config, validate,
}

append-nil_parts {ℓ} : {A : Type ℓ} (xs ys : List A) → xs ++ ys ≡ [] → (xs ≡ []) × (ys ≡ [])
append-nil_parts [] ys e = (refl, e)
append-nil_parts (x ∷ xs) ys e = absurd (cc)

report-nil : (b : Bool) (x : ConfigError) → report b x ≡ [] → b ≡ false
unfolding report
report-nil true x e = absurd (cc)
report-nil false x e = refl

abbrev pub labels_of : List ImapAccount → List Bytes
labels_of = map (λ (a : ImapAccount). a.label)

-- A label that is not blank, and a port in range.
pub record IsValidAccount (a : ImapAccount) : Type 0 where
  pub labelled : is_blank a.label ≡ false
  pub in_range : (ltb_ℤ a.port (pos 1) || ltb_ℤ (pos 65535) a.port) ≡ false

validate_accounts-IsValidAccount :
    (i : ℕ) (accounts : List ImapAccount)
    → validate_accounts i accounts ≡ []
    → All IsValidAccount accounts
unfolding validate_accounts validate_imap_account
validate_accounts-IsValidAccount i [] e = tt
validate_accounts-IsValidAccount i (a ∷ as') e =
    let (own, rest) =
      append-nil_parts (validate_imap_account i a) (validate_accounts (i + 1) as') e in
    let (label, more) = append-nil_parts (report (is_blank a.label) _) _ own in
    let (host, more2) = append-nil_parts (report (is_blank a.host) _) _ more in
    let (port, more3) =
      append-nil_parts (report (ltb_ℤ a.port (pos 1) || ltb_ℤ (pos 65535) a.port) _) _ more2 in
    (
      record {
        labelled = report-nil (is_blank a.label) _ label;
        in_range = report-nil (ltb_ℤ a.port (pos 1) || ltb_ℤ (pos 65535) a.port) _ port;
      },
      validate_accounts-IsValidAccount (i + 1) as' rest,
    )

not_empty : (s : Bytes) → is_blank s ≡ false → (s == []) ≡ false
unfolding list_beq
not_empty [] e = absurd (cc (is_blank-nil, e))
not_empty (c ∷ s) e = refl

-- The labels of accounts without a repetition are distinct, and none of those seen.
labels_apart :
    (i : ℕ) (seen : Dict Bytes ℕ) (accounts : List ImapAccount)
    → All IsValidAccount accounts
    → validate_labels_unique i seen accounts ≡ []
    → AllDistinct (labels_of accounts)
      × ((k : Bytes) → contains k (labels_of accounts) ≡ true → is_some (get k seen) ≡ false)
unfolding validate_labels_unique contains
labels_apart i seen [] v e = (tt, λ k h. absurd (cc))
labels_apart i seen (a ∷ as') (v, vs) e = elim (Option-cases (get a.label seen)) [
  | inr (first, g) ↦ absurd (ground (arith, not_empty a.label v.labelled))
  | inl new ↦
      let rest : validate_labels_unique (i + 1) (put a.label i seen) as' ≡ [] =
        ground (arith, not_empty a.label v.labelled) in
      let (d, fresh) = labels_apart (i + 1) (put a.label i seen) as' vs rest in
      (
        (ground (arith, fresh a.label, get-put_self a.label i seen), d),
        λ k h. ground (arith, fresh k, get-put a.label k i seen, bytes_eq.test_iff a.label k),
      )
]

window_positive :
    (cfg : Config) → validate_top_level cfg ≡ [] → leb_ℤ cfg.max_window (pos 0) ≡ false
unfolding validate_top_level
window_positive cfg e =
    report-nil _ _ (append-nil_parts (report (leb_ℤ cfg.max_window (pos 0)) _) _ e).0

repairs_allowed :
    (c : LlmConfig)
    → validate_llm_config c ≡ []
    → ltb_ℤ c.analysis_repair_max_attempts (pos 0) ≡ false
unfolding validate_llm_config report
repairs_allowed c e = ground arith

accounts_valid :
    (c : ImapConfig)
    → (validate_imap_config c).0 ≡ []
    → AllDistinct (labels_of (validate_imap_config c).1.accounts)
      × All IsValidAccount (validate_imap_config c).1.accounts
unfolding validate_imap_config
accounts_valid c e =
    let accounts : List ImapAccount = map normalize c.accounts in
    let (_, e1) = append-nil_parts (report (nat_beq (length c.accounts) 0) account_required) _ e in
    let (_, e2) = append-nil_parts (report (ltb_ℤ c.timeout (pos 0)) imap_timeout_negative) _ e1 in
    let (own, apart) = append-nil_parts (validate_accounts 0 accounts) _ e2 in
    let valid = validate_accounts-IsValidAccount 0 accounts own in
    ((labels_apart 0 [] accounts valid apart).0, valid)

-- If `Validate` finds no failure, then the accounts, as it leaves them in the shared slice, have
-- distinct and non-blank labels and ports between 1 and 65535; the maximal window is positive, the
-- number of repairs is not negative, and a stateless configuration fetches only unread messages.
pub validate_sound :
    (cfg : Config)
    → (validate cfg).0 ≡ []
    → AllDistinct (labels_of (validate cfg).1.imap.accounts)
      × All IsValidAccount (validate cfg).1.imap.accounts
      × (leb_ℤ cfg.max_window (pos 0) ≡ false)
      × (ltb_ℤ cfg.llm.analysis_repair_max_attempts (pos 0) ≡ false)
      × ((cfg.storage.stateless && not cfg.fetch_unread_only) ≡ false)
unfolding validate validate_storage_config
validate_sound cfg e =
    let (top, e1) = append-nil_parts (validate_top_level cfg) _ e in
    let (llm, e2) = append-nil_parts (validate_llm_config cfg.llm) _ e1 in
    let (imap, e3) = append-nil_parts (validate_imap_config cfg.imap).0 _ e2 in
    let (telegram, e4) = append-nil_parts (validate_telegram_config cfg.notify.telegram) _ e3 in
    let (storage, e5) =
      append-nil_parts (validate_storage_config cfg.storage cfg.fetch_unread_only) _ e4 in
    let (distinct, valid) = accounts_valid cfg.imap imap in
    (distinct, valid, window_positive cfg top, repairs_allowed cfg.llm llm, report-nil _ _ storage)
