-- ===== src/Config/Normalize.antt =====
-- The defaults of an IMAP account.
use emailer.Prelude.{◌≡◌, refl, false, [], ◌∷◌, some, or_else, inl, inr, Bool-cases}
use emailer.Prelude.Bytes.{codes}
use emailer.Prelude.Int.{pos, beq_ℤ}
use emailer.Config.{ImapAccount, normalize}

-- Normalizing an account leaves it with a port other than 0 and with a list of folders, the given one
-- or the inbox alone, and normalizing it again changes nothing.
pub normalize_idempotent :
    (a : ImapAccount)
    → (beq_ℤ (normalize a).port (pos 0) ≡ false)
      × ((normalize a).folders ≡ some (or_else a.folders (codes "INBOX" ∷ [])))
      × (normalize (normalize a) ≡ normalize a)
unfolding normalize
normalize_idempotent a = elim (Bool-cases (beq_ℤ a.port (pos 0))) [
  | inl implicit ↦ rw implicit (refl, refl, refl)
  | inr given ↦ rw given (given, refl, rw given refl)
]
