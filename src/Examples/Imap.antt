-- ===== src/Examples/Imap.antt =====
-- Examples for internal/mail/fetch.go and the reconnecting of internal/mail/client.go.
use mathlib.Core.List.{filter, dec_mem}
use native.Mathlib.Decide.{ℕ_discrete}
use emailer.Prelude.{
  ℕ, ◌≡◌, refl, true, false, List, [], ◌∷◌, Option, none, some, if◌then◌else◌, nat_beq,
}
use emailer.Prelude.Bytes.{Bytes, codes}
use emailer.Mail.Imap.{Fetched, found, ClientError, ran, reconnected, with_reconnect}
use emailer.Mail.Imap.Reconnect.{IsSound, with_reconnect-IsSound}

-- Two UIDs are there; the command asks for one of them twice, and for one that is not there.
abbrev mailbox : List ℕ
mailbox = 4 ∷ 9 ∷ []

abbrev uids : List ℕ
uids = 9 ∷ 4 ∷ 9 ∷ 5 ∷ []

abbrev uid_fetch : List ℕ → Fetched (List ℕ)
uid_fetch us = found (filter (λ m. dec_mem ℕ_discrete m us) mailbox)

abbrev client_error : Bytes → ClientError
client_error text = record { is_op_error = false; is_eof = false; message = text }

-- The first run of the operation fails, and so does every reconnect but the first.
abbrev op : ℕ → Option ClientError
op n = if nat_beq n 0 then some (client_error (codes "broken pipe")) else none

abbrev reconnect : ℕ → Option ClientError
reconnect n = if nat_beq n 0 then none else some (client_error (codes "no route"))

with_reconnect-IsSound_example : IsSound (λ s. s) true (with_reconnect (λ s. s) op reconnect true)
with_reconnect-IsSound_example = with_reconnect-IsSound (λ s. s) op reconnect true

two_runs :
    (with_reconnect (λ s. s) op reconnect true).1
    ≡ ran (some (client_error (codes "broken pipe"))) ∷ reconnected none ∷ ran none ∷ []
unfolding with_reconnect
two_runs = refl
