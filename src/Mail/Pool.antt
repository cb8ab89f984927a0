-- ===== src/Mail/Pool.antt =====
-- internal/mail/pool.go: concurrent fetches that each write one slot, the helpers on their results,
-- and the bounded semaphore. `WaitGroupWithTimeout` only passes calls on to `sync.WaitGroup`.
pub mod AnyOrder
pub mod Results
pub mod Semaphore
use emailer.Prelude.{
  ℕ, zero, suc, ◌+◌, ◌≡◌, Bool, true, false, not, List, [], ◌∷◌, ◌++◌, Option, none, some, length,
  get_elem?, set, keep, if◌then◌else◌, or_else, nat_beq,
}
use emailer.Prelude.Bytes.{Bytes, bytes_eq}
use emailer.Prelude.Dict.{Dict, get, put}
use emailer.Prelude.Int.{ℤ, pos}
use emailer.Config.{ImapAccount}
use emailer.Errors.{Error, fetch_cancelled, fetch_no_ingester}
use emailer.Mail.Types.{Message, MessageKey, message_key, key_eq, FetchOptions, Ingester}

pub record FetchAllResult : Type 0 where
  pub account : ImapAccount
  pub messages : List Message
  pub err : Option Error

-- The zero value that `make` fills the slots with.
abbrev pub empty_account : ImapAccount
empty_account = record {
  label = [];
  host = [];
  port = pos 0;
  username = [];
  password = [];
  folders = none;
  use_tls = false;
}

abbrev pub empty_result : FetchAllResult
empty_result = record { account = empty_account; messages = []; err = none }

fetch_by : Option Ingester → FetchOptions → ImapAccount → FetchAllResult
fetch_by none opts acct = record {
  account = acct;
  messages = [];
  err = some (fetch_no_ingester acct.label);
}
fetch_by (some ingester) opts acct =
    let (msgs, e) = ingester.fetch acct opts in record { account = acct; messages = msgs; err = e }

-- The body of one goroutine; the flag says that the context is done when it starts.
pub fetch_account : Bool → Dict Bytes Ingester → FetchOptions → ImapAccount → FetchAllResult
unfolding fetch_by
fetch_account true ingesters opts acct = record {
  account = acct;
  messages = [];
  err = some (fetch_cancelled acct.label);
}
fetch_account false ingesters opts acct = fetch_by (get acct.label ingesters) opts acct

abbrev pub empty_slots : List ImapAccount → List FetchAllResult
empty_slots [] = []
empty_slots (a ∷ as') = empty_result ∷ empty_slots as'

module _ (cancelled : ℕ → Bool) (ingesters : Dict Bytes Ingester) (opts : FetchOptions)
    (accounts : List ImapAccount) where
  -- Goroutine `i` writes its own slot.
  pub write_slot : ℕ → List FetchAllResult → List FetchAllResult
  write_slot i slots = elim (get_elem? accounts i) [
    | none ↦ slots
    | some acct ↦ set slots i (fetch_account (cancelled i) ingesters opts acct)
  ]

  -- The goroutines end in the order of the schedule, which the runtime and the concurrency limit
  -- choose; the limit and its clamp to 1 only leave out some of the orders. `g.Wait` returns when all have ended.
  pub run_schedule : List ℕ → List FetchAllResult → List FetchAllResult
  run_schedule [] slots = slots
  run_schedule (i ∷ is) slots = run_schedule is (write_slot i slots)

  unfoldable pub fetch_all : List ℕ → List FetchAllResult
  unfolding run_schedule write_slot fetch_account
  fetch_all schedule = run_schedule schedule (empty_slots accounts)

-- FlattenMessages. (A nil slice and an empty one are the same list.)
unfoldable pub flatten_messages : List FetchAllResult → List Message
flatten_messages [] = []
flatten_messages (r ∷ rs) =
    let rest = flatten_messages rs in elim r.err [ none ↦ r.messages ++ rest | some e ↦ rest ]

-- FilterAlreadyProcessed
unfoldable pub filter_already_processed : List Message → Dict MessageKey Bool → List Message
unfolding keep
filter_already_processed messages [] = messages
filter_already_processed messages (p ∷ processed) =
    keep (λ m. not (or_else (get (message_key m) (p ∷ processed)) false)) messages

group_onto : Dict Bytes (List Message) → List Message → Dict Bytes (List Message)
group_onto groups [] = groups
group_onto groups (m ∷ ms) =
    group_onto (put m.account_label (or_else (get m.account_label groups) [] ++ m ∷ []) groups) ms

-- GroupByAccount
unfoldable pub group_by_account : List Message → Dict Bytes (List Message)
unfolding group_onto
group_by_account = group_onto []

errors_onto : Dict Bytes Error → List FetchAllResult → Dict Bytes Error
errors_onto errs [] = errs
errors_onto errs (r ∷ rs) =
    errors_onto (elim r.err [ none ↦ errs | some e ↦ put r.account.label e errs ]) rs

-- AccountErrors
unfoldable pub account_errors : List FetchAllResult → Dict Bytes Error
unfolding errors_onto
account_errors = errors_onto []
