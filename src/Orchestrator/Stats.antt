-- ===== src/Orchestrator/Stats.antt =====
-- `buildDigestStats`, `processClassificationEntries` and `trackMessageSenders` of
-- internal/orchestrator/orchestrator.go. The map `accountByLabel` with the slice `accountOrder` is one
-- association list, in the order of first insertion.
pub mod Totals
pub mod Loops
pub mod Sums
use emailer.Prelude.{
  ℕ, ◌+◌, ◌-◌, Bool, true, false, List, [], ◌∷◌, none, some, map, length, contains, or_else,
  if◌then◌else◌, ◌==◌,
}
use emailer.Prelude.Bytes.{Bytes, codes, bytes_eq, equal_fold}
use emailer.Prelude.Dict.{Dict, get, put}
use emailer.Errors.{Error}
use emailer.Mail.Types.{MessageKey, key_eq, Message, Classification}
use emailer.Mail.Pool.{FetchAllResult}
use emailer.Digest.{MessageEntry, DigestStats, AccountStatus, fetch_ok, fetch_error, AccountStats}
use emailer.Orchestrator.Sender.{parse_sender}
use emailer.Orchestrator.TopN.{top_n}

abbrev pub Counts : Type 0
Counts = Dict Bytes ℕ

-- counts[key]++
unfoldable pub count_up : Bytes → Counts → Counts
count_up key counts = put key (or_else (get key counts) 0 + 1) counts

unfoldable pub fresh_account : Bytes → AccountStats
fresh_account label = record {
  account_label = label;
  fetched_count = 0;
  classified_count = 0;
  failed_count = 0;
  read_count = 0;
  unread_count = 0;
  counts_by_label = [];
  status = fetch_ok;
  error = none;
  analysis_failed_count = 0;
  top_senders = [];
  top_domains = [];
}

-- ensureAccount, and a write through the pointer that it returns.
unfoldable pub with_account :
    Bytes → (AccountStats → AccountStats) → Dict Bytes AccountStats → Dict Bytes AccountStats
unfolding fresh_account
with_account label change accounts =
    put label (change (or_else (get label accounts) (fresh_account label))) accounts

unfoldable pub ensure_accounts :
    List FetchAllResult → Dict Bytes AccountStats → Dict Bytes AccountStats
unfolding with_account
ensure_accounts [] accounts = accounts
ensure_accounts (r ∷ rs) accounts =
    ensure_accounts rs (with_account r.account.label (λ a. a) accounts)

unfoldable pub mark_errors : Dict Bytes Error → Dict Bytes AccountStats → Dict Bytes AccountStats
unfolding with_account
mark_errors [] accounts = accounts
mark_errors ((label, e) ∷ errors) accounts =
    mark_errors errors
      (with_account label (λ a. record a { status = fetch_error; error = some e }) accounts)

-- The four frequency maps.
pub record Frequencies : Type 0 where
  pub senders : Counts
  pub domains : Counts
  pub account_senders : Dict Bytes Counts
  pub account_domains : Dict Bytes Counts

-- counts[label][key]++ on maps that are made when missing.
unfoldable pub count_up_in : Bytes → Bytes → Dict Bytes Counts → Dict Bytes Counts
unfolding count_up
count_up_in label key counts = put label (count_up key (or_else (get label counts) [])) counts

unfoldable pub track_sender : Bytes → Bytes → Frequencies → Frequencies
unfolding count_up count_up_in
track_sender label sender f = if sender == [] then f else record f {
  senders = count_up sender f.senders;
  account_senders = count_up_in label sender f.account_senders;
}

unfoldable pub track_domain : Bytes → Bytes → Frequencies → Frequencies
unfolding count_up count_up_in
track_domain label domain f = if domain == [] then f else record f {
  domains = count_up domain f.domains;
  account_domains = count_up_in label domain f.account_domains;
}

unfoldable pub track_message_senders : (Bytes → Bytes) → Message → Frequencies → Frequencies
unfolding parse_sender track_sender track_domain
track_message_senders tables m f =
    let (sender, domain) = parse_sender tables m.from in
    track_domain m.account_label domain (track_sender m.account_label sender f)

-- The global statistics with those of the accounts.
pub record Tally : Type 0 where
  pub global : DigestStats
  pub accounts : Dict Bytes AccountStats

unfoldable pub count_read : Bool → AccountStats → AccountStats
count_read true a = record a { fetched_count = a.fetched_count + 1; read_count = a.read_count + 1 }
count_read false a = record a {
  fetched_count = a.fetched_count + 1;
  unread_count = a.unread_count + 1;
}

unfoldable pub count_read_global : Bool → DigestStats → DigestStats
count_read_global true g = record g { read_count = g.read_count + 1 }
count_read_global false g = record g { unread_count = g.unread_count + 1 }

-- The loop over the messages.
unfoldable pub count_messages : List Message → Tally → Tally
unfolding with_account count_read count_read_global
count_messages [] t = t
count_messages (m ∷ ms) t = count_messages ms (record {
  global = count_read_global m.is_read t.global;
  accounts = with_account m.account_label (count_read m.is_read) t.accounts;
})

unfoldable pub track_messages : (Bytes → Bytes) → List Message → Frequencies → Frequencies
unfolding track_message_senders
track_messages tables [] f = f
track_messages tables (m ∷ ms) f = track_messages tables ms (track_message_senders tables m f)

abbrev pub entry_label : MessageEntry → Bytes
entry_label e = if e.classification.label == [] then codes "Unknown" else e.classification.label

-- One round of processClassificationEntries, given whether the entry's key is classified.
unfoldable pub count_entry : Bool → MessageEntry → Tally → Tally
unfolding count_up with_account equal_fold
count_entry true e t =
    let g = t.global in
    record {
      global = record g {
        counts_by_label = count_up (entry_label e) g.counts_by_label;
        high_priority_count =
            if equal_fold e.classification.priority (codes "high")
            then g.high_priority_count + 1
            else g.high_priority_count;
      };
      accounts =
          with_account e.classification.key.account_label
            (λ a. record a {
              counts_by_label = count_up (entry_label e) a.counts_by_label;
              classified_count = a.classified_count + 1;
            })
            t.accounts;
    }
count_entry false e t =
    let g = t.global in
    record {
      global = record g {
        counts_by_label = count_up (entry_label e) g.counts_by_label;
        failed_count = g.failed_count + 1;
      };
      accounts =
          with_account e.classification.key.account_label
            (λ a. record a {
              counts_by_label = count_up (entry_label e) a.counts_by_label;
              failed_count = a.failed_count + 1;
            })
            t.accounts;
    }

unfoldable pub process_classification_entries : List MessageKey → List MessageEntry → Tally → Tally
unfolding count_entry
process_classification_entries known [] t = t
process_classification_entries known (e ∷ es) t =
    process_classification_entries known es (count_entry (contains e.classification.key known) e t)

abbrev pub is_failed : AccountStatus → Bool
is_failed fetch_ok = false
is_failed fetch_error = true

unfoldable pub count_failed : Dict Bytes AccountStats → ℕ
count_failed [] = 0
count_failed ((label, a) ∷ accounts) = (if is_failed a.status then 1 else 0) + count_failed accounts

-- The top five of each account.
abbrev pub with_tops : Frequencies → Bytes × AccountStats → AccountStats
with_tops f (label, a) = record a {
  top_senders = top_n (or_else (get label f.account_senders) []) 5;
  top_domains = top_n (or_else (get label f.account_domains) []) 5;
}

pub record Stats : Type 0 where
  pub global : DigestStats
  pub accounts : List AccountStats
  pub senders : Counts
  pub domains : Counts

abbrev pub initial_global : ℕ → ℕ → DigestStats
initial_global fetched classified = record {
  fetched_count = fetched;
  classified_count = classified;
  failed_count = 0;
  read_count = 0;
  unread_count = 0;
  counts_by_label = [];
  accounts_checked = 0;
  accounts_succeeded = 0;
  accounts_failed = 0;
  high_priority_count = 0;
  analysis_failed_count = 0;
  top_senders = [];
  top_domains = [];
}

-- What stands behind the loops.
unfoldable pub conclude_stats : Tally → Frequencies → Stats
unfolding count_failed top_n
conclude_stats t f =
    let g = t.global in
    let checked = length t.accounts in
    let failed = count_failed t.accounts in
    record {
      global = record g {
        accounts_checked = checked;
        accounts_failed = failed;
        accounts_succeeded = checked - failed;
        top_senders = top_n f.senders 5;
        top_domains = top_n f.domains 5;
      };
      accounts = map (with_tops f) t.accounts;
      senders = f.senders;
      domains = f.domains;
    }

module _ (tables : Bytes → Bytes) (messages : List Message) (entries : List MessageEntry)
    (classifications : List Classification) (fetch_results : List FetchAllResult)
    (account_errors : Dict Bytes Error) where
  -- The tally behind the loops.
  unfoldable pub tally : Tally
  unfolding ensure_accounts mark_errors count_messages process_classification_entries
  tally =
      process_classification_entries (map (λ (c : Classification). c.key) classifications) entries (
        count_messages messages (record {
          global = initial_global (length messages) (length classifications);
          accounts = mark_errors account_errors (ensure_accounts fetch_results []);
        }))

  unfoldable pub build_digest_stats : Stats
  unfolding tally track_messages conclude_stats
  build_digest_stats = conclude_stats tally (
      track_messages tables messages
        (record { senders = []; domains = []; account_senders = []; account_domains = [] }))
