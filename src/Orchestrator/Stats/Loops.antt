-- ===== src/Orchestrator/Stats/Loops.antt =====
-- What each loop of `buildDigestStats` adds to the sums.
use emailer.Prelude.{
  ℕ, ◌+◌, ◌≡◌, refl, subst, Bool, true, false, List, [], ◌∷◌, some, arith, length, contains,
}
use emailer.Prelude.Bytes.{Bytes, bytes_eq}
use emailer.Prelude.Dict.{Dict}
use emailer.Errors.{Error}
use emailer.Mail.Types.{MessageKey, key_eq, Message}
use emailer.Mail.Pool.{FetchAllResult}
use emailer.Digest.{MessageEntry, AccountStats, fetch_error}
use emailer.Orchestrator.Stats.{
  count_up, fresh_account, with_account, ensure_accounts, mark_errors, Tally, count_read,
  count_read_global, count_messages, count_entry, process_classification_entries, entry_label,
}
use emailer.Orchestrator.Stats.Totals.{total, total-count_up, total-with_account}

abbrev pub fetched_total : Dict Bytes AccountStats → ℕ
fetched_total = total (λ (a : AccountStats). a.fetched_count)

abbrev pub classified_total : Dict Bytes AccountStats → ℕ
classified_total = total (λ (a : AccountStats). a.classified_count)

abbrev pub failed_total : Dict Bytes AccountStats → ℕ
failed_total = total (λ (a : AccountStats). a.failed_count)

-- What holds behind `ms` messages and `es` entries.
pub record Sums (ms es : ℕ) (t : Tally) : Type 0 where
  pub reads : t.global.read_count + t.global.unread_count ≡ ms
  pub fetched : fetched_total t.accounts ≡ ms
  pub entries : classified_total t.accounts + failed_total t.accounts ≡ es
  pub failed : t.global.failed_count ≡ failed_total t.accounts
  pub labels : total (λ n. n) t.global.counts_by_label ≡ es

-- Accounts in which nothing is counted yet.
pub record IsFresh (accounts : Dict Bytes AccountStats) : Type 0 where
  pub fetched : fetched_total accounts ≡ 0
  pub classified : classified_total accounts ≡ 0
  pub failed : failed_total accounts ≡ 0

pub ensure_accounts-IsFresh :
    (rs : List FetchAllResult) (accounts : Dict Bytes AccountStats)
    → IsFresh accounts
    → IsFresh (ensure_accounts rs accounts)
unfolding ensure_accounts fresh_account
ensure_accounts-IsFresh [] accounts h = h
ensure_accounts-IsFresh (r ∷ rs) accounts h =
    let same : AccountStats → AccountStats = λ a. a in
    let lem = λ (f : AccountStats → ℕ) (z : f (fresh_account r.account.label) ≡ 0).
      total-with_account f 0 r.account.label same accounts (λ a. omega arith) z in
    ensure_accounts-IsFresh rs (with_account r.account.label same accounts) (record {
      fetched = omega (arith, lem (λ a. a.fetched_count) refl, h.fetched);
      classified = omega (arith, lem (λ a. a.classified_count) refl, h.classified);
      failed = omega (arith, lem (λ a. a.failed_count) refl, h.failed);
    })

pub mark_errors-IsFresh :
    (errors : Dict Bytes Error) (accounts : Dict Bytes AccountStats)
    → IsFresh accounts
    → IsFresh (mark_errors errors accounts)
unfolding mark_errors fresh_account
mark_errors-IsFresh [] accounts h = h
mark_errors-IsFresh ((label, e) ∷ errors) accounts h =
    let change : AccountStats → AccountStats =
      λ a. record a { status = fetch_error; error = some e } in
    mark_errors-IsFresh errors (with_account label change accounts) (record {
      fetched = omega (
        arith,
        total-with_account (λ a. a.fetched_count) 0 label change accounts (λ a. omega arith) refl,
        h.fetched,
      );
      classified = omega (
        arith,
        total-with_account (λ a. a.classified_count) 0 label change accounts (λ a. omega arith)
            refl,
        h.classified,
      );
      failed = omega (
        arith,
        total-with_account (λ a. a.failed_count) 0 label change accounts (λ a. omega arith) refl,
        h.failed,
      );
    })

count_read-Sums :
    (read : Bool) (label : Bytes) (n k : ℕ) (t : Tally)
    → Sums n k t
    → Sums (n + 1) k (record {
      global = count_read_global read t.global;
      accounts = with_account label (count_read read) t.accounts;
    })
unfolding count_read count_read_global fresh_account
count_read-Sums true label n k t h = record {
  reads = omega (arith, h.reads);
  fetched = omega (
    arith,
    total-with_account (λ a. a.fetched_count) 1 label (count_read true) t.accounts (λ a. refl) refl,
    h.fetched,
  );
  entries = omega (
    arith,
    total-with_account (λ a. a.classified_count) 0 label (count_read true) t.accounts
        (λ a. omega arith) refl,
    total-with_account (λ a. a.failed_count) 0 label (count_read true) t.accounts (λ a. omega arith)
        refl,
    h.entries,
  );
  failed = omega (
    arith,
    total-with_account (λ a. a.failed_count) 0 label (count_read true) t.accounts (λ a. omega arith)
        refl,
    h.failed,
  );
  labels = h.labels;
}
count_read-Sums false label n k t h = record {
  reads = omega (arith, h.reads);
  fetched = omega (
    arith,
    total-with_account (λ a. a.fetched_count) 1 label (count_read false) t.accounts (λ a. refl)
        refl,
    h.fetched,
  );
  entries = omega (
    arith,
    total-with_account (λ a. a.classified_count) 0 label (count_read false) t.accounts
        (λ a. omega arith) refl,
    total-with_account (λ a. a.failed_count) 0 label (count_read false) t.accounts
        (λ a. omega arith) refl,
    h.entries,
  );
  failed = omega (
    arith,
    total-with_account (λ a. a.failed_count) 0 label (count_read false) t.accounts
        (λ a. omega arith) refl,
    h.failed,
  );
  labels = h.labels;
}

Sums-count : (n n' k : ℕ) (t : Tally) → n ≡ n' → Sums n k t → Sums n' k t
Sums-count n n' k t e = subst (λ i. Sums i k t) e

pub count_messages-Sums :
    (ms : List Message) (n k : ℕ) (t : Tally)
    → Sums n k t
    → Sums (n + length ms) k (count_messages ms t)
unfolding count_messages
count_messages-Sums [] n k t h = Sums-count n (n + 0) k t (omega arith) h
count_messages-Sums (m ∷ ms) n k t h =
    Sums-count (n + 1 + length ms) (n + length (m ∷ ms)) k _ (omega arith)
      (count_messages-Sums ms (n + 1) k _ (count_read-Sums m.is_read m.account_label n k t h))

count_entry-Sums :
    (known : Bool) (e : MessageEntry) (n k : ℕ) (t : Tally)
    → Sums n k t
    → Sums n (k + 1) (count_entry known e t)
unfolding count_entry fresh_account
count_entry-Sums true e n k t h =
    let label : Bytes = e.classification.key.account_label in
    let change : AccountStats → AccountStats = λ a. record a {
      counts_by_label = count_up (entry_label e) a.counts_by_label;
      classified_count = a.classified_count + 1;
    } in
    record {
      reads = h.reads;
      fetched = omega (
        arith,
        total-with_account (λ a. a.fetched_count) 0 label change t.accounts (λ a. omega arith) refl,
        h.fetched,
      );
      entries = omega (
        arith,
        total-with_account (λ a. a.classified_count) 1 label change t.accounts (λ a. refl) refl,
        total-with_account (λ a. a.failed_count) 0 label change t.accounts (λ a. omega arith) refl,
        h.entries,
      );
      failed = omega (
        arith,
        total-with_account (λ a. a.failed_count) 0 label change t.accounts (λ a. omega arith) refl,
        h.failed,
      );
      labels = omega (arith, total-count_up (entry_label e) t.global.counts_by_label, h.labels);
    }
count_entry-Sums false e n k t h =
    let label : Bytes = e.classification.key.account_label in
    let change : AccountStats → AccountStats = λ a. record a {
      counts_by_label = count_up (entry_label e) a.counts_by_label;
      failed_count = a.failed_count + 1;
    } in
    record {
      reads = h.reads;
      fetched = omega (
        arith,
        total-with_account (λ a. a.fetched_count) 0 label change t.accounts (λ a. omega arith) refl,
        h.fetched,
      );
      entries = omega (
        arith,
        total-with_account (λ a. a.classified_count) 0 label change t.accounts (λ a. omega arith)
            refl,
        total-with_account (λ a. a.failed_count) 1 label change t.accounts (λ a. refl) refl,
        h.entries,
      );
      failed = omega (
        arith,
        total-with_account (λ a. a.failed_count) 1 label change t.accounts (λ a. refl) refl,
        h.failed,
      );
      labels = omega (arith, total-count_up (entry_label e) t.global.counts_by_label, h.labels);
    }

pub process_classification_entries-Sums :
    (known : List MessageKey) (es : List MessageEntry) (n k : ℕ) (t : Tally)
    → Sums n k t
    → Sums n (k + length es) (process_classification_entries known es t)
unfolding process_classification_entries
process_classification_entries-Sums known [] n k t h = subst (λ i. Sums n i t) (omega arith) h
process_classification_entries-Sums known (e ∷ es) n k t h =
    let step : Tally = count_entry (contains e.classification.key known) e t in
    subst (λ i. Sums n i (process_classification_entries known es step)) (omega arith)
      (process_classification_entries-Sums known es n (k + 1) step
        (count_entry-Sums (contains e.classification.key known) e n k t h))
