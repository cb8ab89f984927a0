-- ===== src/Orchestrator/Stats/Sums.antt =====
-- What the digest statistics add up to.
use emailer.Prelude.{ℕ, ◌+◌, ◌≤◌, ◌≡◌, refl, ◌∙◌, sym, List, [], ◌∷◌, arith, length, map}
use emailer.Prelude.Bytes.{Bytes, bytes_eq}
use emailer.Prelude.Dict.{Dict}
use emailer.Errors.{Error}
use emailer.Mail.Types.{key_eq, Message, Classification}
use emailer.Mail.Pool.{FetchAllResult}
use emailer.Digest.{MessageEntry, AccountStats}
use emailer.Orchestrator.Stats.{
  ensure_accounts, mark_errors, Frequencies, Tally, count_messages, count_failed, with_tops,
  initial_global, conclude_stats, tally, build_digest_stats, track_messages,
}
use emailer.Orchestrator.Classify.{classification_keys}
use emailer.Orchestrator.Stats.Totals.{total, sum_of}
use emailer.Orchestrator.Stats.Loops.{
  Sums, IsFresh, ensure_accounts-IsFresh, mark_errors-IsFresh, count_messages-Sums,
  process_classification_entries-Sums,
}

sum_of-with_tops :
    (f : AccountStats → ℕ) (fr : Frequencies) (accounts : Dict Bytes AccountStats)
    → ((label : Bytes) (a : AccountStats) → f (with_tops fr (label, a)) ≡ f a)
    → sum_of f (map (with_tops fr) accounts) ≡ total f accounts
unfolding sum_of total
sum_of-with_tops f fr [] h = refl
sum_of-with_tops f fr ((label, a) ∷ accounts) h =
    omega (arith, h label a, sum_of-with_tops f fr accounts h)

count_failed-le : (accounts : Dict Bytes AccountStats) → count_failed accounts ≤ length accounts
unfolding count_failed
count_failed-le [] = omega arith
count_failed-le ((label, a) ∷ accounts) = ground (arith, count_failed-le accounts)

tally-Sums :
    (tables : Bytes → Bytes) (messages : List Message) (entries : List MessageEntry)
    (classifications : List Classification) (fetch_results : List FetchAllResult)
    (account_errors : Dict Bytes Error)
    → Sums
        (length messages)
        (length entries)
        (tally tables messages entries classifications fetch_results account_errors)
unfolding tally total
tally-Sums tables messages entries classifications fetch_results account_errors =
    let t0 : Tally = record {
      global = initial_global (length messages) (length classifications);
      accounts = mark_errors account_errors (ensure_accounts fetch_results []);
    } in
    let fresh : IsFresh t0.accounts =
      mark_errors-IsFresh account_errors (ensure_accounts fetch_results []) (
        ensure_accounts-IsFresh fetch_results []
          (record { fetched = refl; classified = refl; failed = refl })) in
    let sums0 : Sums 0 0 t0 = record {
      reads = omega arith;
      fetched = fresh.fetched;
      entries = omega (arith, fresh.classified, fresh.failed);
      failed = omega (arith, fresh.failed);
      labels = refl;
    } in
    let counted = count_messages-Sums messages 0 0 t0 sums0 in
    let all =
      process_classification_entries-Sums (classification_keys classifications) entries
        (0 + length messages) 0 (count_messages messages t0) counted in
    record {
      reads = omega (arith, all.reads);
      fetched = omega (arith, all.fetched);
      entries = omega (arith, all.entries);
      failed = all.failed;
      labels = omega (arith, all.labels);
    }

-- The digest statistics add up: every message is counted as read or unread, and for one account;
-- every entry is counted for one account, as classified or failed, and under one label; the failed
-- entries of the accounts are those of the whole run; and every account checked either succeeded
-- or failed.
pub build_digest_stats_totals :
    (tables : Bytes → Bytes) (messages : List Message) (entries : List MessageEntry)
    (classifications : List Classification) (fetch_results : List FetchAllResult)
    (account_errors : Dict Bytes Error)
    → (let s =
          build_digest_stats tables messages entries classifications fetch_results account_errors in
        (s.global.read_count + s.global.unread_count ≡ length messages)
        × (sum_of (λ (a : AccountStats). a.fetched_count) s.accounts ≡ length messages)
        × (sum_of (λ (a : AccountStats). a.classified_count) s.accounts
              + sum_of (λ (a : AccountStats). a.failed_count) s.accounts
            ≡ length entries)
        × (sum_of (λ (a : AccountStats). a.failed_count) s.accounts ≡ s.global.failed_count)
        × (total (λ n. n) s.global.counts_by_label ≡ length entries)
        × (s.global.accounts_succeeded + s.global.accounts_failed ≡ s.global.accounts_checked))
unfolding build_digest_stats conclude_stats
build_digest_stats_totals tables messages entries classifications fetch_results account_errors =
    let t : Tally = tally tables messages entries classifications fetch_results account_errors in
    let fr : Frequencies =
      track_messages tables messages
        (record { senders = []; domains = []; account_senders = []; account_domains = [] }) in
    let h = tally-Sums tables messages entries classifications fetch_results account_errors in
    (
      h.reads,
      sum_of-with_tops (λ a. a.fetched_count) fr t.accounts (λ label a. refl) ∙ h.fetched,
      omega (
        arith,
        sum_of-with_tops (λ a. a.classified_count) fr t.accounts (λ label a. refl),
        sum_of-with_tops (λ a. a.failed_count) fr t.accounts (λ label a. refl),
        h.entries,
      ),
      sum_of-with_tops (λ a. a.failed_count) fr t.accounts (λ label a. refl) ∙ sym h.failed,
      h.labels,
      omega (arith, count_failed-le t.accounts),
    )
