-- ===== src/Examples/Run.antt =====
-- Examples for a whole run.
use emailer.Prelude.{
  ◌+◌, ◌≡◌, refl, true, not, ◌||◌, ◌&&◌, List, [], ◌∷◌, arith, map, keep, contains, is_some,
}
use emailer.Prelude.Bytes.{Bytes, codes}
use emailer.Mail.Types.{key_eq, Message, message_key, Classification}
use emailer.Store.Noop.{NoopStore, record_message, already_processed, mark_known}
use emailer.Store.Noop.Messages.{noop_dedup}
use emailer.Orchestrator.World.{World}
use emailer.Orchestrator.World.Preserves.{deliveries}
use emailer.Orchestrator.Stats.{build_digest_stats}
use emailer.Orchestrator.Stats.Totals.{total, sum_of}
use emailer.Orchestrator.Stats.Sums.{build_digest_stats_totals}
use emailer.Orchestrator.DigestBuild.{entry_of}
use emailer.Digest.{MessageEntry, AccountStats}
use emailer.Prelude.Dict.{Dict}
use emailer.Errors.{Error, external}
use emailer.Orchestrator.Classify.{classification_keys, make_failed_classification}
use emailer.Orchestrator.Delivery.{record_processed_messages}
use emailer.Orchestrator.Run.{run, filter_processed}
use emailer.Orchestrator.Run.DryRun.{run_dry}
use emailer.Orchestrator.Run.Kept.{consistent}
use emailer.Orchestrator.Run.Status.{run-consistent, IsRecorded, run-IsRecorded}
use emailer.Orchestrator.Run.Dedup.{
  filter_processed_unknown, record_processed_messages_known, NeverFails,
  filter_processed-record_processed_messages,
}
use emailer.Examples.{sample_pipeline, start, options, message}

run_dry_example : deliveries (run sample_pipeline options start).1.trace ≡ []
unfolding deliveries
run_dry_example = run_dry sample_pipeline options start refl

run-consistent_example :
    consistent
      (run sample_pipeline options start).0.status
      (is_some (run sample_pipeline options start).0.err)
    ≡ true
run-consistent_example = run-consistent sample_pipeline options start

run-IsRecorded_example :
    IsRecorded (run sample_pipeline options start).0 (run sample_pipeline options start).1.store
run-IsRecorded_example = run-IsRecorded sample_pipeline options start

abbrev messages : List Message
messages = message (codes "work") 1 ∷ message (codes "work") 2 ∷ []

abbrev classified_first : Classification
classified_first = make_failed_classification (message_key (message (codes "work") 1))

record_message-works : NeverFails sample_pipeline noop_dedup
unfolding record_message
record_message-works t m s = ground arith

filter_processed_unknown_example :
    (filter_processed sample_pipeline messages start).0
    ≡ keep (λ m. not (noop_dedup.processed start.store (message_key m))) messages
unfolding already_processed
filter_processed_unknown_example =
    filter_processed_unknown sample_pipeline noop_dedup messages start
      (mark_known (map message_key messages) [] []) refl

record_processed_messages_known_example :
    noop_dedup.processed
      (record_processed_messages sample_pipeline
        (codes "a")
        messages
        (classified_first ∷ [])
        start).1.store
      (message_key (message (codes "work") 1))
    ≡ (noop_dedup.processed start.store (message_key (message (codes "work") 1))
        || (contains (message_key (message (codes "work") 1)) (map message_key messages)
            && contains
                (message_key (message (codes "work") 1))
                (classification_keys (classified_first ∷ []))))
record_processed_messages_known_example =
    record_processed_messages_known sample_pipeline noop_dedup (codes "a") messages
      (classified_first ∷ []) start (message_key (message (codes "work") 1)) record_message-works

abbrev later : World NoopStore
later =
    (record_processed_messages sample_pipeline (codes "a") messages (classified_first ∷ []) start).1

filter_processed-record_processed_messages_example :
    (filter_processed sample_pipeline messages later).0
    ≡ keep
        (λ m. not (
          noop_dedup.processed start.store (message_key m)
          || contains (message_key m) (classification_keys (classified_first ∷ []))))
        messages
unfolding already_processed
filter_processed-record_processed_messages_example =
    filter_processed-record_processed_messages sample_pipeline noop_dedup (codes "a") messages
      (classified_first ∷ []) start (mark_known (map message_key messages) later.store.messages [])
      record_message-works refl

abbrev entries : List MessageEntry
entries = map (entry_of ((message_key (message (codes "work") 1), classified_first) ∷ [])) messages

abbrev failures : Dict Bytes Error
failures = (codes "home", external (codes "connection refused")) ∷ []

build_digest_stats_totals_example :
    (let s = build_digest_stats (λ b. b) messages entries (classified_first ∷ []) [] failures in
      (s.global.read_count + s.global.unread_count ≡ 2)
      × (sum_of (λ (a : AccountStats). a.fetched_count) s.accounts ≡ 2)
      × (sum_of (λ (a : AccountStats). a.classified_count) s.accounts
            + sum_of (λ (a : AccountStats). a.failed_count) s.accounts
          ≡ 2)
      × (sum_of (λ (a : AccountStats). a.failed_count) s.accounts ≡ s.global.failed_count)
      × (total (λ n. n) s.global.counts_by_label ≡ 2)
      × (s.global.accounts_succeeded + s.global.accounts_failed ≡ s.global.accounts_checked))
build_digest_stats_totals_example =
    build_digest_stats_totals (λ b. b) messages entries (classified_first ∷ []) [] failures
