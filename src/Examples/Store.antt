-- ===== src/Examples/Store.antt =====
-- Examples for internal/store.
use emailer.Prelude.{◌≡◌, refl, true, [], ◌∷◌, Option, none, some, All}
use emailer.Prelude.Bytes.{codes, bytes_eq}
use emailer.Prelude.Int.{pos}
use emailer.Errors.{ok}
use emailer.Mail.Types.{MessageKey, Time, key_eq}
use emailer.Store.{
  Run, running, completed, degraded, ProcessedMessage, processed_key, FlagRecord, RunDigestSummary,
}
use emailer.Store.Noop.{
  NoopStore, new_noop_store, noop_run_id, record_run, filled_run, find_run, get_run,
  get_last_successful_run_time,
}
use emailer.Store.Noop.Runs.{
  IsGenerated, success_time, NotAfter, ComesFrom, record_run_fresh,
  get_last_successful_run_time_latest,
}

abbrev open_run : Run
open_run = record {
  id = [];
  started_at = pos 10;
  finished_at = none;
  status = running;
  message_count = 0;
  error = none;
}

abbrev done_run : Run
done_run = record open_run { id = codes "a"; finished_at = some (pos 20); status = completed }

abbrev late_run : Run
late_run = record open_run { id = codes "b"; finished_at = some (pos 30); status = degraded }

abbrev active_run : Run
active_run = record open_run { id = codes "c" }

abbrev summary : RunDigestSummary
summary = record {
  run_id = codes "a";
  finished_at = pos 20;
  counts_by_label = [];
  sender_counts = [];
  domain_counts = [];
  accounts_failed = 0;
  high_priority_count = 1;
}

abbrev processed_message : ProcessedMessage
processed_message = record {
  run_id = codes "a";
  account_label = codes "work";
  uid = 7;
  is_read = true;
  classification = codes "Urgent";
  digest_excerpt = [];
  processed_at = pos 19;
}

abbrev flag : FlagRecord
flag = record { account_label = codes "work"; uid = 7; flag = codes "Urgent"; applied_at = pos 19 }

abbrev used_store : NoopStore
used_store = record {
  runs = done_run ∷ late_run ∷ active_run ∷ [];
  messages = (processed_key processed_message, processed_message) ∷ [];
  flags = flag ∷ [];
  digests = [];
  digest_summaries = (codes "a", summary) ∷ [];
  next_id = 0;
}

abbrev key8 : MessageKey
key8 = record { account_label = codes "work"; uid = 8 }

record_run_fresh_example :
    (find_run (noop_run_id 1) [] ≡ none)
    × ((record_run (pos 5) open_run new_noop_store).0 ≡ ok (filled_run (pos 5) 1 open_run))
    × (get_run (noop_run_id 1) (record_run (pos 5) open_run new_noop_store).1
        ≡ (record_run (pos 5) open_run new_noop_store).0)
    × IsGenerated (record_run (pos 5) open_run new_noop_store).1
record_run_fresh_example = record_run_fresh (pos 5) open_run new_noop_store tt refl

get_last_successful_run_time_latest_example :
    (latest : Option Time) × (get_last_successful_run_time used_store ≡ ok latest)
    × ComesFrom latest none used_store.runs
    × All (λ r. NotAfter (success_time r) latest) used_store.runs
get_last_successful_run_time_latest_example = get_last_successful_run_time_latest used_store

abbrev other_flag : FlagRecord
other_flag = record flag { uid = 8 }
