-- ===== src/Examples/Sqlite.antt =====
-- Examples for internal/store/sqlite.go.
use emailer.Store.Sqlite.Summaries.{
  summary_tx, upsert_digest_summary, replace_count_table, insert_counts, insert_count_row,
  has_count,
}
use emailer.Store.Sqlite.Runs.{run_id, insert_run_row}
use emailer.Prelude.Bytes.{index, has_prefix}
use emailer.Prelude.{
  true, is_some, ◌≡◌, ◌≢◌, refl, [], ◌∷◌, Option, none, some, All, ◌⊎◌, keep, list_beq, contains,
}
use emailer.Prelude.Bytes.{Bytes, codes, bytes_eq}
use emailer.Prelude.Int.{pos, negsuc}
use emailer.Errors.{Result, ok, err, external, wrapped, run_not_found}
use emailer.Mail.Types.{Time}
use emailer.Store.{Run, running, completed, RunDigestSummary, DedupLaws}
use emailer.Store.Sqlite.{Driver, Tables, RunRow, CountTable, labels, senders, domains, update_run}
use emailer.Store.Sqlite.Text.{ReadsBack}
use emailer.Store.Sqlite.Runs.{
  record_run, finish_run, get_run, find_row, get_last_successful_run_time, parse_finish,
}
use emailer.Store.Sqlite.Summaries.{
  save_run_digest_summary, load_count_table, find_summary, summary_row, delete_count_rows,
  counts_of,
}
use emailer.Store.Sqlite.Ops.{sqlite_ops}
use emailer.Store.Sqlite.Dedup.{sqlite_dedup}
use emailer.Store.Sqlite.Ledger.{get_run-record_run, find_row-finish_run}
use emailer.Store.Sqlite.Latest.{
  get_last_successful_run_time_greatest, IsFrom, NotAfterText, success_text,
}
use emailer.Store.Sqlite.Snapshots.{save_run_digest_summary_atomic, saved_tables}
use emailer.Store.Sqlite.Loads.{load_count_table-save_run_digest_summary, Readable}

-- A driver on which nothing fails; its text for an instant is a single byte.
abbrev format_byte : Time → Bytes
format_byte (pos n) = n ∷ []
format_byte (negsuc n) = []

abbrev parse_byte : Bytes → Result Time
parse_byte [] = err (external (codes "empty"))
parse_byte (n ∷ s) = ok (pos n)

abbrev driver : Driver
driver = record {
  fault = λ statement t. none;
  constraint_failed = external (codes "constraint failed");
  random = λ t. ok (1 ∷ 2 ∷ 3 ∷ 4 ∷ 5 ∷ 6 ∷ 7 ∷ 8 ∷ 9 ∷ 10 ∷ 11 ∷ 12 ∷ 13 ∷ 14 ∷ 15 ∷ 16 ∷ []);
  format = λ layout t. format_byte t;
  parse = λ layout s. parse_byte s;
}

abbrev done_row : RunRow
done_row = record {
  id = codes "a";
  started_at = 10 ∷ [];
  finished_at = some (20 ∷ []);
  status = completed;
  message_count = 2;
  error = none;
}

abbrev tables : Tables
tables = record {
  runs = done_row ∷ [];
  processed_messages = [];
  flags_applied = [];
  digests = [];
  run_digest_summaries = [];
  label_counts = [];
  sender_counts = [];
  domain_counts = [];
}

abbrev fresh_run : Run
fresh_run = record {
  id = codes "b";
  started_at = pos 30;
  finished_at = none;
  status = running;
  message_count = 0;
  error = none;
}

abbrev snapshot : RunDigestSummary
snapshot = record {
  run_id = codes "a";
  finished_at = pos 20;
  counts_by_label = (codes "Urgent", 2) ∷ (codes "Ads", 0) ∷ [];
  sender_counts = (codes "x@example.org", 1) ∷ [];
  domain_counts = [];
  accounts_failed = 0;
  high_priority_count = 1;
}

sqlite_dedup_example : DedupLaws (sqlite_ops driver)
sqlite_dedup_example = sqlite_dedup driver

fresh_run-ReadsBack : ReadsBack driver (pos 30)
unfolding index has_prefix
fresh_run-ReadsBack = record { parse-format = refl; no_suffix = refl }

fresh_run-accepted : (record_run driver (pos 1) fresh_run tables).0 ≡ ok fresh_run
unfolding record_run run_id insert_run_row find_row list_beq
fresh_run-accepted = refl

get_run-record_run_example :
    (find_row (codes "b") tables.runs ≡ none)
    × (codes "b" ≢ [] → codes "b" ≡ codes "b")
    × (get_run driver (codes "b") (record_run driver (pos 1) fresh_run tables).1 ≡ ok fresh_run)
    × ((j : Bytes)
        → j ≢ codes "b"
        → find_row j (record_run driver (pos 1) fresh_run tables).1.runs ≡ find_row j tables.runs)
get_run-record_run_example =
    get_run-record_run driver (pos 1) fresh_run fresh_run tables fresh_run-ReadsBack
      fresh_run-accepted refl

find_row-finish_run_example :
    (find_row (codes "a") (finish_run driver (pos 40) (codes "b") completed 3 none tables).1.runs
      ≡ find_row (codes "a") tables.runs)
    × (driver.fault update_run tables ≡ none
        → driver.fault update_run tables ≡ none
        → (finish_run driver (pos 40) (codes "b") completed 3 none tables).0
          ≡ some (wrapped (codes "store.FinishRun") run_not_found))
    × ((finish_run driver (pos 40) (codes "b") completed 3 none tables).1 ≡ record tables {
      runs = (finish_run driver (pos 40) (codes "b") completed 3 none tables).1.runs;
    })
    × (is_some (driver.fault update_run tables) ≡ true
        → (is_some (finish_run driver (pos 40) (codes "b") completed 3 none tables).0 ≡ true)
          × ((finish_run driver (pos 40) (codes "b") completed 3 none tables).1 ≡ tables))
unfolding find_row list_beq
find_row-finish_run_example =
    find_row-finish_run driver (pos 40) (codes "b") (codes "a") completed 3 none tables

get_last_successful_run_time_greatest_example :
    (best : Option Bytes) × (get_last_successful_run_time driver tables
      ≡ parse_finish driver (codes "store.GetLastSuccessfulRunTime: parse") best)
    × IsFrom best none tables.runs
    × All (λ r. NotAfterText (success_text r) best) tables.runs
get_last_successful_run_time_greatest_example =
    get_last_successful_run_time_greatest driver tables refl

save_run_digest_summary_atomic_example :
    (((save_run_digest_summary driver snapshot tables).0 ≢ none)
      × ((save_run_digest_summary driver snapshot tables).1 ≡ tables))
    ⊎ (((save_run_digest_summary driver snapshot tables).0 ≡ none)
        × ((save_run_digest_summary driver snapshot tables).1
            ≡ saved_tables driver snapshot tables))
save_run_digest_summary_atomic_example = save_run_digest_summary_atomic driver snapshot tables

abbrev after_save : Tables
after_save = saved_tables driver snapshot tables

saved : save_run_digest_summary driver snapshot tables ≡ (none, after_save)
unfolding save_run_digest_summary summary_tx upsert_digest_summary replace_count_table insert_counts
    insert_count_row has_count list_beq delete_count_rows keep
saved = refl

load_count_table-save_run_digest_summary_example :
    (Readable driver labels after_save
      → load_count_table driver labels (codes "a") after_save ≡ ok ((codes "Urgent", 2) ∷ []))
    × (Readable driver senders after_save
        → load_count_table driver senders (codes "a") after_save
          ≡ ok ((codes "x@example.org", 1) ∷ []))
    × (Readable driver domains after_save
        → load_count_table driver domains (codes "a") after_save ≡ ok [])
    × (find_summary (codes "a") after_save.run_digest_summaries
        ≡ some (summary_row driver snapshot))
    × ((j : Bytes)
        → codes "a" ≢ j
        → find_summary j after_save.run_digest_summaries
          ≡ find_summary j tables.run_digest_summaries)
    × ((table : CountTable)
        → delete_count_rows (codes "a") (counts_of table after_save)
          ≡ delete_count_rows (codes "a") (counts_of table tables))
unfolding keep contains list_beq
load_count_table-save_run_digest_summary_example =
    load_count_table-save_run_digest_summary driver snapshot tables after_save (refl, (refl, tt))
      (refl, tt) tt saved
