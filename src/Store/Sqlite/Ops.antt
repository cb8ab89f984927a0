-- ===== src/Store/Sqlite/Ops.antt =====
-- internal/store/sqlite.go: *SQLiteStore as an implementation of the interface `Store`.
use emailer.Store.{StoreOps}
use emailer.Store.Sqlite.{Tables, Driver}
use emailer.Store.Sqlite.Runs.{
  record_run, finish_run, get_run, list_runs, get_last_successful_run_time,
}
use emailer.Store.Sqlite.Messages.{record_message, already_processed, record_flag, record_digest}
use emailer.Store.Sqlite.Summaries.{save_run_digest_summary, get_previous_run_digest_summary}

abbrev pub sqlite_ops : Driver → StoreOps Tables
sqlite_ops db = record {
  record_run = record_run db;
  finish_run = finish_run db;
  get_run = get_run db;
  list_runs = list_runs db;
  get_last_successful_run_time = get_last_successful_run_time db;
  record_message = record_message db;
  already_processed = already_processed db;
  record_flag = record_flag db;
  record_digest = record_digest db;
  save_run_digest_summary = save_run_digest_summary db;
  get_previous_run_digest_summary = get_previous_run_digest_summary db;
}
