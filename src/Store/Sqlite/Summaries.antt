-- ===== src/Store/Sqlite/Summaries.antt =====
-- internal/store/sqlite.go: the digest snapshots. A transaction works on its own tables, which are
-- the database's after the commit; an error before it rolls back.
use emailer.Prelude.{
  ℕ, Bool, true, false, ◌&&◌, List, [], ◌∷◌, ◌++◌, Option, none, some, ◌==◌, nat_beq, keep, not,
  if◌then◌else◌,
}
use emailer.Prelude.Bytes.{Bytes, codes, bytes_eq}
use emailer.Prelude.Dict.{Dict, put}
use emailer.Errors.{Error, Result, ok, err, wrapped}
use emailer.Mail.Types.{Time}
use emailer.Store.{RunDigestSummary}
use emailer.Store.Noop.{is_completed}
use emailer.Store.Sqlite.{
  RunRow, SummaryRow, CountRow, CountTable, labels, senders, domains, Tables, Driver, begin_tx,
  upsert_summary, commit, select_current, select_previous, delete_counts, select_counts,
  scan_counts, rows_counts, insert_count, guarded, format_time, parse_time, text_lt,
}
use emailer.Store.Sqlite.Runs.{find_row}

abbrev pub counts_of : CountTable → Tables → List CountRow
counts_of labels t = t.label_counts
counts_of senders t = t.sender_counts
counts_of domains t = t.domain_counts

abbrev pub with_counts : CountTable → List CountRow → Tables → Tables
with_counts labels rows t = record t { label_counts = rows }
with_counts senders rows t = record t { sender_counts = rows }
with_counts domains rows t = record t { domain_counts = rows }

unfoldable pub table_name : CountTable → Bytes
table_name labels = codes "labels"
table_name senders = codes "senders"
table_name domains = codes "domains"

-- INSERT INTO run_digest_summaries ... ON CONFLICT(run_id) DO UPDATE
unfoldable pub upsert_row : SummaryRow → List SummaryRow → List SummaryRow
upsert_row row [] = row ∷ []
upsert_row row (r ∷ rs) =
    let rest = upsert_row row rs in if r.run_id == row.run_id then row ∷ rs else r ∷ rest

unfoldable pub summary_row : Driver → RunDigestSummary → SummaryRow
unfolding format_time
summary_row db s = record {
  run_id = s.run_id;
  finished_at = format_time db s.finished_at;
  accounts_failed = s.accounts_failed;
  high_priority_count = s.high_priority_count;
  payload_json = codes "{}";
}

unfoldable pub upsert_digest_summary : Driver → RunDigestSummary → Tables → Result Tables
unfolding upsert_row summary_row
upsert_digest_summary db s t =
    guarded (db.fault upsert_summary t) (codes "store.SaveRunDigestSummary: upsert summary") (
      ok (record t { run_digest_summaries = upsert_row (summary_row db s) t.run_digest_summaries }))

abbrev pub is_count_of : Bytes → Bytes → CountRow → Bool
is_count_of id name r = r.run_id == id && r.name == name

unfoldable pub has_count : Bytes → Bytes → List CountRow → Bool
has_count id name [] = false
has_count id name (r ∷ rs) =
    let rest = has_count id name rs in if is_count_of id name r then true else rest

-- INSERT INTO a count table, under its primary key. The error's text names the row as well.
unfoldable pub insert_count_row : Driver → CountTable → CountRow → Tables → Result Tables
unfolding has_count table_name
insert_count_row db table row t =
    let what = codes "store.SaveRunDigestSummary: ins " ++ table_name table in
    guarded (db.fault (insert_count table row.name) t) what (
      if has_count row.run_id row.name (counts_of table t)
      then err (wrapped what db.constraint_failed)
      else ok (with_counts table (counts_of table t ++ row ∷ []) t))

-- The loop over the map of counts, which skips what is not positive. A count is a Go int; the counts
-- of a summary are numbers of messages, so that 0 is the only one that is skipped.
unfoldable pub insert_counts :
    Driver → CountTable → Bytes → Dict Bytes ℕ → Result Tables → Result Tables
unfolding insert_count_row
insert_counts db table id counts (err e) = err e
insert_counts db table id [] (ok t) = ok t
insert_counts db table id ((name, count) ∷ counts) (ok t) = insert_counts db table id counts (
    if nat_beq count 0
    then ok t
    else insert_count_row db table (record { run_id = id; name = name; count = count }) t)

-- DELETE FROM a count table WHERE run_id = ?
unfoldable pub delete_count_rows : Bytes → List CountRow → List CountRow
delete_count_rows id rows = keep (λ r. not (r.run_id == id)) rows

unfoldable pub replace_count_table :
    Driver → CountTable → Bytes → Dict Bytes ℕ → Tables → Result Tables
unfolding insert_counts delete_count_rows table_name
replace_count_table db table id counts t = insert_counts db table id counts (
    guarded (db.fault (delete_counts table) t)
      (codes "store.SaveRunDigestSummary: del " ++ table_name table)
      (ok (with_counts table (delete_count_rows id (counts_of table t)) t)))

abbrev pub and_then : Result Tables → (Tables → Result Tables) → Result Tables
and_then (err e) f = err e
and_then (ok t) f = f t

-- The body of the transaction, up to the commit.
unfoldable pub summary_tx : Driver → RunDigestSummary → Tables → Result Tables
unfolding upsert_digest_summary replace_count_table
summary_tx db s t = and_then (upsert_digest_summary db s t) (λ t1.
    and_then (replace_count_table db labels s.run_id s.counts_by_label t1) (λ t2.
      and_then (replace_count_table db senders s.run_id s.sender_counts t2)
        (λ t3. replace_count_table db domains s.run_id s.domain_counts t3)))

unfoldable pub save_run_digest_summary : Driver → RunDigestSummary → Tables → Option Error × Tables
unfolding summary_tx
save_run_digest_summary db s t = elim (db.fault begin_tx t) [
  | some e ↦ (some (wrapped (codes "store.SaveRunDigestSummary: begin tx") e), t)
  | none ↦ elim (summary_tx db s t) [
    | err e ↦ (some e, t)
    | ok t' ↦ elim (db.fault commit t') [
      | some e ↦ (some (wrapped (codes "store.SaveRunDigestSummary: commit") e), t)
      | none ↦ (none, t')
    ]
  ]
]

-- The loop over the rows of a count table of the run.
unfoldable pub scan_counts_of :
    Driver → CountTable → Bytes → Tables → List CountRow → Dict Bytes ℕ → Result (Dict Bytes ℕ)
scan_counts_of db table id t [] found = ok found
scan_counts_of db table id t (r ∷ rs) found =
    let later =
      scan_counts_of db table id t rs
        (if r.run_id == id then put r.name r.count found else found) in
    if r.run_id == id
    then (elim (db.fault (scan_counts table) t) [ some e ↦ err e | none ↦ later ])
    else later

unfoldable pub load_count_table : Driver → CountTable → Bytes → Tables → Result (Dict Bytes ℕ)
unfolding scan_counts_of
load_count_table db table id t = elim (db.fault (select_counts table) t) [
  | some e ↦ err e
  | none ↦ elim (scan_counts_of db table id t (counts_of table t) []) [
    | err e ↦ err e
    | ok found ↦ elim (db.fault (rows_counts table) t) [ some e ↦ err e | none ↦ ok found ]
  ]
]

-- The snapshot of a run: JOIN runs r ON r.id = s.run_id, from the side of the run.
unfoldable pub find_summary : Bytes → List SummaryRow → Option SummaryRow
find_summary id [] = none
find_summary id (s ∷ ss) = if s.run_id == id then some s else find_summary id ss

-- The finish of a run that qualifies: r.status = 'completed' AND r.finished_at < ?
unfoldable pub prior_finish : Bytes → RunRow → Option Bytes
unfolding text_lt
prior_finish before r = elim r.finished_at [
  | none ↦ none
  | some f ↦ if is_completed r.status && text_lt f before then some f else none
]

-- The row so far with its run's finish, against one more.
unfoldable pub later_row :
    Option (SummaryRow × Bytes) → Option Bytes → Option SummaryRow → Option (SummaryRow × Bytes)
unfolding text_lt
later_row best none s = best
later_row best (some f) none = best
later_row none (some f) (some s) = some (s, f)
later_row (some (b, g)) (some f) (some s) = if text_lt g f then some (s, f) else some (b, g)

-- ORDER BY r.finished_at DESC LIMIT 1
unfoldable pub previous_row :
    Bytes
    → List SummaryRow
    → Option (SummaryRow × Bytes)
    → List RunRow
    → Option (SummaryRow × Bytes)
unfolding prior_finish later_row find_summary
previous_row before summaries best [] = best
previous_row before summaries best (r ∷ rs) =
    previous_row before summaries
      (later_row best (prior_finish before r) (find_summary r.id summaries)) rs

-- The three loads and the summary that they fill.
unfoldable pub load_summary : Driver → SummaryRow → Tables → Result (Option RunDigestSummary)
unfolding load_count_table parse_time
load_summary db s t = elim (parse_time db s.finished_at) [
  | err e ↦ err (wrapped (codes "store.GetPreviousRunDigestSummary: parse finished_at") e)
  | ok finished ↦ elim (load_count_table db labels s.run_id t) [
    | err e ↦ err (wrapped (codes "store.GetPreviousRunDigestSummary: load labels") e)
    | ok by_label ↦ elim (load_count_table db senders s.run_id t) [
      | err e ↦ err (wrapped (codes "store.GetPreviousRunDigestSummary: load senders") e)
      | ok by_sender ↦ elim (load_count_table db domains s.run_id t) [
        | err e ↦ err (wrapped (codes "store.GetPreviousRunDigestSummary: load domains") e)
        | ok by_domain ↦ ok (
            some (record {
              run_id = s.run_id;
              finished_at = finished;
              counts_by_label = by_label;
              sender_counts = by_sender;
              domain_counts = by_domain;
              accounts_failed = s.accounts_failed;
              high_priority_count = s.high_priority_count;
            }))
      ]
    ]
  ]
]

-- The instant before which the earlier run has to have finished.
unfoldable pub current_finish : Driver → Time → RunRow → Result Time
unfolding parse_time
current_finish db now r = elim r.finished_at [
  | none ↦ ok now
  | some f ↦ elim (parse_time db f) [
    | err e ↦ err (wrapped (codes "store.GetPreviousRunDigestSummary: parse current finished_at") e)
    | ok at ↦ ok at
  ]
]

abbrev pub load_found :
    Driver → Tables → Option (SummaryRow × Bytes) → Result (Option RunDigestSummary)
load_found db t none = ok none
load_found db t (some (s, f)) = load_summary db s t

unfoldable pub get_previous_run_digest_summary :
    Driver → Time → Bytes → Tables → Result (Option RunDigestSummary)
unfolding previous_row load_summary current_finish find_row format_time
get_previous_run_digest_summary db now before t =
    guarded (db.fault select_current t) (codes "store.GetPreviousRunDigestSummary: get current run")
      (elim (find_row before t.runs) [
        | none ↦ ok none
        | some r ↦ elim (current_finish db now r) [
          | err e ↦ err e
          | ok at ↦
              guarded (db.fault select_previous t)
                (codes "store.GetPreviousRunDigestSummary: scan summary")
                (load_found db t
                  (previous_row (format_time db at) t.run_digest_summaries none t.runs))
        ]
      ])
