-- ===== src/Store/Sqlite/Runs.antt =====
-- internal/store/sqlite.go: the ledger of runs. Each statement is written as what its SQL does to
-- the rows; rows that an ORDER BY holds equal come in the order of the table.
use emailer.Prelude.{
  ℕ, Bool, true, false, List, [], ◌∷◌, ◌++◌, Option, none, some, take, ◌==◌, if◌then◌else◌,
}
use emailer.Prelude.Bytes.{Bytes, codes, bytes_eq}
use emailer.Prelude.Int.{ℤ, pos, leb_ℤ, pos_part}
use emailer.Errors.{Error, Result, ok, err, wrapped, run_not_found}
use emailer.Mail.Types.{Time}
use emailer.Store.{RunStatus, Run}
use emailer.Store.Noop.{is_zero, default_status, is_completed}
use emailer.Store.Sqlite.{
  RunRow, Tables, Driver, insert_run, update_run, rows_affected, select_run, select_runs, scan_runs,
  rows_runs, select_last, guarded, format_time, parse_time, generate_id, text_lt,
}

-- SELECT ... FROM runs WHERE id = ?, for the one row of a primary key.
unfoldable pub find_row : Bytes → List RunRow → Option RunRow
find_row id [] = none
find_row id (r ∷ rs) = if r.id == id then some r else find_row id rs

-- The row that RecordRun inserts; finished_at is NULL.
unfoldable pub row_of : Driver → Run → RunRow
unfolding format_time
row_of db r = record {
  id = r.id;
  started_at = format_time db r.started_at;
  finished_at = none;
  status = r.status;
  message_count = r.message_count;
  error = r.error;
}

-- INSERT INTO runs: a row whose primary key is there is refused.
unfoldable pub insert_run_row : Driver → Run → Tables → Result Tables
unfolding find_row row_of
insert_run_row db r t =
    guarded (db.fault insert_run t) (codes "store.RecordRun: exec") (elim (find_row r.id t.runs) [
      | some old ↦ err (wrapped (codes "store.RecordRun: exec") db.constraint_failed)
      | none ↦ ok (record t { runs = t.runs ++ row_of db r ∷ [] })
    ])

-- The identifier of the run: the given one, or a new one.
unfoldable pub run_id : Driver → Run → Tables → Result Bytes
unfolding generate_id
run_id db r t =
    if r.id == []
    then (elim (generate_id db t) [
      | err e ↦ err (wrapped (codes "store.RecordRun: generate id") e)
      | ok id ↦ ok id
    ])
    else ok r.id

abbrev pub started_run : Time → Bytes → Run → Run
started_run now id r = record r {
  id = id;
  started_at = if is_zero r.started_at then now else r.started_at;
  status = default_status r.status;
}

unfoldable pub record_run : Driver → Time → Run → Tables → Result Run × Tables
unfolding run_id insert_run_row
record_run db now r t = elim (run_id db r t) [
  | err e ↦ (err e, t)
  | ok id ↦ elim (insert_run_row db (started_run now id r) t) [
    | err e ↦ (err e, t)
    | ok t' ↦ (ok (started_run now id r), t')
  ]
]

-- UPDATE runs SET ... WHERE id = ?
unfoldable pub update_rows :
    Bytes → RunStatus → ℕ → Option Error → Bytes → List RunRow → List RunRow
update_rows now status count e id [] = []
update_rows now status count e id (r ∷ rs) =
    (if r.id == id
      then record r { finished_at = some now; status = status; message_count = count; error = e }
      else r)
    ∷ update_rows now status count e id rs

-- result.RowsAffected() == 0
unfoldable pub no_row : Bytes → List RunRow → Bool
no_row id [] = true
no_row id (r ∷ rs) = let rest = no_row id rs in if r.id == id then false else rest

unfoldable pub finish_run :
    Driver → Time → Bytes → RunStatus → ℕ → Option Error → Tables → Option Error × Tables
unfolding update_rows no_row format_time
finish_run db now id status count e t = elim (db.fault update_run t) [
  | some f ↦ (some (wrapped (codes "store.FinishRun: exec") f), t)
  | none ↦
      let t' : Tables = record t {
        runs = update_rows (format_time db now) status count e id t.runs;
      } in
      elim (db.fault rows_affected t) [
        | some f ↦ (some (wrapped (codes "store.FinishRun: rows affected") f), t')
        | none ↦
            if no_row id t.runs
            then (some (wrapped (codes "store.FinishRun") run_not_found), t')
            else (none, t')
      ]
]

-- The text of finished_at, where it is not NULL.
abbrev pub parse_finish : Driver → Bytes → Option Bytes → Result (Option Time)
parse_finish db what none = ok none
parse_finish db what (some s) = elim (parse_time db s) [
  | err e ↦ err (wrapped what e)
  | ok t ↦ ok (some t)
]

-- A scanned row as a run; the texts of the wrapped errors are those of the calling method.
unfoldable pub run_of_row : Driver → Bytes → Bytes → RunRow → Result Run
unfolding parse_time
run_of_row db bad_start bad_finish r = elim (parse_time db r.started_at) [
  | err e ↦ err (wrapped bad_start e)
  | ok start ↦ elim (parse_finish db bad_finish r.finished_at) [
    | err e ↦ err e
    | ok finish ↦ ok (record {
      id = r.id;
      started_at = start;
      finished_at = finish;
      status = r.status;
      message_count = r.message_count;
      error = r.error;
    })
  ]
]

unfoldable pub get_run : Driver → Bytes → Tables → Result Run
unfolding find_row run_of_row
get_run db id t =
    guarded (db.fault select_run t) (codes "store.GetRun: scan") (elim (find_row id t.runs) [
      | none ↦ err (wrapped (codes "store.GetRun") run_not_found)
      | some r ↦
          run_of_row db (codes "store.GetRun: parse started_at")
            (codes "store.GetRun: parse finished_at") r
    ])

-- ORDER BY started_at DESC
unfoldable pub insert_desc : RunRow → List RunRow → List RunRow
unfolding text_lt
insert_desc r [] = r ∷ []
insert_desc r (x ∷ xs) =
    let rest = insert_desc r xs in
    if text_lt x.started_at r.started_at then r ∷ x ∷ xs else x ∷ rest

unfoldable pub sort_desc : List RunRow → List RunRow → List RunRow
unfolding insert_desc
sort_desc sorted [] = sorted
sort_desc sorted (r ∷ rs) = sort_desc (insert_desc r sorted) rs

-- The loop over the rows of ListRuns.
unfoldable pub scan_all : Driver → Tables → List RunRow → Result (List Run)
unfolding run_of_row
scan_all db t [] = ok []
scan_all db t (r ∷ rs) =
    let later = scan_all db t rs in
    guarded (db.fault scan_runs t) (codes "store.ListRuns: scan")
      (elim (run_of_row db (codes "store.ListRuns: parse started_at")
        (codes "store.ListRuns: parse finished_at") r) [
          | err e ↦ err e
          | ok run ↦ elim later [ err e ↦ err e | ok runs ↦ ok (run ∷ runs) ]
        ])

unfoldable pub list_runs : Driver → ℤ → Tables → Result (List Run)
unfolding scan_all sort_desc
list_runs db limit t =
    let n : ℕ = if leb_ℤ limit (pos 0) then 10 else pos_part limit in
    guarded (db.fault select_runs t) (codes "store.ListRuns: query")
      (elim (scan_all db t (take n (sort_desc [] t.runs))) [
        | err e ↦ err e
        | ok runs ↦ guarded (db.fault rows_runs t) (codes "store.ListRuns: rows") (ok runs)
      ])

-- The greatest finished_at of the completed runs, as ORDER BY finished_at DESC LIMIT 1 finds it.
unfoldable pub greater_text : Bool → Option Bytes → Option Bytes → Option Bytes
unfolding text_lt
greater_text done best none = best
greater_text done none (some s) = if done then some s else none
greater_text done (some b) (some s) =
    if done then (if text_lt b s then some s else some b) else some b

unfoldable pub greatest_finish : Option Bytes → List RunRow → Option Bytes
unfolding greater_text
greatest_finish best [] = best
greatest_finish best (r ∷ rs) =
    greatest_finish (greater_text (is_completed r.status) best r.finished_at) rs

unfoldable pub get_last_successful_run_time : Driver → Tables → Result (Option Time)
unfolding greatest_finish parse_time
get_last_successful_run_time db t =
    guarded (db.fault select_last t) (codes "store.GetLastSuccessfulRunTime: scan") (
      parse_finish db (codes "store.GetLastSuccessfulRunTime: parse") (greatest_finish none t.runs))
