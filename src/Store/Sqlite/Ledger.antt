-- ===== src/Store/Sqlite/Ledger.antt =====
-- The ledger of runs in the database: the identifiers, a run's life, and the latest success.
use emailer.Prelude.{
  ℕ, ◌≡◌, refl, ap, ◌∙◌, List, [], ◌∷◌, ◌++◌, Option, none, some, arith, if◌then◌else◌, ◌==◌,
  nat_eq, is_some, not, ◌&&◌, ◌≢◌, true,
}
use emailer.Prelude.Bytes.{Bytes, codes, bytes_eq}
use emailer.Errors.{Error, ok, wrapped, run_not_found}
use emailer.Mail.Types.{Time}
use emailer.Store.{RunStatus, Run}
use emailer.Store.Sqlite.{
  RunRow, Tables, Driver, format_time, select_run, update_run, rows_affected,
}
use emailer.Store.Sqlite.Text.{ReadsBack, parse_time-format_time}
use emailer.Store.Sqlite.Runs.{
  find_row, row_of, insert_run_row, run_id, started_run, record_run, update_rows, no_row,
  finish_run, run_of_row, get_run,
}

abbrev pub updated : Bytes → RunStatus → ℕ → Option Error → Option RunRow → Option RunRow
updated now status count e none = none
updated now status count e (some r) =
    some (record r { finished_at = some now; status = status; message_count = count; error = e })

find_row-append :
    (j : Bytes) (rs : List RunRow) (r : RunRow)
    → find_row j (rs ++ r ∷ [])
      ≡ (if is_some (find_row j rs) then find_row j rs else if r.id == j then some r else none)
unfolding find_row
find_row-append j [] r = ground arith
find_row-append j (x ∷ rs) r = ground (arith, find_row-append j rs r)

insert_run_row_lem :
    (db : Driver) (r : Run) (t t' : Tables)
    → insert_run_row db r t ≡ ok t'
    → (find_row r.id t.runs ≡ none) × (t'.runs ≡ t.runs ++ row_of db r ∷ [])
unfolding insert_run_row
insert_run_row_lem db r t t' e = ground arith

record_run_lem :
    (db : Driver) (now : Time) (r r' : Run) (t : Tables)
    → (record_run db now r t).0 ≡ ok r'
    → (insert_run_row db r' t ≡ ok (record_run db now r t).1)
      × (run_id db r t ≡ ok r'.id)
      × (r' ≡ started_run now r'.id r)
unfolding record_run
record_run_lem db now r r' t e = ground arith

run_id-given :
    (db : Driver) (r : Run) (t : Tables) (id : Bytes)
    → r.id ≢ []
    → run_id db r t ≡ ok id
    → id ≡ r.id
unfolding run_id
run_id-given db r t id given e = ground (arith, bytes_eq.test_iff r.id [])

-- A row that was just inserted, read back.
get_run-of_row :
    (db : Driver) (r : Run) (t : Tables)
    → ReadsBack db r.started_at
    → db.fault select_run t ≡ none
    → find_row r.id t.runs ≡ some (row_of db r)
    → get_run db r.id t ≡ ok (record r { finished_at = none })
unfolding get_run run_of_row row_of
get_run-of_row db r t reads alive e = ground (arith, parse_time-format_time db r.started_at reads)

-- A run that RecordRun accepted has an identifier that was not in the ledger, the one that it came
-- with unless that was empty. GetRun then gives the run back as it was returned, with no finish,
-- where its start reads back and the query does not fail; every other lookup in the table is
-- as before.
pub get_run-record_run :
    (db : Driver) (now : Time) (r r' : Run) (t : Tables)
    → ReadsBack db r'.started_at
    → (record_run db now r t).0 ≡ ok r'
    → db.fault select_run (record_run db now r t).1 ≡ none
    → (find_row r'.id t.runs ≡ none)
      × (r.id ≢ [] → r'.id ≡ r.id)
      × (get_run db r'.id (record_run db now r t).1 ≡ ok (record r' { finished_at = none }))
      × ((j : Bytes) → j ≢ r'.id → find_row j (record_run db now r t).1.runs ≡ find_row j t.runs)
unfolding row_of
get_run-record_run db now r r' t reads e alive =
    let (inserted, named, shape) = record_run_lem db now r r' t e in
    let (fresh, rows) = insert_run_row_lem db r' t (record_run db now r t).1 inserted in
    let found : (j : Bytes)
        → find_row j (record_run db now r t).1.runs ≡ (
            if is_some (find_row j t.runs)
            then find_row j t.runs
            else if r'.id == j
            then some (row_of db r')
            else none) =
      λ j. ap (find_row j) rows ∙ find_row-append j t.runs (row_of db r') in
    (
      fresh,
      λ given. run_id-given db r t r'.id given named,
      get_run-of_row db r' (record_run db now r t).1 reads alive
          (ground (arith, found r'.id, bytes_eq.test_iff r'.id r'.id)),
      λ j other. ground (arith, found j, bytes_eq.test_iff r'.id j),
    )

find_row-update_rows :
    (now : Bytes) (status : RunStatus) (count : ℕ) (e : Option Error) (id j : Bytes)
    (rs : List RunRow)
    → (find_row j (update_rows now status count e id rs)
        ≡ (if j == id then updated now status count e (find_row j rs) else find_row j rs))
unfolding find_row update_rows
find_row-update_rows now status count e id j [] = ground arith
find_row-update_rows now status count e id j (r ∷ rs) = ground (
  arith,
  find_row-update_rows now status count e id j rs,
  bytes_eq.test_iff r.id id,
  bytes_eq.test_iff r.id j,
  bytes_eq.test_iff j id,
)

no_row-find_row : (id : Bytes) (rs : List RunRow) → no_row id rs ≡ not (is_some (find_row id rs))
unfolding no_row find_row
no_row-find_row id [] = refl
no_row-find_row id (r ∷ rs) = ground (arith, no_row-find_row id rs)

-- FinishRun in the database: without a failing statement it returns ErrRunNotFound exactly when the
-- ledger has no such run. Unless the update itself failed, a lookup afterwards gives what it gave
-- before, except that the finished run has the new finish, status, count and error. No other table
-- changes; if the update failed, there is an error and no table changes at all.
pub find_row-finish_run :
    (db : Driver) (now : Time) (id j : Bytes) (status : RunStatus) (count : ℕ) (e : Option Error)
    (t : Tables)
    → (find_row j (finish_run db now id status count e t).1.runs ≡ (
        if not (is_some (db.fault update_run t)) && j == id
        then updated (format_time db now) status count e (find_row j t.runs)
        else find_row j t.runs))
      × (db.fault update_run t ≡ none
          → db.fault rows_affected t ≡ none
          → (finish_run db now id status count e t).0 ≡ (
              if is_some (find_row id t.runs)
              then none
              else some (wrapped (codes "store.FinishRun") run_not_found)))
      × ((finish_run db now id status count e t).1
          ≡ record t { runs = (finish_run db now id status count e t).1.runs })
      × (is_some (db.fault update_run t) ≡ true
          → (is_some (finish_run db now id status count e t).0 ≡ true)
            × ((finish_run db now id status count e t).1 ≡ t))
unfolding finish_run
find_row-finish_run db now id j status count e t = ground (
  arith,
  find_row-update_rows (format_time db now) status count e id j t.runs,
  no_row-find_row id t.runs,
)
