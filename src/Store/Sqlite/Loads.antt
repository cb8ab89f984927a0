-- ===== src/Store/Sqlite/Loads.antt =====
-- Reading the digest snapshots of the database back.
use emailer.Prelude.{eq_refl}
use emailer.Prelude.{
  ℕ, ◌≡◌, ◌≢◌, refl, sym, ap, ◌∙◌, false, List, [], ◌∷◌, ◌++◌, inl, inr, none, some, arith,
  if◌then◌else◌, ◌==◌, nat_eq, nat_beq, Bool-cases, All, AllDistinct, contains, map, keep,
}
use mathlib.Core.List.{append_assoc, append-nil}
use emailer.Prelude.Bytes.{Bytes, bytes_eq}
use emailer.Prelude.Dict.{Dict, get, put, get-put}
use emailer.Errors.{ok}
use emailer.Store.{RunDigestSummary}
use emailer.Store.Sqlite.{
  SummaryRow, CountRow, CountTable, labels, senders, domains, Tables, Driver, select_counts,
  scan_counts, rows_counts,
}
use emailer.Store.Sqlite.Summaries.{
  counts_of, upsert_row, summary_row, delete_count_rows, save_run_digest_summary, scan_counts_of,
  load_count_table, find_summary,
}
use emailer.Store.Sqlite.Snapshots.{
  is_positive, count_row, count_rows, replaced, saved_tables, save_run_digest_summary_atomic,
}

abbrev pub names : Dict Bytes ℕ → List Bytes
names counts = map (λ p. p.0) counts

put-fresh : (k : Bytes) (v : ℕ) (m : Dict Bytes ℕ) → get k m ≡ none → put k v m ≡ m ++ (k, v) ∷ []
unfolding get put
put-fresh k v [] e = refl
put-fresh k v ((j, w) ∷ m) e = ground (arith, put-fresh k v m)

-- None of the names of `counts` is in the map so far.
abbrev Fresh : Dict Bytes ℕ → Dict Bytes ℕ → Type 0
Fresh found counts = All (λ p. get p.0 found ≡ none) counts

Fresh-put :
    (name : Bytes) (v : ℕ) (found counts : Dict Bytes ℕ)
    → contains name (names counts) ≡ false
    → Fresh found counts
    → Fresh (put name v found) counts
unfolding contains
Fresh-put name v found [] n h = tt
Fresh-put name v found ((m, c) ∷ counts) n (h, hs) = (
  ground (arith, get-put name m v found, bytes_eq.test_iff name m, bytes_eq.test_iff m name),
  Fresh-put name v found counts (ground arith) hs,
)

Fresh-nil : (counts : Dict Bytes ℕ) → Fresh [] counts
unfolding get
Fresh-nil [] = tt
Fresh-nil (p ∷ counts) = (refl, Fresh-nil counts)

module _ (db : Driver) (table : CountTable) (id : Bytes) (t : Tables)
    (alive : db.fault (scan_counts table) t ≡ none) where
  scan-deleted :
      (rows more : List CountRow) (found : Dict Bytes ℕ)
      → scan_counts_of db table id t (delete_count_rows id rows ++ more) found
        ≡ scan_counts_of db table id t more found
  unfolding delete_count_rows keep scan_counts_of
  scan-deleted [] more found = refl
  scan-deleted (r ∷ rs) more found = elim (Bool-cases (r.run_id == id)) [
    | inl own ↦ rw own (scan-deleted rs more found)
    | inr other ↦ rw (other, other) (scan-deleted rs more found)
  ]

  scan-own :
      (name : Bytes) (count : ℕ) (rows : List CountRow) (found : Dict Bytes ℕ)
      → scan_counts_of db table id t (count_row id (name, count) ∷ rows) found
        ≡ scan_counts_of db table id t rows (put name count found)
  unfolding scan_counts_of
  scan-own name count rows found = ground (arith, eq_refl id, alive)

  scan-none :
      (found : Dict Bytes ℕ)
      → scan_counts_of db table id t (count_rows id []) found ≡ ok (found ++ keep is_positive [])
  unfolding scan_counts_of keep
  scan-none found = ap ok (sym (append-nil found))

  keep-positive :
      (name : Bytes) (count : ℕ) (counts : Dict Bytes ℕ)
      → keep is_positive ((name, count) ∷ counts) ≡ (
          if nat_beq count 0
          then keep is_positive counts
          else (name, count) ∷ keep is_positive counts)
  unfolding keep
  keep-positive name count counts = ground arith

  scan-count_rows :
      (counts found : Dict Bytes ℕ)
      → AllDistinct (names counts)
      → Fresh found counts
      → scan_counts_of db table id t (count_rows id counts) found
        ≡ ok (found ++ keep is_positive counts)
  scan-count_rows [] found d h = scan-none found
  scan-count_rows ((name, count) ∷ counts) found (n, d) (h, hs) =
      elim (Bool-cases (nat_beq count 0)) [
        | inl zero' ↦
            let none' : keep is_positive ((name, count) ∷ counts) ≡ keep is_positive counts =
              ground (arith, keep-positive name count counts) in
            rw none' (scan-count_rows counts found d hs)
        | inr more ↦
            let one : keep is_positive ((name, count) ∷ counts)
                ≡ (name, count) ∷ keep is_positive counts =
              ground (arith, keep-positive name count counts) in
            rw one (
              scan-own name count (count_rows id counts) found
              ∙ scan-count_rows counts (put name count found) d
                  (Fresh-put name count found counts n hs)
              ∙ ap ok (
                  ap (λ m. m ++ keep is_positive counts) (put-fresh name count found h)
                  ∙ append_assoc found ((name, count) ∷ []) (keep is_positive counts)))
      ]

  -- The rows of a run that was saved, read back.
  load-replaced :
      (counts : Dict Bytes ℕ) (old : List CountRow)
      → AllDistinct (names counts)
      → counts_of table t ≡ replaced id counts old
      → db.fault (select_counts table) t ≡ none
      → db.fault (rows_counts table) t ≡ none
      → load_count_table db table id t ≡ ok (keep is_positive counts)
  unfolding load_count_table
  load-replaced counts old d e selected rows =
      let scanned : scan_counts_of db table id t (counts_of table t) []
          ≡ ok (keep is_positive counts) =
        ap (λ r. scan_counts_of db table id t r []) e
        ∙ scan-deleted old (count_rows id counts) []
        ∙ scan-count_rows counts [] d (Fresh-nil counts) in
      ground (arith, scanned)

deleted-append :
    (id : Bytes) (xs ys : List CountRow)
    → delete_count_rows id (xs ++ ys) ≡ delete_count_rows id xs ++ delete_count_rows id ys
unfolding delete_count_rows keep
deleted-append id [] ys = refl
deleted-append id (x ∷ xs) ys = ground (arith, deleted-append id xs ys)

deleted_twice :
    (id : Bytes) (xs : List CountRow)
    → delete_count_rows id (delete_count_rows id xs) ≡ delete_count_rows id xs
unfolding delete_count_rows keep
deleted_twice id [] = refl
deleted_twice id (x ∷ xs) = ground (arith, deleted_twice id xs)

deleted-count_rows :
    (id : Bytes) (counts : Dict Bytes ℕ) → delete_count_rows id (count_rows id counts) ≡ []
unfolding delete_count_rows keep
deleted-count_rows id [] = refl
deleted-count_rows id ((name, count) ∷ counts) = elim (Bool-cases (nat_beq count 0)) [
  | inl zero' ↦ rw zero' (deleted-count_rows id counts)
  | inr more ↦ rw (more, eq_refl id) (deleted-count_rows id counts)
]

-- No other run's rows change.
deleted-replaced :
    (id : Bytes) (counts : Dict Bytes ℕ) (rows : List CountRow)
    → delete_count_rows id (replaced id counts rows) ≡ delete_count_rows id rows
deleted-replaced id counts rows =
    deleted-append id (delete_count_rows id rows) (count_rows id counts)
    ∙ rw (deleted_twice id rows, deleted-count_rows id counts)
        (append-nil (delete_count_rows id rows))

find_summary-upsert_row :
    (row : SummaryRow) (j : Bytes) (rows : List SummaryRow)
    → find_summary j (upsert_row row rows)
      ≡ (if row.run_id == j then some row else find_summary j rows)
unfolding find_summary upsert_row
find_summary-upsert_row row j [] = refl
find_summary-upsert_row row j (r ∷ rows) = ground (
  arith,
  find_summary-upsert_row row j rows,
  bytes_eq.test_iff r.run_id row.run_id,
  bytes_eq.test_iff r.run_id j,
  bytes_eq.test_iff row.run_id j,
)

-- The reads of one count table do not fail.
pub record Readable (db : Driver) (table : CountTable) (t : Tables) : Type 0 where
  pub selects : db.fault (select_counts table) t ≡ none
  pub scans : db.fault (scan_counts table) t ≡ none
  pub ends : db.fault (rows_counts table) t ≡ none

find_summary-saved :
    (db : Driver) (s : RunDigestSummary) (t : Tables) (j : Bytes)
    → find_summary j (saved_tables db s t).run_digest_summaries
      ≡ (if s.run_id == j then some (summary_row db s) else find_summary j t.run_digest_summaries)
unfolding summary_row
find_summary-saved db s t j = find_summary-upsert_row (summary_row db s) j t.run_digest_summaries

counts_of-saved :
    (db : Driver) (s : RunDigestSummary) (t : Tables) (table : CountTable)
    → delete_count_rows s.run_id (counts_of table (saved_tables db s t))
      ≡ delete_count_rows s.run_id (counts_of table t)
counts_of-saved db s t labels = deleted-replaced s.run_id s.counts_by_label t.label_counts
counts_of-saved db s t senders = deleted-replaced s.run_id s.sender_counts t.sender_counts
counts_of-saved db s t domains = deleted-replaced s.run_id s.domain_counts t.domain_counts

-- A snapshot that was saved without an error is what is read back afterwards: its header row, and
-- in each count table, where its reads do not fail, exactly the positive counts, in the order in
-- which they were inserted. The header rows and the counts of every other run are as they were.
pub load_count_table-save_run_digest_summary :
    (db : Driver) (s : RunDigestSummary) (t t' : Tables)
    → AllDistinct (names s.counts_by_label)
    → AllDistinct (names s.sender_counts)
    → AllDistinct (names s.domain_counts)
    → save_run_digest_summary db s t ≡ (none, t')
    → (Readable db labels t'
        → load_count_table db labels s.run_id t' ≡ ok (keep is_positive s.counts_by_label))
      × (Readable db senders t'
          → load_count_table db senders s.run_id t' ≡ ok (keep is_positive s.sender_counts))
      × (Readable db domains t'
          → load_count_table db domains s.run_id t' ≡ ok (keep is_positive s.domain_counts))
      × (find_summary s.run_id t'.run_digest_summaries ≡ some (summary_row db s))
      × ((j : Bytes)
          → s.run_id ≢ j
          → find_summary j t'.run_digest_summaries ≡ find_summary j t.run_digest_summaries)
      × ((table : CountTable)
          → delete_count_rows s.run_id (counts_of table t')
            ≡ delete_count_rows s.run_id (counts_of table t))
load_count_table-save_run_digest_summary db s t t' d1 d2 d3 e =
    elim (save_run_digest_summary_atomic db s t) [
      | inl (bad, same) ↦ absurd (bad (ap (λ p. p.0) e))
      | inr (fine, q) ↦
          let saved : t' ≡ saved_tables db s t = sym (ap (λ p. p.1) e) ∙ q in
          rw saved (
            λ r.
                load-replaced db labels s.run_id (saved_tables db s t) r.scans s.counts_by_label
                  t.label_counts d1 refl r.selects r.ends,
            λ r.
                load-replaced db senders s.run_id (saved_tables db s t) r.scans s.sender_counts
                  t.sender_counts d2 refl r.selects r.ends,
            λ r.
                load-replaced db domains s.run_id (saved_tables db s t) r.scans s.domain_counts
                  t.domain_counts d3 refl r.selects r.ends,
            ground (arith, find_summary-saved db s t s.run_id, bytes_eq.test_iff s.run_id s.run_id),
            λ j other. ground (arith, find_summary-saved db s t j, bytes_eq.test_iff s.run_id j),
            counts_of-saved db s t,
          )
    ]
