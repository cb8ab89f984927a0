-- ===== src/Store/Sqlite/Snapshots.antt =====
-- The digest snapshots of the database: the transaction, and what is read back after it.
use emailer.Store.Sqlite.Summaries.{table_name}
use emailer.Errors.{wrapped}
use mathlib.Core.List.{append_assoc, append-nil}
use emailer.Prelude.{
  ℕ, ◌≡◌, ◌≢◌, refl, sym, ap, ◌∙◌, ◌⊎◌, inl, inr, Bool, not, List, [], ◌∷◌, ◌++◌, none, arith,
  if◌then◌else◌, nat_eq, nat_beq, Bool-cases, Option-cases, map, keep,
}
use emailer.Prelude.Bytes.{Bytes, codes, bytes_eq}
use emailer.Prelude.Dict.{Dict}
use emailer.Errors.{Error, Result, ok, err, Result-cases}
use emailer.Store.{RunDigestSummary}
use emailer.Store.Sqlite.{
  CountRow, CountTable, labels, senders, domains, Tables, Driver, delete_counts, begin_tx, commit,
}
use emailer.Store.Sqlite.Summaries.{
  counts_of, with_counts, upsert_row, summary_row, upsert_digest_summary, insert_count_row,
  insert_counts, delete_count_rows, replace_count_table, summary_tx, save_run_digest_summary,
  and_then,
}

-- The counts of a map that are positive, and the rows that stand for them.
abbrev pub is_positive : Bytes × ℕ → Bool
is_positive (name, count) = not (nat_beq count 0)

abbrev pub count_row : Bytes → Bytes × ℕ → CountRow
count_row id (name, count) = record { run_id = id; name = name; count = count }

abbrev pub count_rows : Bytes → Dict Bytes ℕ → List CountRow
count_rows id counts = map (count_row id) (keep is_positive counts)

with_counts_twice :
    (table : CountTable) (a b : List CountRow) (t : Tables)
    → with_counts table b (with_counts table a t) ≡ with_counts table b t
with_counts_twice labels a b t = refl
with_counts_twice senders a b t = refl
with_counts_twice domains a b t = refl

pub counts_of-with_counts :
    (table : CountTable) (a : List CountRow) (t : Tables)
    → counts_of table (with_counts table a t) ≡ a
counts_of-with_counts labels a t = refl
counts_of-with_counts senders a t = refl
counts_of-with_counts domains a t = refl

with_counts_self : (table : CountTable) (t : Tables) → with_counts table (counts_of table t) t ≡ t
with_counts_self labels t = refl
with_counts_self senders t = refl
with_counts_self domains t = refl

insert_count_row_lem :
    (db : Driver) (table : CountTable) (row : CountRow) (t t' : Tables)
    → insert_count_row db table row t ≡ ok t'
    → t' ≡ with_counts table (counts_of table t ++ row ∷ []) t
unfolding insert_count_row
insert_count_row_lem db table row t t' e = ground arith

insert_counts_err :
    (db : Driver) (table : CountTable) (id : Bytes) (counts : Dict Bytes ℕ) (e : Error)
    → insert_counts db table id counts (err e) ≡ err e
unfolding insert_counts
insert_counts_err db table id [] e = refl
insert_counts_err db table id (x ∷ counts) e = refl

-- The tables after one more row, and then the rest.
with_counts-append :
    (table : CountTable) (row : CountRow) (rows : List CountRow) (t t1 : Tables)
    → t1 ≡ with_counts table (counts_of table t ++ row ∷ []) t
    → with_counts table (counts_of table t1 ++ rows) t1
      ≡ with_counts table (counts_of table t ++ row ∷ rows) t
with_counts-append table row rows t t1 e = rw e (
    with_counts_twice table (counts_of table t ++ row ∷ []) _ t
    ∙ ap (λ r. with_counts table (r ++ rows) t) (counts_of-with_counts table _ t)
    ∙ ap (λ r. with_counts table r t) (append_assoc (counts_of table t) (row ∷ []) rows))

insert_counts-ok :
    (db : Driver) (table : CountTable) (id : Bytes) (counts : Dict Bytes ℕ) (r : Result Tables)
    (t' : Tables)
    → insert_counts db table id counts r ≡ ok t'
    → (u : Tables) × (r ≡ ok u) × (insert_counts db table id counts (ok u) ≡ ok t')
insert_counts-ok db table id counts (ok u) t' e = (u, refl, e)
insert_counts-ok db table id counts (err f) t' e =
    absurd (ground (arith, insert_counts_err db table id counts f))

insert_counts-step :
    (db : Driver) (table : CountTable) (id name : Bytes) (count : ℕ) (counts : Dict Bytes ℕ)
    (t t' : Tables)
    → ((u u' : Tables)
        → insert_counts db table id counts (ok u) ≡ ok u'
        → u' ≡ with_counts table (counts_of table u ++ count_rows id counts) u)
    → insert_counts db table id ((name, count) ∷ counts) (ok t) ≡ ok t'
    → t' ≡ with_counts table (counts_of table t ++ count_rows id ((name, count) ∷ counts)) t
unfolding insert_counts keep
insert_counts-step db table id name count counts t t' ih e =
    let row : CountRow = count_row id (name, count) in
    let next : Result Tables = if nat_beq count 0 then ok t else insert_count_row db table row t in
    let (u, first, rest) = insert_counts-ok db table id counts next t' e in
    ih u t' rest ∙ elim (Bool-cases (nat_beq count 0)) [
      | inl zero' ↦ let same : u ≡ t = ground arith in rw (zero', same) refl
      | inr more ↦ rw more (
          with_counts-append table row (count_rows id counts) t u
            (insert_count_row_lem db table row t u (ground arith)))
    ]

insert_counts_lem :
    (db : Driver) (table : CountTable) (id : Bytes) (counts : Dict Bytes ℕ) (t t' : Tables)
    → insert_counts db table id counts (ok t) ≡ ok t'
    → t' ≡ with_counts table (counts_of table t ++ count_rows id counts) t
unfolding insert_counts keep
insert_counts_lem db table id [] t t' e =
    let same : t ≡ t' = cc in
    sym same
    ∙ sym (with_counts_self table t)
    ∙ ap (λ rows. with_counts table rows t) (sym (append-nil (counts_of table t)))
insert_counts_lem db table id ((name, count) ∷ counts) t t' e =
    insert_counts-step db table id name count counts t t' (insert_counts_lem db table id counts) e

pub replace_count_table_lem :
    (db : Driver) (table : CountTable) (id : Bytes) (counts : Dict Bytes ℕ) (t t' : Tables)
    → replace_count_table db table id counts t ≡ ok t'
    → t' ≡ with_counts table (delete_count_rows id (counts_of table t) ++ count_rows id counts) t
unfolding replace_count_table
replace_count_table_lem db table id counts t t' e =
    elim (Option-cases (db.fault (delete_counts table) t)) [
      | inr (f, bad) ↦ absurd (
          ground (
            arith,
            insert_counts_err db table id counts
                (wrapped (codes "store.SaveRunDigestSummary: del " ++ table_name table) f),
          ))
      | inl fine ↦
          let kept : List CountRow = delete_count_rows id (counts_of table t) in
          insert_counts_lem db table id counts (with_counts table kept t) t'
            (rw (fine, replace_count_table) at e)
          ∙ ap (λ r. with_counts table (r ++ count_rows id counts) (with_counts table kept t))
              (counts_of-with_counts table kept t)
          ∙ with_counts_twice table kept _ t
    ]

and_then-ok :
    (r : Result Tables) (f : Tables → Result Tables) (t' : Tables)
    → and_then r f ≡ ok t'
    → (u : Tables) × (r ≡ ok u) × (f u ≡ ok t')
and_then-ok (ok u) f t' e = (u, refl, e)
and_then-ok (err x) f t' e = cc

-- The tables after the body of the transaction.
abbrev pub replaced : Bytes → Dict Bytes ℕ → List CountRow → List CountRow
replaced id counts rows = delete_count_rows id rows ++ count_rows id counts

abbrev pub saved_tables : Driver → RunDigestSummary → Tables → Tables
saved_tables db s t = record t {
  run_digest_summaries = upsert_row (summary_row db s) t.run_digest_summaries;
  label_counts = replaced s.run_id s.counts_by_label t.label_counts;
  sender_counts = replaced s.run_id s.sender_counts t.sender_counts;
  domain_counts = replaced s.run_id s.domain_counts t.domain_counts;
}

upsert_digest_summary_lem :
    (db : Driver) (s : RunDigestSummary) (t t' : Tables)
    → upsert_digest_summary db s t ≡ ok t'
    → t' ≡ record t { run_digest_summaries = upsert_row (summary_row db s) t.run_digest_summaries }
unfolding upsert_digest_summary
upsert_digest_summary_lem db s t t' e = ground arith

summary_tx_lem :
    (db : Driver) (s : RunDigestSummary) (t t' : Tables)
    → summary_tx db s t ≡ ok t'
    → t' ≡ saved_tables db s t
unfolding summary_tx
summary_tx_lem db s t t' e =
    let (t1, e1, f1) = and_then-ok (upsert_digest_summary db s t) _ t' e in
    let (t2, e2, f2) =
      and_then-ok (replace_count_table db labels s.run_id s.counts_by_label t1) _ t' f1 in
    let (t3, e3, f3) =
      and_then-ok (replace_count_table db senders s.run_id s.sender_counts t2) _ t' f2 in
    let p1 = upsert_digest_summary_lem db s t t1 e1 in
    let p2 = replace_count_table_lem db labels s.run_id s.counts_by_label t1 t2 e2 in
    let p3 = replace_count_table_lem db senders s.run_id s.sender_counts t2 t3 e3 in
    let p4 = replace_count_table_lem db domains s.run_id s.domain_counts t3 t' f3 in
    p4
    ∙ ap (λ u. with_counts domains (replaced s.run_id s.domain_counts (counts_of domains u)) u)
        (p3
          ∙ ap
              (λ u. with_counts senders (replaced s.run_id s.sender_counts (counts_of senders u)) u)
              (p2
                ∙ ap
                    (λ u.
                      with_counts labels (replaced s.run_id s.counts_by_label (counts_of labels u))
                        u)
                    p1))

-- SaveRunDigestSummary is all or nothing: with an error the tables are as before, and without one
-- they hold the new header row and the new counts of the run.
pub save_run_digest_summary_atomic :
    (db : Driver) (s : RunDigestSummary) (t : Tables)
    → (((save_run_digest_summary db s t).0 ≢ none) × ((save_run_digest_summary db s t).1 ≡ t))
      ⊎ (((save_run_digest_summary db s t).0 ≡ none)
          × ((save_run_digest_summary db s t).1 ≡ saved_tables db s t))
unfolding save_run_digest_summary
save_run_digest_summary_atomic db s t = elim (Option-cases (db.fault begin_tx t)) [
  | inr (f, p) ↦ rw (p, save_run_digest_summary) (inl (λ bad. cc, refl))
  | inl p ↦
      rw (p, save_run_digest_summary)
        (elim (Result-cases (summary_tx db s t)) [
          | inl (e, q) ↦ rw (q, save_run_digest_summary) (inl (λ bad. cc, refl))
          | inr (t', q) ↦
              rw (q, save_run_digest_summary)
                (elim (Option-cases (db.fault commit t')) [
                  | inr (f, z) ↦ rw (z, save_run_digest_summary) (inl (λ bad. cc, refl))
                  | inl z ↦ rw (z, save_run_digest_summary) (inr (refl, summary_tx_lem db s t t' q))
                ])
        ])
]
