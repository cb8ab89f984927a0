-- ===== src/Orchestrator/Run/Status.antt =====
-- The status and the error that a run returns, and what the run ledger says of it afterwards.
use emailer.Prelude.{
  ℕ, ◌+◌, ◌≡◌, refl, ◌∙◌, ap, inl, inr, true, List, [], ◌∷◌, ◌++◌, Option, some, arith, is_some,
  eq_refl, Option-cases,
}
use emailer.Prelude.Bytes.{Bytes, bytes_eq}
use emailer.Errors.{Error, Result, ok, err}
use emailer.Mail.Types.{Time}
use emailer.Store.{RunStatus, Run, ProcessedMessage, FlagRecord}
use emailer.Store.Noop.{
  NoopStore, noop_ops, find_run, record_run, finish_run, record_message, record_flag, record_digest,
  filled_run,
}
use emailer.Store.Noop.Runs.{find_run-finish_run}
use emailer.Orchestrator.World.{RunOptions, RunResult, Pipeline, World}
use emailer.Orchestrator.Run.{run, after_record, new_run}
use emailer.Orchestrator.Run.Kept.{consistent, EndLaws}
use emailer.Orchestrator.Run.Ends.{after_record-Ended}

module _ {S : Type 0} (p : Pipeline S) where
  IsFit : RunResult → S → Type 0
  IsFit r s = consistent r.status (is_some r.err) ≡ true

  IsFit-laws : (run_id : Bytes) → EndLaws p run_id (λ s. Unit {0}) IsFit
  unfolding IsFit
  IsFit-laws run_id = record {
    message = λ t m s h. tt;
    flag = λ t r s h. tt;
    digest = λ d s h. tt;
    finish = λ t status count e r s id fits h. fits;
  }

  after_record-IsFit :
      (opts : RunOptions) (r : Result Run) (w : World S)
      → consistent (after_record p opts r w).0.status (is_some (after_record p opts r w).0.err)
        ≡ true
  unfolding IsFit
  after_record-IsFit opts (err e) w = refl
  after_record-IsFit opts (ok r) w =
      (after_record-Ended p r.id (IsFit-laws r.id) opts r refl).at w tt

  -- Whatever the collaborators answer, a run ends as completed, partial or partially classified
  -- without an error, as degraded with or without one, or as failed to ingest with one.
  pub run-consistent :
      (opts : RunOptions) (w : World S)
      → consistent (run p opts w).0.status (is_some (run p opts w).0.err) ≡ true
  unfolding run
  run-consistent opts w =
      let (r, s) =
        p.store.record_run (p.clock (w.reads + 1)) (new_run p opts (p.clock w.reads)) w.store in
      after_record-IsFit opts r (record w { store = s; reads = w.reads + 1 + 1 })

-- The ledger's entry for the run that ended with this result.
pub record IsRecorded (r : RunResult) (s : NoopStore) : Type 0 where
  pub entry : Run
  pub found : find_run r.run_id s.runs ≡ some entry
  pub same_status : entry.status ≡ r.status
  pub same_error : entry.error ≡ r.err
  pub closed : is_some entry.finished_at ≡ true

-- The pipeline over the store in memory.
abbrev pub in_memory : Pipeline NoopStore → Pipeline NoopStore
in_memory p = record p { store = noop_ops }

module _ (run_id : Bytes) where
  abbrev IsOpen : NoopStore → Type 0
  IsOpen s = is_some (find_run run_id s.runs) ≡ true

  finish_run-IsRecorded :
      (t : Time) (status : RunStatus) (count : ℕ) (e : Option Error) (r : RunResult) (s : NoopStore)
      → r.run_id ≡ run_id
      → IsOpen s
      → IsRecorded
          (record r { status = status; err = e })
          (finish_run t r.run_id status count e s).1
  finish_run-IsRecorded t status count e r s id h = elim (Option-cases (find_run r.run_id s.runs)) [
    | inl n ↦ absurd (ground arith)
    | inr (old, f) ↦ record {
      entry = record old {
        finished_at = some t;
        status = status;
        message_count = count;
        error = e;
      };
      found =
          (find_run-finish_run t r.run_id status count e r.run_id s).0
          ∙ rw (eq_refl r.run_id, f) refl;
      same_status = refl;
      same_error = refl;
      closed = refl;
    }
  ]

  record_message-runs :
      (t : Time) (m : ProcessedMessage) (s : NoopStore) → (record_message t m s).1.runs ≡ s.runs
  unfolding record_message
  record_message-runs t m s = ground arith

  record_flag-runs :
      (t : Time) (r : FlagRecord) (s : NoopStore) → (record_flag t r s).1.runs ≡ s.runs
  unfolding record_flag
  record_flag-runs t r s = ground arith

  IsRecorded-laws : (p : Pipeline NoopStore) → EndLaws (in_memory p) run_id IsOpen IsRecorded
  unfolding record_digest
  IsRecorded-laws p = record {
    message = λ t m s h. ap (λ rs. is_some (find_run run_id rs)) (record_message-runs t m s) ∙ h;
    flag = λ t r s h. ap (λ rs. is_some (find_run run_id rs)) (record_flag-runs t r s) ∙ h;
    digest = λ d s h. h;
    finish = λ t status count e r s id fits h. finish_run-IsRecorded t status count e r s id h;
  }

find_run-append_some :
    (j : Bytes) (rs : List Run) (r : Run) → r.id ≡ j → is_some (find_run j (rs ++ r ∷ [])) ≡ true
unfolding find_run
find_run-append_some j [] r e = ground (arith, bytes_eq.test_iff r.id j)
find_run-append_some j (x ∷ rs) r e = ground (arith, find_run-append_some j rs r e)

-- With the store in memory the ledger has an entry for every run that returns, finished, with the
-- status and the error that the run returns.
pub run-IsRecorded :
    (p : Pipeline NoopStore) (opts : RunOptions) (w : World NoopStore)
    → IsRecorded (run (in_memory p) opts w).0 (run (in_memory p) opts w).1.store
unfolding run record_run
run-IsRecorded p opts w =
    let r : Run =
      filled_run (p.clock (w.reads + 1)) (w.store.next_id + 1) (new_run p opts (p.clock w.reads)) in
    let w' : World NoopStore = record w {
      store = (record_run (p.clock (w.reads + 1)) (new_run p opts (p.clock w.reads)) w.store).1;
      reads = w.reads + 1 + 1;
    } in
    (after_record-Ended (in_memory p) r.id (IsRecorded-laws r.id p) opts r refl).at w'
      (find_run-append_some r.id w.store.runs r refl)
