-- ===== src/Orchestrator/Run.antt =====
-- `Pipeline.Run` of internal/orchestrator/orchestrator.go, one definition for each of its steps: each
-- ends in an early return or goes on to the next.
pub mod DryRun
pub mod Dedup
pub mod Kept
pub mod Ends
pub mod Status
use emailer.Prelude.{
  ℕ, Bool, true, not, ◌&&◌, List, [], ◌∷◌, Option, none, some, map, length, ltb, nat_beq, is_some,
  if◌then◌else◌,
}
use emailer.Prelude.Bytes.{Bytes}
use emailer.Prelude.Dict.{Dict}
use emailer.Errors.{Error, Result, ok, err, record_run, all_accounts_failed}
use emailer.Mail.Types.{MessageKey, Message, message_key, FetchOptions, Time}
use emailer.Mail.Pool.{
  FetchAllResult, fetch_all, flatten_messages, account_errors, filter_already_processed,
}
use emailer.Store.{
  RunStatus, unset, running, completed, degraded, ingest_failed, partial, partially_classified, Run,
  DigestStatus, failed, sent,
}
use emailer.Llm.{Request}
use emailer.Digest.{DigestData}
use emailer.Orchestrator.World as World'
use emailer.Orchestrator.World.{
  RunOptions, RunResult, Pipeline, World, Act, Effect, ◌>>=◌, ◌>>◌, pure, on_store, ask_store, now,
  emit,
}
use emailer.Orchestrator.Window.{fetch_window}
use emailer.Orchestrator.Classify.{
  Classified, build_label_set, messages_to_inputs, classify_with_partial_fallback,
}
use emailer.Orchestrator.DigestBuild.{build_digest_data_partial}
use emailer.Orchestrator.Delivery.{
  apply_classification_flags, record_processed_messages, record_flags,
}

abbrev pub result_of : Bytes → RunStatus → ℕ → RunResult
result_of run_id status fetched = record {
  run_id = run_id;
  status = status;
  total_fetched = fetched;
  total_classified = 0;
  failed_count = 0;
  analysis_failed_count = 0;
  err = none;
}

-- The status after rendering, from the one before it.
unfoldable pub classified_status : Classified → ℕ → RunStatus → RunStatus
classified_status c analysis_failed status =
    if is_some c.error
    then degraded
    else if nat_beq (length c.valid) 0
    then degraded
    else if ltb 0 analysis_failed
    then partially_classified
    else status

-- The status that the run is finished with.
unfoldable pub final_status : RunStatus → ℕ → RunStatus
final_status partial analysis_failed = partial
final_status degraded analysis_failed = degraded
final_status partially_classified analysis_failed = partially_classified
final_status _ analysis_failed = if ltb 0 analysis_failed then partially_classified else completed

abbrev pub true_entries : Dict MessageKey Bool → Dict MessageKey Bool
true_entries = map (λ (e : MessageKey × Bool). (e.0, true))

abbrev pub filter_by : List Message → Result (Dict MessageKey Bool) → List Message
filter_by messages (err e) = messages
filter_by messages (ok processed) = filter_already_processed messages (true_entries processed)

module _ {S : Type 0} (p : Pipeline S) where
  -- FinishRun, whose own error is only logged, and the return.
  unfoldable pub finish : RunStatus → ℕ → Option Error → RunResult → Act S RunResult
  finish status count e result = do
    t ← now p
    on_store (p.store.finish_run t result.run_id status count e)
    pure (record result { status = status; err = e })

  unfoldable pub filter_processed : List Message → Act S (List Message)
  unfolding filter_already_processed
  filter_processed messages = do
    processed ← ask_store (p.store.already_processed (map message_key messages))
    pure (filter_by messages processed)

  abbrev pub record_delivery : Bytes → DigestStatus → Bytes → Act S (Option Error)
  record_delivery run_id status digest = on_store (
      p.store.record_digest (record {
        run_id = run_id;
        channel = p.channel_name;
        status = status;
        payload_hash = p.hash digest;
      }))

  module _ (opts : RunOptions) where
    -- Steps 9 and 10.
    unfoldable pub record_and_finish : RunResult → List Message → Classified → Act S RunResult
    unfolding record_processed_messages record_flags finish final_status
    record_and_finish result messages c =
        let recording : Act S (Unit {0}) =
          (record_processed_messages p result.run_id messages c.valid >>= λ _.
          record_flags p c.valid) in
        let keep_records : Bool = not opts.stateless && not (is_some c.error) in
        (if keep_records then recording else pure tt) >>= λ _.
        finish (final_status result.status result.analysis_failed_count) (length messages) none
          result

    abbrev pub after_send :
        RunResult → List Message → Classified → Bytes → Option Error → Act S RunResult
    after_send result messages c digest (some e) =
        record_delivery result.run_id failed digest >>= λ _.
        finish degraded (length messages) (some e) result
    after_send result messages c digest none =
        record_delivery result.run_id sent digest >>= λ _. record_and_finish result messages c

    -- Step 8.
    unfoldable pub deliver : RunResult → List Message → Classified → Bytes → Act S RunResult
    unfolding record_and_finish
    deliver result messages c digest =
        let delivery : Act S RunResult =
          (emit (World'.sent digest) >>= λ _.
          after_send result messages c digest (p.send digest)) in
        if opts.dry_run then record_and_finish result messages c else delivery

    abbrev pub after_render : RunResult → List Message → Classified → Result Bytes → Act S RunResult
    after_render result messages c (err e) = finish degraded (length messages) (some e) result
    after_render result messages c (ok digest) =
        let result' = record result {
          status = classified_status c result.analysis_failed_count result.status;
        } in
        let write_flags : Bool = not opts.dry_run && not (is_some c.error) in
        (if write_flags then apply_classification_flags p c.valid else pure tt) >>= λ _.
        deliver result' messages c digest

    abbrev pub rendered : Classified → DigestData → Result Bytes
    rendered c data' =
        if not (is_some c.error) && ltb 0 (length c.valid)
        then p.render data'
        else p.render_fallback data'

    abbrev pub classify_request : List Message → Request
    classify_request messages = record {
      model = p.config.llm.model;
      system_prompt = p.config.prompts.system_prompt;
      classification_prompt = p.config.prompts.classification_prompt;
      labels = build_label_set p;
      messages = messages_to_inputs messages;
    }

    -- Steps 4 to 7.
    unfoldable pub classify_and_render :
        Bytes → RunStatus → List Message → List FetchAllResult → Dict Bytes Error → Act S RunResult
    unfolding classify_with_partial_fallback build_digest_data_partial apply_classification_flags
        deliver finish classified_status
    classify_and_render run_id status messages results errors = do
      c ← classify_with_partial_fallback p (classify_request messages)
      digest ← build_digest_data_partial p run_id messages c results errors
      after_render
          (record {
            run_id = run_id;
            status = if is_some c.error then degraded else status;
            total_fetched = length messages;
            total_classified = length digest.messages;
            failed_count = digest.failed_count;
            analysis_failed_count = digest.analysis_failed_count;
            err = none;
          })
          messages c (rendered c digest)

    abbrev pub after_filter :
        Bytes → RunStatus → List FetchAllResult → Dict Bytes Error → List Message → Act S RunResult
    after_filter run_id status results errors [] =
        finish completed 0 none (result_of run_id status 0)
    after_filter run_id status results errors (m ∷ ms) =
        classify_and_render run_id status (m ∷ ms) results errors

    -- Step 3.
    unfoldable pub filter_and_go_on :
        Bytes → RunStatus → List Message → List FetchAllResult → Dict Bytes Error → Act S RunResult
    unfolding filter_processed classify_and_render
    filter_and_go_on run_id status messages results errors = do
      fresh ←
          (if not opts.force_reprocess && ltb 0 (length messages)
            then filter_processed messages
            else pure messages)
      after_filter run_id status results errors fresh

    abbrev pub fetch_options : Time → FetchOptions
    fetch_options since = record {
      since = since;
      fetch_unread_only = p.config.fetch_unread_only;
      folders = [];
      batch_size = p.config.concurrency.fetch_batch_size;
    }

    -- The second half of step 2, from the fetch on.
    unfoldable pub after_fetch : Bytes → List FetchAllResult → Act S RunResult
    unfolding filter_and_go_on account_errors flatten_messages finish
    after_fetch run_id results =
        let errors = account_errors results in
        let messages = flatten_messages results in
        let some_failed : Bool = ltb 0 (length errors) in
        let status : RunStatus = if some_failed then partial else unset in
        if some_failed && nat_beq (length messages) 0
        then finish ingest_failed 0 (some (all_accounts_failed (length errors)))
            (result_of run_id unset 0)
        else filter_and_go_on run_id status messages results errors

    abbrev pub after_window : Bytes → Result Time → Act S RunResult
    after_window run_id (err e) = finish ingest_failed 0 (some e) (result_of run_id unset 0)
    after_window run_id (ok since) =
        after_fetch run_id (
          fetch_all p.cancelled p.ingesters (fetch_options since) p.config.imap.accounts p.schedule)

    abbrev pub after_record : Result Run → Act S RunResult
    after_record (err e) =
        pure (record (result_of [] ingest_failed 0) { err = some (record_run e) })
    after_record (ok r) = do since ← fetch_window p opts; after_window r.id since

    abbrev pub new_run : Time → Run
    new_run t = record {
      id = [];
      started_at = t;
      finished_at = none;
      status = running;
      message_count = 0;
      error = none;
    }

    -- Step 1, and the whole run.
    unfoldable pub run : Act S RunResult
    unfolding fetch_window fetch_all after_fetch finish
    run = do
      started_at ← now p
      t ← now p
      r ← on_store (p.store.record_run t (new_run started_at))
      after_record r
