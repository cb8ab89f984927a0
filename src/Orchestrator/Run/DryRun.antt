-- ===== src/Orchestrator/Run/DryRun.antt =====
-- What a dry run sends, and what it stores.
use emailer.Prelude.{
  ℕ, ◌+◌, ◌≡◌, refl, ◌∙◌, Bool, true, false, not, ◌&&◌, List, [], ◌∷◌, Option, none, some, length,
  ltb, if◌then◌else◌, is_some,
}
use emailer.Prelude.Bytes.{Bytes}
use emailer.Prelude.Dict.{Dict, get}
use emailer.Errors.{Error, Result, ok, err, all_accounts_failed}
use emailer.Config.{Duration}
use emailer.Mail.Types.{key_eq, Message, message_key, Time, Classification, Flag}
use emailer.Mail.Pool.{FetchAllResult, flatten_messages, account_errors, fetch_all}
use emailer.Store.{RunStatus, Run, unset, completed, degraded, ingest_failed, partial}
use emailer.Llm.{Request}
use emailer.Orchestrator.World.{RunOptions, RunResult, Pipeline, World, Act, ◌>>=◌, pure}
use emailer.Orchestrator.World.Preserves.{
  Preserves, Preserves-pure, Preserves-bind, Preserves-if, deliveries, delivered,
  delivered-on_store, delivered-ask_store, delivered-now,
}
use emailer.Orchestrator.Window.{dynamic_window, window_from, window_of, fetch_window}
use emailer.Orchestrator.Classify.{Classified, classify_with_partial_fallback}
use emailer.Orchestrator.Classify.Calls.{Calls, none_made, made, classify_calls}
use emailer.Orchestrator.Highlights.{build_highlights}
use emailer.Orchestrator.DigestBuild.{ClassMap, put_valid, build_digest_data_partial}
use emailer.Orchestrator.Delivery.{
  record_processed_message, record_messages, record_processed_messages, record_flag_of,
  record_flag_list, record_flags, flags_of,
}
use emailer.Orchestrator.Run.{
  finish, final_status, filter_processed, new_run, fetch_options, result_of, classified_status,
  record_and_finish, deliver, after_render, classify_and_render, after_filter, filter_and_go_on,
  after_fetch, after_window, after_record, run, classify_request, rendered,
}

ruleset rules = (
  Preserves-pure, Preserves-bind, Preserves-if, delivered-on_store, delivered-ask_store,
  delivered-now,
)

module _ {S : Type 0} (p : Pipeline S) where
  record_processed_message-Preserves :
      (run_id : Bytes) (m : Message) (c : Option Classification)
      → Preserves delivered (record_processed_message p run_id m c)
  unfolding record_processed_message
  record_processed_message-Preserves run_id m none = record { at = λ w. refl }
  record_processed_message-Preserves run_id m (some c) = record { at = λ w. refl }

  record_messages-Preserves :
      (run_id : Bytes) (classes : ClassMap) (ms : List Message)
      → Preserves delivered (record_messages p run_id classes ms)
  unfolding record_messages
  record_messages-Preserves run_id classes [] = record { at = λ w. refl }
  record_messages-Preserves run_id classes (m ∷ ms) = record {
    at = λ w.
        (record_messages-Preserves run_id classes ms).at
          (record_processed_message p run_id m (get (message_key m) classes) w).1
        ∙ (record_processed_message-Preserves run_id m (get (message_key m) classes)).at w;
  }

  record_flag_list-Preserves : (fs : List Flag) → Preserves delivered (record_flag_list p fs)
  unfolding record_flag_list record_flag_of
  record_flag_list-Preserves [] = record { at = λ w. refl }
  record_flag_list-Preserves (f ∷ fs) = record {
    at = λ w. (record_flag_list-Preserves fs).at (record_flag_of p f w).1;
  }

  finish-Preserves :
      (status : RunStatus) (count : ℕ) (e : Option Error) (r : RunResult)
      → Preserves delivered (finish p status count e r)
  unfolding finish
  finish-Preserves status count e r = record { at = λ w. refl }

  window_from-Preserves : (r : Result (Option Time)) → Preserves delivered (window_from p r)
  unfolding dynamic_window
  window_from-Preserves (err e) = record { at = λ w. refl }
  window_from-Preserves (ok last_run) = record { at = λ w. refl }

  window_of-Preserves : (d : Option Duration) → Preserves delivered (window_of p d)
  window_of-Preserves (some d) = record { at = λ w. refl }
  window_of-Preserves none = record {
    at = λ w. (window_from-Preserves (p.store.get_last_successful_run_time w.store)).at w;
  }

  Calls-delivered :
      {P : Request → Type 0} {n : ℕ} {w w' : World S} → Calls P n w w' → delivered w' ≡ delivered w
  unfolding deliveries
  Calls-delivered none_made = refl
  Calls-delivered (made request h c) = Calls-delivered c

  classify-Preserves :
      (request : Request) → Preserves delivered (classify_with_partial_fallback p request)
  unfolding deliveries
  classify-Preserves request = record { at = λ w. Calls-delivered (classify_calls p request w) }

  build-Preserves :
      (run_id : Bytes) (messages : List Message) (c : Classified) (results : List FetchAllResult)
      (errors : Dict Bytes Error)
      → Preserves delivered (build_digest_data_partial p run_id messages c results errors)
  unfolding build_digest_data_partial build_highlights
  build-Preserves run_id messages c results errors = record { at = λ w. refl }

  recording-Preserves :
      (run_id : Bytes) (messages : List Message) (c : Classified)
      → Preserves delivered
          (record_processed_messages p run_id messages c.valid >>= λ _. record_flags p c.valid)
  unfolding record_processed_messages record_flags
  recording-Preserves run_id messages c =
      Preserves-bind (record_processed_messages p run_id messages c.valid)
        (λ _. record_flags p c.valid)
        (record_messages-Preserves run_id (put_valid c.valid []) messages)
        (λ _. record_flag_list-Preserves (flags_of p.config.labels c.valid))

  filter_processed-Preserves :
      (messages : List Message) → Preserves delivered (filter_processed p messages)
  unfolding filter_processed
  filter_processed-Preserves messages = record { at = λ w. refl }

  skip-Preserves :
      (d b : Bool) (m : Act S (Unit {0}))
      → d ≡ true
      → Preserves delivered (if not d && b then m else pure tt)
  skip-Preserves true b m e = Preserves-pure tt
  skip-Preserves false b m e = absurd (cc)

  module _ (opts : RunOptions) where
    record_and_finish-Preserves :
        (result : RunResult) (messages : List Message) (c : Classified)
        → Preserves delivered (record_and_finish p opts result messages c)
    unfolding record_and_finish
    record_and_finish-Preserves result messages c =
        Preserves-bind _ _
          (Preserves-if (not opts.stateless && not (is_some c.error)) _ _
            (recording-Preserves result.run_id messages c) (Preserves-pure tt))
          (λ _.
            finish-Preserves (final_status result.status result.analysis_failed_count)
              (length messages) none result)

    module _ (dry : opts.dry_run ≡ true) where
      deliver-Preserves :
          (result : RunResult) (messages : List Message) (c : Classified) (digest : Bytes)
          → Preserves delivered (deliver p opts result messages c digest)
      unfolding deliver
      deliver-Preserves result messages c digest =
          rw dry (record_and_finish-Preserves result messages c)

      after_render-Preserves :
          (result : RunResult) (messages : List Message) (c : Classified) (r : Result Bytes)
          → Preserves delivered (after_render p opts result messages c r)
      after_render-Preserves result messages c (err e) =
          finish-Preserves degraded (length messages) (some e) result
      after_render-Preserves result messages c (ok digest) =
          let result' : RunResult = record result {
            status = classified_status c result.analysis_failed_count result.status;
          } in
          Preserves-bind _ _ (skip-Preserves opts.dry_run (not (is_some c.error)) _ dry)
            (λ _. deliver-Preserves result' messages c digest)

      classify_and_render-Preserves :
          (run_id : Bytes) (status : RunStatus) (messages : List Message)
          (results : List FetchAllResult) (errors : Dict Bytes Error)
          → Preserves delivered (classify_and_render p opts run_id status messages results errors)
      unfolding classify_and_render
      classify_and_render-Preserves run_id status messages results errors =
          Preserves-bind _ _ (classify-Preserves (classify_request p opts messages)) (λ c.
            Preserves-bind _ _ (build-Preserves run_id messages c results errors) (λ digest.
              after_render-Preserves
                (record {
                  run_id = run_id;
                  status = if is_some c.error then degraded else status;
                  total_fetched = length messages;
                  total_classified = length digest.messages;
                  failed_count = digest.failed_count;
                  analysis_failed_count = digest.analysis_failed_count;
                  err = none;
                })
                messages c (rendered p opts c digest)))

      after_filter-Preserves :
          (run_id : Bytes) (status : RunStatus) (results : List FetchAllResult)
          (errors : Dict Bytes Error) (messages : List Message)
          → Preserves delivered (after_filter p opts run_id status results errors messages)
      after_filter-Preserves run_id status results errors [] =
          finish-Preserves completed 0 none (result_of run_id status 0)
      after_filter-Preserves run_id status results errors (m ∷ ms) =
          classify_and_render-Preserves run_id status (m ∷ ms) results errors

      filter_and_go_on-Preserves :
          (run_id : Bytes) (status : RunStatus) (messages : List Message)
          (results : List FetchAllResult) (errors : Dict Bytes Error)
          → Preserves delivered (filter_and_go_on p opts run_id status messages results errors)
      unfolding filter_and_go_on
      filter_and_go_on-Preserves run_id status messages results errors =
          Preserves-bind _ _
            (Preserves-if (not opts.force_reprocess && ltb 0 (length messages)) _ _
              (filter_processed-Preserves messages) (Preserves-pure messages))
            (after_filter-Preserves run_id status results errors)

      after_fetch-Preserves :
          (run_id : Bytes) (results : List FetchAllResult)
          → Preserves delivered (after_fetch p opts run_id results)
      unfolding after_fetch
      after_fetch-Preserves run_id results =
          Preserves-if _ _ _
            (finish-Preserves ingest_failed 0
              (some (all_accounts_failed (length (account_errors results))))
              (result_of run_id unset 0))
            (filter_and_go_on-Preserves run_id
              (if ltb 0 (length (account_errors results)) then partial else unset)
              (flatten_messages results) results (account_errors results))

      after_window-Preserves :
          (run_id : Bytes) (since : Result Time)
          → Preserves delivered (after_window p opts run_id since)
      after_window-Preserves run_id (err e) =
          finish-Preserves ingest_failed 0 (some e) (result_of run_id unset 0)
      after_window-Preserves run_id (ok since) = after_fetch-Preserves run_id (
          fetch_all p.cancelled p.ingesters (fetch_options p opts since) p.config.imap.accounts
            p.schedule)

      after_record-Preserves : (r : Result Run) → Preserves delivered (after_record p opts r)
      unfolding fetch_window
      after_record-Preserves (err e) = record { at = λ w. refl }
      after_record-Preserves (ok r) =
          Preserves-bind _ _ (window_of-Preserves opts.window) (after_window-Preserves r.id)

      run-Preserves : Preserves delivered (run p opts)
      unfolding run
      run-Preserves = record {
        at = λ w.
            let t : Time = p.clock (w.reads + 1) in
            let (r, s) = p.store.record_run t (new_run p opts (p.clock w.reads)) w.store in
            (after_record-Preserves r).at (record w { store = s; reads = w.reads + 1 + 1 });
      }

  -- A dry run writes no flags to a mailbox and sends no digest: whatever the mailboxes, the model,
  -- the renderers and the store answer, the effects on mailboxes and channel are those before it.
  pub run_dry :
      (opts : RunOptions) (w : World S)
      → opts.dry_run ≡ true
      → deliveries (run p opts w).1.trace ≡ deliveries w.trace
  run_dry opts w dry = (run-Preserves opts dry).at w
