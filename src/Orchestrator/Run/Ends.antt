-- ===== src/Orchestrator/Run/Ends.antt =====
-- How a run ends: every path through the steps after the first ends in `finish`, with a status that
-- fits its error, and the steps before it keep what the store's records keep.
use emailer.Prelude.{
  ◌≡◌, refl, not, ◌&&◌, List, [], ◌∷◌, Option, none, some, length, ltb, if◌then◌else◌, is_some,
}
use emailer.Prelude.Bytes.{Bytes, bytes_eq}
use emailer.Prelude.Dict.{Dict}
use emailer.Errors.{Error, Result, ok, err, all_accounts_failed}
use emailer.Config.{Duration}
use emailer.Mail.Types.{key_eq, Message, Time}
use emailer.Mail.Pool.{FetchAllResult, flatten_messages, account_errors, fetch_all}
use emailer.Store.{
  RunStatus, unset, completed, degraded, ingest_failed, partial, DigestStatus, failed, sent, Run,
}
use emailer.Orchestrator.World as World'
use emailer.Orchestrator.World.{RunOptions, RunResult, Pipeline, World, Act, ◌>>=◌, pure, emit}
use emailer.Orchestrator.Window.{dynamic_window, window_from, window_of, fetch_window}
use emailer.Orchestrator.Classify.{Classified}
use emailer.Orchestrator.Highlights.{build_highlights}
use emailer.Orchestrator.DigestBuild.{build_digest_data_partial}
use emailer.Orchestrator.Run.{
  classified_status, final_status, filter_processed, record_and_finish, after_send, deliver,
  after_render, classify_and_render, after_filter, filter_and_go_on, after_fetch, after_window,
  after_record, record_delivery, rendered, classify_request, fetch_options, result_of,
}
use emailer.Orchestrator.Run.Kept.{
  final_status-consistent, EndLaws, Kept, Ended, Kept-if, Ended-if, Ended-bind, pure-Kept,
  recording-Kept, classify-Kept, finish-Ended, apply_classification_flags-Kept,
}

module _ {S : Type 0} (p : Pipeline S) (run_id : Bytes) {Keeps : S → Type 0}
    {Ends : RunResult → S → Type 0} (laws : EndLaws p run_id Keeps Ends) where
  module _ (opts : RunOptions) where
    record_and_finish-Ended :
        (result : RunResult) (messages : List Message) (c : Classified)
        → result.run_id ≡ run_id
        → Ended p run_id laws (record_and_finish p opts result messages c)
    unfolding record_and_finish
    record_and_finish-Ended result messages c id =
        Ended-bind p run_id laws _ _
          (Kept-if p run_id laws (not opts.stateless && not (is_some c.error)) _ (pure tt)
            (recording-Kept p run_id laws result.run_id messages c.valid)
            (pure-Kept p run_id laws tt))
          (λ _.
            finish-Ended p run_id laws (final_status result.status result.analysis_failed_count)
              (length messages) none result id
              (final_status-consistent result.status result.analysis_failed_count))

    record_delivery-Kept :
        (rid : Bytes) (status : DigestStatus) (digest : Bytes)
        → Kept p run_id laws (record_delivery p rid status digest)
    record_delivery-Kept rid status digest = record { at = λ w h. laws.digest _ w.store h }

    after_send-Ended :
        (result : RunResult) (messages : List Message) (c : Classified) (digest : Bytes)
        (e : Option Error)
        → result.run_id ≡ run_id
        → Ended p run_id laws (after_send p opts result messages c digest e)
    after_send-Ended result messages c digest (some e) id =
        Ended-bind p run_id laws _ _ (record_delivery-Kept result.run_id failed digest)
          (λ _. finish-Ended p run_id laws degraded (length messages) (some e) result id refl)
    after_send-Ended result messages c digest none id =
        Ended-bind p run_id laws _ _ (record_delivery-Kept result.run_id sent digest)
          (λ _. record_and_finish-Ended result messages c id)

    deliver-Ended :
        (result : RunResult) (messages : List Message) (c : Classified) (digest : Bytes)
        → result.run_id ≡ run_id
        → Ended p run_id laws (deliver p opts result messages c digest)
    unfolding deliver
    deliver-Ended result messages c digest id =
        Ended-if p run_id laws opts.dry_run _ _ (record_and_finish-Ended result messages c id) (
          Ended-bind p run_id laws (emit (World'.sent digest)) _ (record { at = λ w h. h })
            (λ _. after_send-Ended result messages c digest (p.send digest) id))

    after_render-Ended :
        (result : RunResult) (messages : List Message) (c : Classified) (r : Result Bytes)
        → result.run_id ≡ run_id
        → Ended p run_id laws (after_render p opts result messages c r)
    after_render-Ended result messages c (err e) id =
        finish-Ended p run_id laws degraded (length messages) (some e) result id refl
    after_render-Ended result messages c (ok digest) id =
        Ended-bind p run_id laws _ _
          (Kept-if p run_id laws (not opts.dry_run && not (is_some c.error)) _ (pure tt)
            (apply_classification_flags-Kept p run_id laws c.valid) (pure-Kept p run_id laws tt))
          (λ _.
            deliver-Ended
              (record result {
                status = classified_status c result.analysis_failed_count result.status;
              })
              messages c digest id)

    classify_and_render-Ended :
        (status : RunStatus) (messages : List Message) (results : List FetchAllResult)
        (errors : Dict Bytes Error)
        → Ended p run_id laws (classify_and_render p opts run_id status messages results errors)
    unfolding classify_and_render build_digest_data_partial build_highlights
    classify_and_render-Ended status messages results errors =
        Ended-bind p run_id laws _ _
          (classify-Kept p run_id laws (classify_request p opts messages))
          (λ c.
            Ended-bind p run_id laws (build_digest_data_partial p run_id messages c results errors)
              _ (record { at = λ w h. h })
              (λ digest.
                after_render-Ended
                  (record {
                    run_id = run_id;
                    status = if is_some c.error then degraded else status;
                    total_fetched = length messages;
                    total_classified = length digest.messages;
                    failed_count = digest.failed_count;
                    analysis_failed_count = digest.analysis_failed_count;
                    err = none;
                  })
                  messages c (rendered p opts c digest) refl))

    after_filter-Ended :
        (status : RunStatus) (results : List FetchAllResult) (errors : Dict Bytes Error)
        (messages : List Message)
        → Ended p run_id laws (after_filter p opts run_id status results errors messages)
    after_filter-Ended status results errors [] =
        finish-Ended p run_id laws completed 0 none (result_of run_id status 0) refl refl
    after_filter-Ended status results errors (m ∷ ms) =
        classify_and_render-Ended status (m ∷ ms) results errors

    filter_and_go_on-Ended :
        (status : RunStatus) (messages : List Message) (results : List FetchAllResult)
        (errors : Dict Bytes Error)
        → Ended p run_id laws (filter_and_go_on p opts run_id status messages results errors)
    unfolding filter_and_go_on filter_processed
    filter_and_go_on-Ended status messages results errors =
        Ended-bind p run_id laws _ _
          (Kept-if p run_id laws (not opts.force_reprocess && ltb 0 (length messages))
            (filter_processed p messages) (pure messages) (record { at = λ w h. h })
            (pure-Kept p run_id laws messages))
          (after_filter-Ended status results errors)

    after_fetch-Ended :
        (results : List FetchAllResult) → Ended p run_id laws (after_fetch p opts run_id results)
    unfolding after_fetch
    after_fetch-Ended results =
        Ended-if p run_id laws _ _ _
          (finish-Ended p run_id laws ingest_failed 0
            (some (all_accounts_failed (length (account_errors results))))
            (result_of run_id unset 0) refl refl)
          (filter_and_go_on-Ended
            (if ltb 0 (length (account_errors results)) then partial else unset)
            (flatten_messages results) results (account_errors results))

    after_window-Ended :
        (since : Result Time) → Ended p run_id laws (after_window p opts run_id since)
    after_window-Ended (err e) =
        finish-Ended p run_id laws ingest_failed 0 (some e) (result_of run_id unset 0) refl refl
    after_window-Ended (ok since) = after_fetch-Ended (
        fetch_all p.cancelled p.ingesters (fetch_options p opts since) p.config.imap.accounts
          p.schedule)

    window_from-Kept : (r : Result (Option Time)) → Kept p run_id laws (window_from p r)
    unfolding dynamic_window
    window_from-Kept (err e) = record { at = λ w h. h }
    window_from-Kept (ok last_run) = record { at = λ w h. h }

    window_of-Kept : (d : Option Duration) → Kept p run_id laws (window_of p d)
    window_of-Kept (some d) = record { at = λ w h. h }
    window_of-Kept none = record {
      at = λ w h. (window_from-Kept (p.store.get_last_successful_run_time w.store)).at w h;
    }

    -- What follows the recording of the run.
    pub after_record-Ended :
        (r : Run) → r.id ≡ run_id → Ended p run_id laws (after_record p opts (ok r))
    unfolding fetch_window
    after_record-Ended r id =
        rw id (Ended-bind p run_id laws _ _ (window_of-Kept opts.window) after_window-Ended)
