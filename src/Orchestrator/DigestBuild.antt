-- ===== src/Orchestrator/DigestBuild.antt =====
-- `buildDigestDataPartial` of internal/orchestrator/orchestrator.go. `buildDigestData`, an older
-- version of it, is called by nothing.
use emailer.Prelude.{ℕ, ◌+◌, Bool, List, [], ◌∷◌, some, map, or_else, is_some, if◌then◌else◌}
use emailer.Prelude.Bytes.{Bytes, bytes_eq}
use emailer.Prelude.Dict.{Dict, get, put}
use emailer.Errors.{Error}
use emailer.Mail.Types.{
  MessageKey, key_eq, Message, message_key, unknown, analysis_failed, AnalysisError, Classification,
}
use emailer.Mail.Pool.{FetchAllResult}
use emailer.Digest.{MessageEntry, AccountStats, DigestData}
use emailer.Orchestrator.World.{Pipeline, Act, ◌>>=◌, pure, now}
use emailer.Orchestrator.Classify.{Classified, make_failed_classification}
use emailer.Orchestrator.Stats.{Counts, count_up, build_digest_stats}
use emailer.Orchestrator.Highlights.{build_highlights}

abbrev pub ClassMap : Type 0
ClassMap = Dict MessageKey Classification

unfoldable pub put_valid : List Classification → ClassMap → ClassMap
put_valid [] m = m
put_valid (c ∷ cs) m = put_valid cs (put c.key c m)

-- The failed classifications with their analysis errors, matched by position.
unfoldable pub put_failed : List Classification → List AnalysisError → ClassMap → ClassMap
put_failed [] errors m = m
put_failed (c ∷ cs) (e ∷ errors) m =
    put_failed cs errors (put c.key (record c { analysis_error = some e }) m)
put_failed (c ∷ cs) [] m = put_failed cs [] (
    put c.key
      (record c {
        analysis_error = some (record { key = c.key; error = analysis_failed; stage = unknown });
      })
      m)

unfoldable pub class_map : Classified → ClassMap
unfolding put_valid put_failed
class_map c = put_failed c.failed c.errors (put_valid c.valid [])

unfoldable pub entry_of : ClassMap → Message → MessageEntry
unfolding make_failed_classification
entry_of m message = record {
  subject = message.subject;
  from = message.from;
  date = message.date;
  is_read = message.is_read;
  classification =
      or_else (get (message_key message) m) (make_failed_classification (message_key message));
  excerpt = message.body;
}

abbrev pub analysis_failed_entry : MessageEntry → Bool
analysis_failed_entry e = is_some e.classification.analysis_error

-- analysisFailedCount
unfoldable pub count_analysis_failed : List MessageEntry → ℕ
count_analysis_failed [] = 0
count_analysis_failed (e ∷ es) =
    (if analysis_failed_entry e then 1 else 0) + count_analysis_failed es

-- analysisFailedPerAccount
unfoldable pub failed_per_account : ClassMap → List Message → Counts → Counts
unfolding count_up entry_of
failed_per_account m [] counts = counts
failed_per_account m (message ∷ ms) counts = failed_per_account m ms (
    if analysis_failed_entry (entry_of m message)
    then count_up message.account_label counts
    else counts)

module _ {S : Type 0} (p : Pipeline S) where
  unfoldable pub build_digest_data_partial :
      Bytes → List Message → Classified → List FetchAllResult → Dict Bytes Error → Act S DigestData
  unfolding class_map entry_of count_analysis_failed failed_per_account build_digest_stats
      build_highlights
  build_digest_data_partial run_id messages c fetch_results account_errors =
      let m = class_map c in
      let entries = map (entry_of m) messages in
      let failed = count_analysis_failed entries in
      let per_account = failed_per_account m messages [] in
      let stats =
        build_digest_stats p.lower_tables messages entries c.valid fetch_results account_errors in
      let global = record (stats.global) { analysis_failed_count = failed } in
      let accounts =
        map
          (λ (a : AccountStats). record a {
            analysis_failed_count = or_else (get a.account_label per_account) 0;
          })
          stats.accounts in
      do
        highlights ←
            build_highlights p run_id (record stats { global = global; accounts = accounts })
        t ← now p
        pure (record {
          run_id = run_id;
          generated_at = t;
          messages = entries;
          total_fetched = global.fetched_count;
          total_classified = global.classified_count;
          failed_count = global.failed_count;
          global_stats = global;
          account_stats = accounts;
          analysis_failed_count = failed;
          highlights = highlights;
        })
