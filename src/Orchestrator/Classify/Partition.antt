-- ===== src/Orchestrator/Classify/Partition.antt =====
-- Every message of a request is classified or failed.
use emailer.Prelude.{
  ◌≡◌, refl, sym, ap, ◌∙◌, inl, inr, Bool, true, not, ◌&&◌, List, [], ◌∷◌, Option, none, some,
  arith, map, keep, contains, Bool-cases, ◌==◌,
}
use emailer.Prelude.Bytes.{Bytes}
use emailer.Errors.{Error, Result, ok, err}
use emailer.Mail.Types.{
  MessageKey, key_eq, Stage, AnalysisReason, AnalysisError, Classification, repair, repair_no_item,
  parse, parse_failed, repair_failed, repair_invalid,
}
use emailer.Llm.{Request, Response}
use emailer.Llm.Parse.{ParseResult}
use emailer.Orchestrator.World.{Pipeline, World, call_provider}
use emailer.Orchestrator.Classify.{
  Classified, classification_keys, input_keys, missing, errors_for, failed_for, give_up,
  merge_repaired, merge_result, make_failed_classification, after_second_parse, after_repair,
  repair_once, partial_fallback, parse_raw, after_first_parse, after_first_call, repair_disabled,
  classify_with_partial_fallback,
}

contains-keep :
    (k : MessageKey) (test : MessageKey → Bool) (keys : List MessageKey)
    → contains k (keep test keys) ≡ (contains k keys && test k)
unfolding contains keep
contains-keep k test [] = refl
contains-keep k test (j ∷ keys) = elim (Bool-cases (j == k)) [
  | inl same ↦
      let e : j ≡ k = (key_eq.test_iff j k).0 same in
      ground (arith, contains-keep k test keys, ap test e)
  | inr other ↦ ground (arith, contains-keep k test keys)
]

abbrev pub error_keys : List AnalysisError → List MessageKey
error_keys = map (λ (e : AnalysisError). e.key)

classification_keys-failed_for :
    (keys : List MessageKey) → classification_keys (failed_for keys) ≡ keys
unfolding failed_for make_failed_classification
classification_keys-failed_for [] = refl
classification_keys-failed_for (k ∷ keys) = ap (◌∷◌ k) (classification_keys-failed_for keys)

error_keys-errors_for :
    (stage : Stage) (reason : AnalysisReason) (keys : List MessageKey)
    → error_keys (errors_for stage reason keys) ≡ keys
unfolding errors_for
error_keys-errors_for stage reason [] = refl
error_keys-errors_for stage reason (k ∷ keys) = ap (◌∷◌ k) (error_keys-errors_for stage reason keys)

-- The failed classifications and the analysis errors are for the same keys, in the same order: the
-- keys that have no valid classification.
record IsPartition (keys : List MessageKey) (c : Classified) : Type 0 where
  aligned : error_keys c.errors ≡ classification_keys c.failed
  rest : classification_keys c.failed ≡ missing (classification_keys c.valid) keys

give_up-IsPartition :
    (stage : Stage) (reason : AnalysisReason) (valid : List Classification)
    (keys rest : List MessageKey)
    → missing (classification_keys valid) keys ≡ rest
    → IsPartition keys (give_up stage reason valid rest)
unfolding give_up
give_up-IsPartition stage reason valid keys rest e = record {
  aligned = error_keys-errors_for stage reason rest ∙ sym (classification_keys-failed_for rest);
  rest = classification_keys-failed_for rest ∙ sym e;
}

module _ {S : Type 0} (p : Pipeline S) where
  merge_result-IsPartition :
      (keys : List MessageKey) (valid repaired : List Classification)
      → IsPartition keys (merge_result p keys valid repaired)
  unfolding merge_result
  merge_result-IsPartition keys valid repaired =
      let rest : List MessageKey =
        missing (classification_keys (merge_repaired valid repaired)) keys in
      record {
        aligned =
            error_keys-errors_for repair repair_no_item rest
            ∙ sym (classification_keys-failed_for rest);
        rest = classification_keys-failed_for rest;
      }

  module _ (keys : List MessageKey) (valid : List Classification) where
    after_second_parse-IsPartition :
        (rest : List MessageKey) (r : ParseResult × Option Error)
        → missing (classification_keys valid) keys ≡ rest
        → IsPartition keys (after_second_parse p keys valid rest r)
    after_second_parse-IsPartition rest (repaired, some x) e =
        give_up-IsPartition repair (repair_invalid x) valid keys rest e
    after_second_parse-IsPartition rest (repaired, none) e =
        merge_result-IsPartition keys valid repaired.classifications

    after_repair-IsPartition :
        (rest : List MessageKey) (r : Result Bytes)
        → missing (classification_keys valid) keys ≡ rest
        → IsPartition keys (after_repair p keys valid rest r)
    after_repair-IsPartition rest (err x) e =
        give_up-IsPartition repair (repair_failed x) valid keys rest e
    after_repair-IsPartition rest (ok raw) e =
        after_second_parse-IsPartition rest (parse_raw p raw) e

    partial_fallback-IsPartition :
        (raw : Bytes) (x : Error) (rest : List MessageKey) (w : World S)
        → missing (classification_keys valid) keys ≡ rest
        → IsPartition keys (partial_fallback p raw x keys valid rest w).0
    partial_fallback-IsPartition raw x [] w e = record { aligned = refl; rest = sym e }
    partial_fallback-IsPartition raw x (k ∷ rest) w e = elim (Bool-cases (repair_disabled p)) [
      | inl off ↦ rw off (give_up-IsPartition parse (parse_failed x) valid keys (k ∷ rest) e)
      | inr on ↦ rw on (after_repair-IsPartition (k ∷ rest) (repair_once p raw x w).0 e)
    ]

  after_first_parse-IsPartition :
      (raw : Bytes) (keys : List MessageKey) (r : ParseResult × Option Error) (x : Error)
      (w : World S)
      → r.1 ≡ some x
      → IsPartition keys (after_first_parse p raw keys r w).0
  after_first_parse-IsPartition raw keys (result, none) x w e = cc
  after_first_parse-IsPartition raw keys (result, some y) x w e =
      partial_fallback-IsPartition keys result.classifications raw y
        (missing (classification_keys result.classifications) keys) w refl

  after_first_call-IsPartition :
      (keys : List MessageKey) (answer : Response × Option Error) (x : Error) (w : World S)
      → answer.1 ≡ none
      → (parse_raw p answer.0.raw_response).1 ≡ some x
      → IsPartition keys (after_first_call p keys answer w).0
  after_first_call-IsPartition keys (resp, some y) x w a e = cc
  after_first_call-IsPartition keys (resp, none) x w a e =
      after_first_parse-IsPartition resp.raw_response keys (parse_raw p resp.raw_response) x w e

  -- When the provider answers and its response does not parse cleanly, every message of the request
  -- is accounted for, with or without a repair: its key is among the failed classifications exactly
  -- if it is not among the valid ones. The analysis errors name the failed keys one for one, in order.
  pub classify_partition :
      (request : Request) (w : World S) (x : Error) (k : MessageKey)
      → (p.classify w.calls request).1 ≡ none
      → (parse_raw p (p.classify w.calls request).0.raw_response).1 ≡ some x
      → contains k (input_keys request.messages) ≡ true
      → (contains k (classification_keys (classify_with_partial_fallback p request w).0.failed)
          ≡ not (
              contains k
                (classification_keys (classify_with_partial_fallback p request w).0.valid)))
        × (error_keys (classify_with_partial_fallback p request w).0.errors
            ≡ classification_keys (classify_with_partial_fallback p request w).0.failed)
  unfolding classify_with_partial_fallback missing call_provider
  classify_partition request w x k a e h =
      let keys : List MessageKey = input_keys request.messages in
      let w' : World S = (call_provider p request w).1 in
      let answer = p.classify w.calls request in
      let whole : IsPartition keys (after_first_call p keys answer w').0 =
        after_first_call-IsPartition keys answer x w' a e in
      let valid : List MessageKey =
        classification_keys (after_first_call p keys answer w').0.valid in
      (
        ap (contains k) whole.rest ∙ contains-keep k (λ j. not (contains j valid)) keys ∙ rw h,
        whole.aligned,
      )
