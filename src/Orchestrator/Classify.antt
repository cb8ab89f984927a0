-- ===== src/Orchestrator/Classify.antt =====
-- `classifyWithPartialFallback`, `repairOnce`, `makeFailedClassification`, `buildLabelSet` and
-- `messagesToInputs` of internal/orchestrator/orchestrator.go.
pub mod Partition
pub mod Valid
pub mod Calls
use emailer.Prelude.{
  ℕ, zero, suc, Bool, true, false, not, List, [], ◌∷◌, ◌++◌, Option, none, some, map, keep,
  contains, length, nat_beq, if◌then◌else◌,
}
use emailer.Prelude.Bytes.{Bytes, codes}
use emailer.Prelude.Int.{ℤ, pos, ltb_ℤ, beq_ℤ}
use emailer.Config.{Config}
use emailer.Errors.{Error, Result, ok, err, initial_classify, repair_prompt, repair_classify}
use emailer.Mail.Types.{
  MessageKey, key_eq, Message, message_key, Float64, Stage, parse, repair, AnalysisReason,
  parse_failed, repair_failed, repair_invalid, repair_no_item, AnalysisError, Classification,
}
use emailer.Mail.Classification.{default_labels}
use emailer.Llm.{InputMessage, Request, Response}
use emailer.Llm.Prompt.{repair_with_prompt}
use emailer.Llm.Parse.{ParseResult, parse_response}
use emailer.Orchestrator.World.{Pipeline, World, Act, ◌>>=◌, ◌>>◌, pure, call_provider}

-- The four results of `classifyWithPartialFallback`.
pub record Classified : Type 0 where
  pub valid : List Classification
  pub failed : List Classification
  pub errors : List AnalysisError
  pub error : Option Error

abbrev pub unknown_label : Bytes
unknown_label = codes "Unknown"

-- The zero float64.
abbrev zero_float : Float64
zero_float = record { negative = false; significand = 0; up = 0; down = 0 }

unfoldable pub make_failed_classification : MessageKey → Classification
make_failed_classification key = record {
  key = key;
  label = unknown_label;
  confidence = zero_float;
  reason = [];
  summary = [];
  key_points = [];
  action_items = [];
  priority = [];
  urgency = [];
  analysis_error = none;
}

abbrev pub input_keys : List InputMessage → List MessageKey
input_keys = map (λ (m : InputMessage). m.key)

abbrev pub classification_keys : List Classification → List MessageKey
classification_keys = map (λ (c : Classification). c.key)

-- The keys of the request that the classifications do not have, in the order of the request.
unfoldable pub missing : List MessageKey → List MessageKey → List MessageKey
missing known keys = keep (λ k. not (contains k known)) keys

unfoldable pub errors_for : Stage → AnalysisReason → List MessageKey → List AnalysisError
errors_for stage reason =
    map (λ (k : MessageKey). record { key = k; error = reason; stage = stage })

unfoldable pub failed_for : List MessageKey → List Classification
failed_for = map make_failed_classification

-- The repaired classifications with a new key, each key once, behind the valid ones.
unfoldable pub merge_repaired : List Classification → List Classification → List Classification
merge_repaired valid [] = valid
merge_repaired valid (c ∷ cs) =
    merge_repaired (if contains c.key (classification_keys valid) then valid else valid ++ c ∷ [])
      cs

unfoldable pub messages_to_inputs : List Message → List InputMessage
messages_to_inputs = map (λ (m : Message). record {
  key = message_key m;
  subject = m.subject;
  from = m.from;
  date = m.date;
  body = m.body;
  is_read = m.is_read;
})

-- What the fallback gives up with: the valid ones, and the rest as failed for one reason.
unfoldable pub give_up : Stage → AnalysisReason → List Classification → List MessageKey → Classified
unfolding failed_for errors_for
give_up stage reason valid keys = record {
  valid = valid;
  failed = failed_for keys;
  errors = errors_for stage reason keys;
  error = none;
}

module _ {S : Type 0} (p : Pipeline S) where
  unfoldable pub build_label_set : List Bytes
  build_label_set = default_labels ++ p.config.labels.custom

  abbrev pub parse_raw : Bytes → ParseResult × Option Error
  parse_raw raw = parse_response p.lower_tables p.unmarshal raw build_label_set

  -- The result of a repair call, from the provider's answer.
  abbrev pub repaired_raw : Response × Option Error → Result Bytes
  repaired_raw (resp, some e) = err (repair_classify e)
  repaired_raw (resp, none) = ok resp.raw_response

  abbrev pub repair_request : Bytes → Request
  repair_request prompt = record {
    model = p.config.llm.model;
    system_prompt = p.config.prompts.system_prompt;
    classification_prompt = prompt;
    labels = build_label_set;
    messages = [];
  }

  abbrev call_repair : Result Bytes → Act S (Result Bytes)
  call_repair (err e) = pure (err (repair_prompt e))
  call_repair (ok prompt) = do
    answer ← call_provider p (repair_request prompt)
    pure (repaired_raw answer)

  unfoldable pub repair_once : Bytes → Error → Act S (Result Bytes)
  unfolding call_provider repair_with_prompt
  repair_once raw parse_err =
      call_repair (repair_with_prompt p.error_text raw parse_err build_label_set)

  -- The merge of a repaired response, and what still fails after it.
  unfoldable pub merge_result :
      List MessageKey → List Classification → List Classification → Classified
  unfolding merge_repaired missing failed_for errors_for
  merge_result keys valid repaired =
      let all = merge_repaired valid repaired in
      let rest = missing (classification_keys all) keys in
      record {
        valid = all;
        failed = failed_for rest;
        errors = errors_for repair repair_no_item rest;
        error = none;
      }

  abbrev pub after_second_parse :
      List MessageKey
      → List Classification
      → List MessageKey
      → ParseResult × Option Error
      → Classified
  after_second_parse keys valid rest (repaired, some e) =
      give_up repair (repair_invalid e) valid rest
  after_second_parse keys valid rest (repaired, none) =
      merge_result keys valid repaired.classifications

  abbrev pub after_repair :
      List MessageKey → List Classification → List MessageKey → Result Bytes → Classified
  after_repair keys valid rest (err e) = give_up repair (repair_failed e) valid rest
  after_repair keys valid rest (ok raw) = after_second_parse keys valid rest (parse_raw raw)

  -- The configured attempts, 1 where they are negative; only 0 and not 0 are told apart.
  abbrev pub repair_disabled : Bool
  repair_disabled =
      let attempts = p.config.llm.analysis_repair_max_attempts in
      beq_ℤ (if ltb_ℤ attempts (pos 0) then pos 1 else attempts) (pos 0)

  abbrev pub attempt_repair :
      Bytes → Error → List MessageKey → List Classification → List MessageKey → Act S Classified
  attempt_repair raw parse_err keys valid rest = do
    answer ← repair_once raw parse_err
    pure (after_repair keys valid rest answer)

  -- From the first parse on; `rest` are the keys that it did not classify.
  abbrev pub partial_fallback :
      Bytes → Error → List MessageKey → List Classification → List MessageKey → Act S Classified
  partial_fallback raw parse_err keys valid [] =
      pure (record { valid = valid; failed = []; errors = []; error = none })
  partial_fallback raw parse_err keys valid (k ∷ rest) =
      if repair_disabled
      then pure (give_up parse (parse_failed parse_err) valid (k ∷ rest))
      else attempt_repair raw parse_err keys valid (k ∷ rest)

  abbrev pub after_first_parse :
      Bytes → List MessageKey → ParseResult × Option Error → Act S Classified
  after_first_parse raw keys (result, none) =
      pure (record { valid = result.classifications; failed = []; errors = []; error = none })
  after_first_parse raw keys (result, some e) =
      partial_fallback raw e keys result.classifications
        (missing (classification_keys result.classifications) keys)

  abbrev pub after_first_call : List MessageKey → Response × Option Error → Act S Classified
  after_first_call keys (resp, some e) =
      pure (record { valid = []; failed = []; errors = []; error = some (initial_classify e) })
  after_first_call keys (resp, none) =
      after_first_parse resp.raw_response keys (parse_raw resp.raw_response)

  unfoldable pub classify_with_partial_fallback : Request → Act S Classified
  unfolding call_provider repair_once give_up merge_result missing
  classify_with_partial_fallback request = do
    answer ← call_provider p request
    after_first_call (input_keys request.messages) answer
