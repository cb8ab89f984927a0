-- ===== src/Examples/Pipeline.antt =====
-- Examples for internal/orchestrator.
use emailer.Prelude.{◌+◌, ◌^◌, ◌≡◌, ◌⊎◌, refl, not, [], ◌∷◌, none, some, contains, list_beq}
use emailer.Prelude.Bytes.{Bytes, codes, bytes_eq, trim_left, trim_space, is_blank, to_lower}
use emailer.Prelude.Int.{pos, ◌-ℤ◌, ◌≤ℤ◌}
use emailer.Errors.{ok, some_items_invalid, unknown_label}
use emailer.Mail.Types.{MessageKey, Time, key_eq, key_beq, lt_zero, gt_one}
use emailer.Llm.Parse.{
  parse_response, parse_wrapper, conclude, parse_items, check_item, item_priority,
  normalize_priority, valid_priority, blank_points,
}
use emailer.Store.Noop.{get_last_successful_run_time, latest_success}
use emailer.Orchestrator.Classify.{
  Classified, build_label_set, classification_keys, classify_with_partial_fallback, parse_raw,
}
use emailer.Orchestrator.Classify.Partition.{error_keys, classify_partition}
use emailer.Orchestrator.World.{classified}
use emailer.Orchestrator.Classify.Calls.{Calls, IsRepair, classify_calls}
use emailer.Orchestrator.Classify.Valid.{Clean, classify_valid}
use emailer.Orchestrator.Sender.{extract_address, parse_sender}
use emailer.Orchestrator.Sender.Address.{Reported, parse_sender-Reported}
use mathlib.Core.List.Permᴰ.{swap}
use emailer.Orchestrator.TopN.{Entry, top_n}
use emailer.Orchestrator.TopN.AnyOrder.{IsMap, top_n_any_order}
use emailer.Orchestrator.Window.{fetch_window, hours, max_window_or_default}
use emailer.Orchestrator.Window.Bounds.{fetch_window_capped}
use emailer.Examples.{sample_pipeline, start, options, request}

abbrev sender_text : Bytes
sender_text = codes "Ann <ann@Example.org>"

parse_sender-Reported_example :
    Reported (λ s. s) (extract_address sender_text) (parse_sender (λ s. s) sender_text)
parse_sender-Reported_example = parse_sender-Reported (λ s. s) sender_text

fetch_window_capped_example :
    (since : Time) × ((fetch_window sample_pipeline options start).0 ≡ ok since)
    × ((pos (10 ^ 18 + 1) -ℤ hours 72) ≤ℤ since)
    × ((pos (10 ^ 18) -ℤ hours 24) ≤ℤ since)
    × ((since ≡ (pos (10 ^ 18) -ℤ hours 24)) ⊎ (since ≡ (pos (10 ^ 18 + 1) -ℤ hours 72)))
    × ((fetch_window sample_pipeline options start).1.store ≡ start.store)
    × ((fetch_window sample_pipeline options start).1.trace ≡ [])
unfolding get_last_successful_run_time latest_success max_window_or_default
fetch_window_capped_example = fetch_window_capped sample_pipeline options start none refl refl

abbrev second_key : MessageKey
second_key = record { account_label = codes "work"; uid = 2 }

answer_fails :
    (parse_raw sample_pipeline (codes "{}")).1 ≡ some (some_items_invalid (unknown_label 1 ∷ []))
unfolding parse_response parse_wrapper conclude parse_items check_item item_priority
    normalize_priority valid_priority blank_points is_blank trim_left contains list_beq lt_zero
    gt_one to_lower trim_space build_label_set key_beq
answer_fails = refl

abbrev outcome : Classified
outcome = (classify_with_partial_fallback sample_pipeline request start).0

classify_partition_example :
    (contains second_key (classification_keys outcome.failed)
      ≡ not (contains second_key (classification_keys outcome.valid)))
    × (error_keys outcome.errors ≡ classification_keys outcome.failed)
unfolding contains key_beq list_beq
classify_partition_example =
    classify_partition sample_pipeline request start (some_items_invalid (unknown_label 1 ∷ []))
      second_key refl answer_fails refl

classify_valid_example : Clean (build_label_set sample_pipeline) outcome.valid
classify_valid_example = classify_valid sample_pipeline request start

classify_calls_example :
    Calls
      (IsRepair sample_pipeline (sample_pipeline.classify 0 request))
      1
      (record start { calls = 1; trace = classified request ∷ [] })
      (classify_with_partial_fallback sample_pipeline request start).1
classify_calls_example = classify_calls sample_pipeline request start

abbrev first_entry : Entry
first_entry = (codes "ann@example.org", 3)

abbrev second_entry : Entry
second_entry = (codes "bob@example.org", 3)

two_keys : IsMap (first_entry ∷ second_entry ∷ [])
unfolding contains list_beq
two_keys = (refl, (refl, tt))

top_n_any_order_example :
    top_n (first_entry ∷ second_entry ∷ []) 1 ≡ top_n (second_entry ∷ first_entry ∷ []) 1
top_n_any_order_example =
    top_n_any_order (first_entry ∷ second_entry ∷ []) (second_entry ∷ first_entry ∷ []) 1 two_keys
      (swap refl refl)
