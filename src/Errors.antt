-- ===== src/Errors.antt =====
-- The errors of the components as values: one constructor for each place that makes or wraps one.
-- What `fmt.Errorf` prints is not modelled; `external` holds the text of an error from outside.
use emailer.Prelude.{ℕ, List, ◌≡◌, refl, ◌⊎◌, inl, inr}
use emailer.Prelude.Bytes.{Bytes}

-- The findings on one item of an LLM response, each with the item's position.
pub data ItemError : Type 0 where
  duplicate_key unknown_label confidence_out_of_range invalid_priority : ℕ → ItemError
  empty_summary empty_key_points : ℕ → ItemError
  empty_key_point : ℕ → ℕ → ItemError

pub data Error : Type 0 where
  external : Bytes → Error
  -- mail
  fetch_cancelled fetch_no_ingester : Bytes → Error
  -- store
  run_not_found : Error
  no_time_layout : Bytes → Error
  -- `fmt.Errorf("<what>: %w", e)`
  wrapped : Bytes → Error → Error
  -- llm
  empty_response invalid_schema_version unsupported_schema_version : Error
  empty_classifications : Error
  all_items_invalid some_items_invalid : List ItemError → Error
  invalid_json : Error → Error
  repair_empty_raw : Error
  -- orchestrator
  record_run window initial_classify repair_prompt repair_classify : Error → Error
  all_accounts_failed : ℕ → Error

-- A Go function that returns a value and an error.
pub data Result {ℓ} (A : Type ℓ) : Type ℓ where
  ok : A → Result A
  err : Error → Result A

pub Result-cases {ℓ} :
    {A : Type ℓ} (r : Result A) → ((e : Error) × (r ≡ err e)) ⊎ ((a : A) × (r ≡ ok a))
Result-cases (ok a) = inr (a, refl)
Result-cases (err e) = inl (e, refl)
