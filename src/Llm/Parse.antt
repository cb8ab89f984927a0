-- ===== src/Llm/Parse.antt =====
-- internal/llm/parse.go: from the raw text of an LLM to validated classifications.
pub mod Items
pub mod Sound
use emailer.Prelude.{
  ℕ, zero, suc, ◌+◌, ◌-◌, Bool, true, false, not, ◌&&◌, ◌||◌, List, [], ◌∷◌, ◌++◌, Option, none,
  some, length, take, drop, if◌then◌else◌, ◌==◌, contains, ltb, leb, nat_beq,
}
use emailer.Prelude.Bytes.{
  Bytes, codes, bytes_eq, trim_space, is_blank, has_prefix, index, last_index, to_lower,
}
use emailer.Prelude.Int.{ℤ, pos, ltb_ℤ}
use emailer.Errors.{
  Error, ItemError, Result, ok, err, duplicate_key, unknown_label, confidence_out_of_range,
  invalid_priority, empty_summary, empty_key_points, empty_key_point, empty_response, invalid_json,
  invalid_schema_version, unsupported_schema_version, empty_classifications, all_items_invalid,
  some_items_invalid,
}
use emailer.Mail.Types.{MessageKey, key_eq, Classification, Float64, lt_zero, gt_one}

abbrev pub current_schema_version : ℤ
current_schema_version = pos 1

pub record ParseResult : Type 0 where
  pub classifications : List Classification
  pub schema_version : ℤ

pub record ClassificationItem : Type 0 where
  pub uid : ℕ
  pub account : Bytes
  pub label : Bytes
  pub confidence : Float64
  pub reason : Bytes
  pub summary : Bytes
  pub key_points : List Bytes
  pub action_items : List Bytes
  pub priority : Bytes
  pub urgency : Bytes

pub record ClassificationsWrapper : Type 0 where
  pub schema_version : ℤ
  pub classifications : List ClassificationItem

abbrev fence : Bytes
fence = codes "```"

abbrev cut_fence : Bytes → Option ℕ → Bytes
cut_fence s none = s
cut_fence s (some i) = take i s

unfoldable pub strip_fences : Bytes → Bytes
unfolding trim_space has_prefix last_index
strip_fences raw =
    let s = trim_space raw in
    let body =
      if has_prefix s (codes "```json")
      then drop 7 s
      else if has_prefix s fence
      then drop 3 s
      else s in
    trim_space (cut_fence body (last_index body fence))

-- raw[start : end+1], or raw where there are no braces in this order.
abbrev pub between : Bytes → Option ℕ → Option ℕ → Bytes
between raw (some start) (some end) = if leb end start then raw else drop start (take (end + 1) raw)
between raw none _ = raw
between raw (some start) none = raw

unfoldable pub sanitize_response : Bytes → Bytes
unfolding trim_space index last_index
sanitize_response text =
    let raw = trim_space text in between raw (index raw (codes "{")) (last_index raw (codes "}"))

unfoldable pub valid_priority : Bytes → Bool
valid_priority p = p == codes "high" || p == codes "medium" || p == codes "low"

abbrev pub item_key : ClassificationItem → MessageKey
item_key item = record { account_label = item.account; uid = item.uid }

-- The blank key points, with the item's position and theirs from `j`.
unfoldable pub blank_points : ℕ → ℕ → List Bytes → List ItemError
blank_points i j [] = []
blank_points i j (p ∷ ps) =
    let rest = blank_points i (j + 1) ps in if is_blank p then empty_key_point i j ∷ rest else rest

-- What the loop body makes of an item that is no duplicate.
pub data Checked : Type 0 where
  rejected : ItemError → List ItemError → Checked
  accepted : Classification → Checked

accept : ClassificationItem → Bytes → Classification
accept item priority = record {
  key = item_key item;
  label = item.label;
  confidence = item.confidence;
  reason = item.reason;
  summary = item.summary;
  key_points = item.key_points;
  action_items = item.action_items;
  priority = priority;
  urgency = item.urgency;
  analysis_error = none;
}

-- The check of the key points, on the blank ones among them.
check_points : ℕ → ClassificationItem → Bytes → List ItemError → Checked
check_points i item priority [] = accepted (accept item priority)
check_points i item priority (e ∷ es) = rejected e es

abbrev pub Parsed : Type 0
Parsed = List Classification × List ItemError

abbrev pub add_checked : Checked → Parsed → Parsed
add_checked (rejected e es) (results, errs) = (results, e ∷ (es ++ errs))
add_checked (accepted c) (results, errs) = (c ∷ results, errs)

abbrev pub empty_result : ParseResult
empty_result = record { classifications = []; schema_version = pos 0 }

-- What the loop's results and errors come to.
unfoldable pub conclude : ℤ → Parsed → ParseResult × Option Error
conclude version (results, []) =
    (record { classifications = results; schema_version = version }, none)
conclude version ([], e ∷ errs) = (empty_result, some (all_items_invalid (e ∷ errs)))
conclude version (c ∷ results, e ∷ errs) = (
  record { classifications = c ∷ results; schema_version = version },
  some (some_items_invalid (e ∷ errs)),
)

-- The argument is the case tables of `strings.ToLower`.
module _ (tables : Bytes → Bytes) where
  unfoldable pub normalize_priority : Bytes → Bytes
  normalize_priority p = to_lower tables (trim_space p)

  unfoldable pub normalize_legacy_urgency : Bytes → Bytes
  unfolding normalize_priority
  normalize_legacy_urgency urgency =
      let normalized = normalize_priority urgency in
      if normalized == codes "normal" then codes "medium" else normalized

  -- The priority of an item, from its legacy urgency where it has none.
  unfoldable pub item_priority : ClassificationItem → Bytes
  unfolding normalize_legacy_urgency
  item_priority item =
      let priority = normalize_priority item.priority in
      if priority == [] && not (is_blank item.urgency)
      then normalize_legacy_urgency item.urgency
      else priority

  unfoldable pub check_item : List Bytes → ℕ → ClassificationItem → Checked
  unfolding check_points accept blank_points
  check_item labels i item =
      let priority = item_priority item in
      if not (contains item.label labels || item.label == codes "Unknown")
      then rejected (unknown_label i) []
      else if lt_zero item.confidence || gt_one item.confidence
      then rejected (confidence_out_of_range i) []
      else if not (priority == []) && not (valid_priority priority)
      then rejected (invalid_priority i) []
      else if is_blank item.summary
      then rejected (empty_summary i) []
      else if nat_beq (length item.key_points) 0
      then rejected (empty_key_points i) []
      else check_points i item priority (blank_points i 0 item.key_points)

  -- The loop over the items from position `i`, with the keys seen before.
  unfoldable pub parse_items : List Bytes → ℕ → List MessageKey → List ClassificationItem → Parsed
  parse_items labels i seen [] = ([], [])
  parse_items labels i seen (item ∷ items) =
      let duplicate = contains (item_key item) seen in
      let (results, errs) =
        parse_items labels (i + 1) (if duplicate then seen else item_key item ∷ seen) items in
      if duplicate
      then (results, duplicate_key i ∷ errs)
      else add_checked (check_item labels i item) (results, errs)

  unfoldable pub parse_wrapper :
      List Bytes → Result ClassificationsWrapper → ParseResult × Option Error
  unfolding conclude parse_items
  parse_wrapper labels (err e) = (empty_result, some (invalid_json e))
  parse_wrapper labels (ok w) =
      if ltb_ℤ w.schema_version (pos 0)
      then (empty_result, some invalid_schema_version)
      else if ltb_ℤ current_schema_version w.schema_version
      then (empty_result, some unsupported_schema_version)
      else if nat_beq (length w.classifications) 0
      then (empty_result, some empty_classifications)
      else conclude w.schema_version (parse_items labels 0 [] w.classifications)

  -- The argument is `json.Unmarshal` into the wrapper.
  module _ (unmarshal : Bytes → Result ClassificationsWrapper) where
    unfoldable pub parse_response : Bytes → List Bytes → ParseResult × Option Error
    unfolding parse_wrapper
    parse_response raw labels =
        if is_blank raw
        then (empty_result, some empty_response)
        else parse_wrapper labels (unmarshal (sanitize_response (strip_fences raw)))
