-- ===== src/Orchestrator/Classify/Valid.antt =====
-- The classifications that the fallback hands on are valid ones, each key once.
use emailer.Prelude.{
  ◌≡◌, refl, inl, inr, false, ◌||◌, List, [], ◌∷◌, ◌++◌, Option, none, some, arith, contains,
  Bool-cases, ◌==◌, All, AllDistinct,
}
use emailer.Prelude.Bytes.{Bytes}
use emailer.Errors.{Error, Result, ok, err}
use emailer.Mail.Types.{MessageKey, key_eq, Classification}
use emailer.Llm.{Request, Response}
use emailer.Llm.Parse.{ParseResult}
use emailer.Llm.Parse.Items.{IsSound}
use emailer.Llm.Parse.Sound.{parse_response_sound}
use emailer.Orchestrator.World.{Pipeline, World, call_provider}
use emailer.Orchestrator.Classify.{
  classification_keys, input_keys, missing, give_up, merge_repaired, merge_result,
  after_second_parse, after_repair, repair_once, partial_fallback, parse_raw, build_label_set,
  after_first_parse, after_first_call, repair_disabled, classify_with_partial_fallback,
}

-- Sound classifications with distinct keys.
abbrev pub Clean : List Bytes → List Classification → Type 0
Clean labels cs = All (IsSound labels) cs × AllDistinct (classification_keys cs)

All-concat :
    (P : Classification → Type 0) (cs : List Classification) (c : Classification)
    → All P cs
    → P c
    → All P (cs ++ c ∷ [])
All-concat P [] c h q = (q, tt)
All-concat P (x ∷ cs) c (a, h) q = (a, All-concat P cs c h q)

contains-concat :
    (k : MessageKey) (cs : List Classification) (c : Classification)
    → contains k (classification_keys (cs ++ c ∷ []))
      ≡ (contains k (classification_keys cs) || c.key == k)
unfolding contains
contains-concat k [] c = ground arith
contains-concat k (x ∷ cs) c = ground (arith, contains-concat k cs c)

AllDistinct-concat :
    (cs : List Classification) (c : Classification)
    → contains c.key (classification_keys cs) ≡ false
    → AllDistinct (classification_keys cs)
    → AllDistinct (classification_keys (cs ++ c ∷ []))
unfolding contains
AllDistinct-concat [] c h d = (refl, tt)
AllDistinct-concat (x ∷ cs) c h (a, d) = (
  ground
      (arith, contains-concat x.key cs c, key_eq.test_iff x.key c.key, key_eq.test_iff c.key x.key),
  AllDistinct-concat cs c (ground arith) d,
)

merge_repaired-Clean :
    (labels : List Bytes) (valid repaired : List Classification)
    → Clean labels valid
    → All (IsSound labels) repaired
    → Clean labels (merge_repaired valid repaired)
unfolding merge_repaired
merge_repaired-Clean labels valid [] h s = h
merge_repaired-Clean labels valid (c ∷ cs) (a, d) (q, s) =
    elim (Bool-cases (contains c.key (classification_keys valid))) [
      | inl old ↦ rw old (merge_repaired-Clean labels valid cs (a, d) s)
      | inr new ↦ rw new (
          merge_repaired-Clean labels (valid ++ c ∷ []) cs
            (All-concat (IsSound labels) valid c a q, AllDistinct-concat valid c new d) s)
    ]

module _ {S : Type 0} (p : Pipeline S) where
  abbrev labels : List Bytes
  labels = build_label_set p

  parse_raw-Clean : (raw : Bytes) → Clean labels (parse_raw p raw).0.classifications
  parse_raw-Clean raw = parse_response_sound p.lower_tables p.unmarshal raw labels

  module _ (keys : List MessageKey) (valid : List Classification) (h : Clean labels valid) where
    after_second_parse-Clean :
        (rest : List MessageKey) (r : ParseResult × Option Error)
        → All (IsSound labels) r.0.classifications
        → Clean labels (after_second_parse p keys valid rest r).valid
    unfolding give_up merge_result
    after_second_parse-Clean rest (repaired, some x) s = h
    after_second_parse-Clean rest (repaired, none) s =
        merge_repaired-Clean labels valid repaired.classifications h s

    after_repair-Clean :
        (rest : List MessageKey) (r : Result Bytes)
        → Clean labels (after_repair p keys valid rest r).valid
    unfolding give_up
    after_repair-Clean rest (err x) = h
    after_repair-Clean rest (ok raw) =
        after_second_parse-Clean rest (parse_raw p raw) (parse_raw-Clean raw).0

    partial_fallback-Clean :
        (raw : Bytes) (x : Error) (rest : List MessageKey) (w : World S)
        → Clean labels (partial_fallback p raw x keys valid rest w).0.valid
    unfolding give_up
    partial_fallback-Clean raw x [] w = h
    partial_fallback-Clean raw x (k ∷ rest) w = elim (Bool-cases (repair_disabled p)) [
      | inl off ↦ rw off h
      | inr on ↦ rw on (after_repair-Clean (k ∷ rest) (repair_once p raw x w).0)
    ]

  after_first_parse-Clean :
      (raw : Bytes) (keys : List MessageKey) (r : ParseResult × Option Error) (w : World S)
      → Clean labels r.0.classifications
      → Clean labels (after_first_parse p raw keys r w).0.valid
  after_first_parse-Clean raw keys (result, none) w h = h
  after_first_parse-Clean raw keys (result, some x) w h =
      partial_fallback-Clean keys result.classifications h raw x
        (missing (classification_keys result.classifications) keys) w

  after_first_call-Clean :
      (keys : List MessageKey) (answer : Response × Option Error) (w : World S)
      → Clean labels (after_first_call p keys answer w).0.valid
  after_first_call-Clean keys (resp, some x) w = (tt, tt)
  after_first_call-Clean keys (resp, none) w =
      after_first_parse-Clean resp.raw_response keys (parse_raw p resp.raw_response) w
        (parse_raw-Clean resp.raw_response)

  -- Whatever the provider answers, to the first call and to a repair, the valid classifications
  -- are sound for the configured labels, and no key has two of them.
  pub classify_valid :
      (request : Request) (w : World S)
      → Clean labels (classify_with_partial_fallback p request w).0.valid
  unfolding classify_with_partial_fallback call_provider
  classify_valid request w =
      after_first_call-Clean (input_keys request.messages) (p.classify w.calls request)
        (call_provider p request w).1
