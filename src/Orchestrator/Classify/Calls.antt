-- ===== src/Orchestrator/Classify/Calls.antt =====
-- What the fallback does to the world: provider calls and nothing else.
use emailer.Prelude.{
  ℕ, ◌+◌, ◌≡◌, refl, ap, false, inl, inr, List, [], ◌∷◌, Option, none, some, Bool-cases,
}
use emailer.Prelude.Bytes.{Bytes}
use emailer.Errors.{Error, Result, ok, err}
use emailer.Mail.Types.{MessageKey, Classification}
use emailer.Llm.{Request, Response}
use emailer.Llm.Prompt.{repair_with_prompt}
use emailer.Llm.Parse.{ParseResult}
use emailer.Orchestrator.World.{Pipeline, World, call_provider, classified}
use emailer.Orchestrator.Classify.{
  classification_keys, input_keys, missing, call_repair, repair_request, repair_once,
  partial_fallback, parse_raw, build_label_set, after_first_parse, after_first_call,
  repair_disabled, classify_with_partial_fallback,
}

-- From `w` to `w'` there were at most `n` provider calls, each with a request of the kind `P`, and
-- nothing else happened.
pub data Calls {S : Type 0} (P : Request → Type 0) : ℕ → World S → World S → Type 0 where
  none_made : {n : ℕ} {w : World S} → Calls P n w w
  made :
      {n : ℕ} {w w' : World S} (request : Request)
      → P request
      → Calls P n (record w { calls = w.calls + 1; trace = classified request ∷ w.trace }) w'
      → Calls P (n + 1) w w'

-- A request to repair the answer to a request: that answer came without an error but did not parse
-- cleanly, repairs are enabled, and the prompt is the repair prompt for the raw answer and the error
-- of the parser; there are no messages in it.
pub record IsRepair {S : Type 0} (p : Pipeline S) (answer : Response × Option Error) (r : Request)
    : Type 0 where
  pub answered : answer.1 ≡ none
  pub enabled : repair_disabled p ≡ false
  pub parse_error : Error
  pub rejected : (parse_raw p answer.0.raw_response).1 ≡ some parse_error
  pub asks :
      repair_with_prompt p.error_text answer.0.raw_response parse_error (build_label_set p)
      ≡ ok r.classification_prompt
  pub labels : r.labels ≡ build_label_set p
  pub no_messages : r.messages ≡ []

module _ {S : Type 0} (p : Pipeline S) (P : Request → Type 0) where
  call_repair-Calls :
      (prompt : Result Bytes) (w : World S)
      → ((text : Bytes) → prompt ≡ ok text → P (repair_request p text))
      → Calls P 1 w (call_repair p prompt w).1
  unfolding call_provider
  call_repair-Calls (err x) w h = none_made
  call_repair-Calls (ok prompt) w h = made {n = 0} _ (h prompt refl) none_made

  repair_once-Calls :
      (raw : Bytes) (x : Error) (w : World S)
      → ((text : Bytes)
          → repair_with_prompt p.error_text raw x (build_label_set p) ≡ ok text
          → P (repair_request p text))
      → Calls P 1 w (repair_once p raw x w).1
  unfolding repair_once
  repair_once-Calls raw x w h =
      call_repair-Calls (repair_with_prompt p.error_text raw x (build_label_set p)) w h

  partial_fallback-Calls :
      (raw : Bytes) (x : Error) (keys : List MessageKey) (valid : List Classification)
      (rest : List MessageKey) (w : World S)
      → (repair_disabled p ≡ false
          → (text : Bytes) → repair_with_prompt p.error_text raw x (build_label_set p) ≡ ok text
          → P (repair_request p text))
      → Calls P 1 w (partial_fallback p raw x keys valid rest w).1
  partial_fallback-Calls raw x keys valid [] w h = none_made
  partial_fallback-Calls raw x keys valid (k ∷ rest) w h = elim (Bool-cases (repair_disabled p)) [
    | inl off ↦ rw off none_made
    | inr on ↦ rw on (repair_once-Calls raw x w (h on))
  ]

module _ {S : Type 0} (p : Pipeline S) (answer : Response × Option Error) where
  after_first_parse-Calls :
      (keys : List MessageKey) (r : ParseResult × Option Error) (w : World S)
      → answer.1 ≡ none
      → parse_raw p answer.0.raw_response ≡ r
      → Calls (IsRepair p answer) 1 w (after_first_parse p answer.0.raw_response keys r w).1
  after_first_parse-Calls keys (result, none) w fine e = none_made
  after_first_parse-Calls keys (result, some x) w fine e =
      partial_fallback-Calls p (IsRepair p answer) answer.0.raw_response x keys
        result.classifications (missing (classification_keys result.classifications) keys) w
        (λ on text prompt. record {
          answered = fine;
          enabled = on;
          parse_error = x;
          rejected = ap (λ (q : ParseResult × Option Error). q.1) e;
          asks = prompt;
          labels = refl;
          no_messages = refl;
        })

after_first_call-Calls :
    {S : Type 0} (p : Pipeline S) (keys : List MessageKey) (answer : Response × Option Error)
    (w : World S)
    → Calls (IsRepair p answer) 1 w (after_first_call p keys answer w).1
after_first_call-Calls p keys (resp, some x) w = none_made
after_first_call-Calls p keys (resp, none) w =
    after_first_parse-Calls p (resp, none) keys (parse_raw p resp.raw_response) w refl refl

module _ {S : Type 0} (p : Pipeline S) where
  -- A classification makes one or two provider calls, and does nothing else: the store, the clock
  -- and the other effects are as before. The first call is with the request itself. A second one is
  -- made only where repairs are enabled and the first answer came without an error but did not
  -- parse cleanly; it has the repair prompt for that answer and the error of the parser.
  pub classify_calls :
      (request : Request) (w : World S)
      → Calls
          (IsRepair p (p.classify w.calls request))
          1
          (record w { calls = w.calls + 1; trace = classified request ∷ w.trace })
          (classify_with_partial_fallback p request w).1
  unfolding classify_with_partial_fallback call_provider
  classify_calls request w =
      after_first_call-Calls p (input_keys request.messages) (p.classify w.calls request)
        (record w { calls = w.calls + 1; trace = classified request ∷ w.trace })

  pub Calls-store :
      {P : Request → Type 0} {n : ℕ} {w w' : World S} → Calls P n w w' → w'.store ≡ w.store
  Calls-store none_made = refl
  Calls-store (made request h c) = Calls-store c
