-- ===== src/Llm/Parse/Sound.antt =====
-- What ParseResponse accepts.
use emailer.Prelude.{
  ◌≡◌, ◌≢◌, refl, inl, inr, false, List, [], ◌∷◌, Option, none, arith, length, map, All,
  AllDistinct, Bool-cases, nat_beq, if-keeps,
}
use emailer.Prelude.Bytes.{Bytes, bytes_eq, is_blank}
use emailer.Prelude.Int.{ℤ, pos, ltb_ℤ}
use emailer.Errors.{Error, Result, ok, err}
use emailer.Mail.Types.{key_eq, Classification}
use emailer.Llm.Parse.{
  sanitize_response, strip_fences, current_schema_version, Parsed, ClassificationsWrapper,
  ParseResult, item_key, parse_items, conclude, parse_wrapper, parse_response,
}
use emailer.Llm.Parse.Items.{IsSound, keys_of, parse_items-ParsedSound, parse_items-keys}

conclude-classifications :
    (P : List Classification → Type 0) (version : ℤ) (r : Parsed)
    → P []
    → P r.0
    → P (conclude version r).0.classifications
unfolding conclude
conclude-classifications P version (cs, []) z h = h
conclude-classifications P version ([], e ∷ errs) z h = z
conclude-classifications P version (c ∷ cs, e ∷ errs) z h = h

conclude-none :
    (version : ℤ) (r : Parsed)
    → (conclude version r).1 ≡ none
    → (r.1 ≡ []) × ((conclude version r).0.classifications ≡ r.0)
unfolding conclude
conclude-none version (cs, []) e = (refl, refl)
conclude-none version ([], x ∷ errs) e = cc
conclude-none version (c ∷ cs, x ∷ errs) e = cc

abbrev pub Accepted : List Bytes → List Classification → Type 0
Accepted labels cs = All (IsSound labels) cs × AllDistinct (keys_of cs)

module _ (tables : Bytes → Bytes) (unmarshal : Bytes → Result ClassificationsWrapper) where
  parse_wrapper-Accepted :
      (labels : List Bytes) (w : Result ClassificationsWrapper)
      → Accepted labels (parse_wrapper tables labels w).0.classifications
  unfolding parse_wrapper
  parse_wrapper-Accepted labels (err e) = (tt, tt)
  parse_wrapper-Accepted labels (ok w) =
      let P : ParseResult × Option Error → Type 0 = λ r. Accepted labels r.0.classifications in
      let parsed : Parsed = parse_items tables labels 0 [] w.classifications in
      let all = parse_items-ParsedSound tables labels 0 [] w.classifications in
      if-keeps P (ltb_ℤ w.schema_version (pos 0)) _ _ (tt, tt)
        (if-keeps P (ltb_ℤ current_schema_version w.schema_version) _ _ (tt, tt)
          (if-keeps P (nat_beq (length w.classifications) 0) _ _ (tt, tt)
            (conclude-classifications (Accepted labels) w.schema_version parsed (tt, tt)
              (all.sound, all.distinct))))

  -- Whatever the LLM wrote, and whether ParseResponse reports an error or not, each classification
  -- that it hands on has a configured label or "Unknown", a confidence in [0, 1], a priority that is
  -- empty or one of the three, a summary and key points none of which is blank, and no analysis
  -- error; and no two of them have the same key.
  pub parse_response_sound :
      (raw : Bytes) (labels : List Bytes)
      → Accepted labels (parse_response tables unmarshal raw labels).0.classifications
  unfolding parse_response
  parse_response_sound raw labels =
      if-keeps (λ (r : ParseResult × Option Error). Accepted labels r.0.classifications)
        (is_blank raw) _ _ (tt, tt)
        (parse_wrapper-Accepted labels (unmarshal (sanitize_response (strip_fences raw))))

  parse_wrapper-none :
      (labels : List Bytes) (r : Result ClassificationsWrapper)
      → (parse_wrapper tables labels r).1 ≡ none
      → (w : ClassificationsWrapper) × (r ≡ ok w)
        × (w.classifications ≢ [])
        × (keys_of (parse_wrapper tables labels r).0.classifications
            ≡ map item_key w.classifications)
  unfolding parse_wrapper
  parse_wrapper-none labels (err x) e = cc
  parse_wrapper-none labels (ok w) e =
      let parsed : Parsed = parse_items tables labels 0 [] w.classifications in
      let (low, high, some_item, last) : (ltb_ℤ w.schema_version (pos 0) ≡ false)
          × (ltb_ℤ current_schema_version w.schema_version ≡ false)
          × (nat_beq (length w.classifications) 0 ≡ false)
          × ((conclude w.schema_version parsed).1 ≡ none) =
        (ground arith, ground arith, ground arith, ground arith) in
      let (no_errors, same) = conclude-none w.schema_version parsed last in
      (
        w,
        refl,
        λ n. cc (some_item),
        rw (low, high, some_item, same)
            (parse_items-keys tables labels 0 [] w.classifications no_errors),
      )

  -- When ParseResponse reports no error, the response's JSON held at least one item, and the
  -- classifications answer all of its items, one for each, in the same order and with the same keys.
  pub parse_response_complete :
      (raw : Bytes) (labels : List Bytes)
      → (parse_response tables unmarshal raw labels).1 ≡ none
      → (w : ClassificationsWrapper) × (unmarshal (sanitize_response (strip_fences raw)) ≡ ok w)
        × (w.classifications ≢ [])
        × (keys_of (parse_response tables unmarshal raw labels).0.classifications
            ≡ map item_key w.classifications)
  unfolding parse_response
  parse_response_complete raw labels e = elim (Bool-cases (is_blank raw)) [
    | inl blank ↦ absurd (ground arith)
    | inr full ↦ rw full (
        parse_wrapper-none labels (unmarshal (sanitize_response (strip_fences raw))) (rw full at e))
  ]
