-- ===== src/Llm/Parse/Items.antt =====
-- The loop of `ParseResponse` over the items.
use emailer.Prelude.{
  ℕ, ◌+◌, ◌≡◌, ◌≢◌, refl, inl, inr, true, false, ◌||◌, List, [], ◌∷◌, none, arith, length, map,
  ◌==◌, contains, All, AllDistinct, Bool-cases, nat_beq,
}
use emailer.Prelude.Bytes.{Bytes, codes, bytes_eq, is_blank}
use emailer.Errors.{ItemError}
use emailer.Mail.Types.{MessageKey, key_eq, Classification, lt_zero, gt_one}
use emailer.Llm.Parse.{
  Parsed, add_checked, ClassificationItem, item_key, Checked, rejected, accepted, blank_points,
  item_priority, accept, check_points, check_item, parse_items, valid_priority,
}

-- What the rest of the program may rely on in a classification.
pub record IsSound (labels : List Bytes) (c : Classification) : Type 0 where
  pub known_label : (contains c.label labels || c.label == codes "Unknown") ≡ true
  pub in_range : (lt_zero c.confidence || gt_one c.confidence) ≡ false
  pub priority_form : (c.priority == [] || valid_priority c.priority) ≡ true
  pub has_summary : is_blank c.summary ≡ false
  pub has_points : c.key_points ≢ []
  pub full_points : All (λ p. is_blank p ≡ false) c.key_points
  pub no_error : c.analysis_error ≡ none

blank_points-nil :
    (i j : ℕ) (ps : List Bytes) → blank_points i j ps ≡ [] → All (λ p. is_blank p ≡ false) ps
unfolding blank_points
blank_points-nil i j [] e = tt
blank_points-nil i j (p ∷ ps) e = elim (Bool-cases (is_blank p)) [
  | inl b ↦ absurd (ground arith)
  | inr f ↦ (f, blank_points-nil i (j + 1) ps (ground arith))
]

abbrev pub keys_of : List Classification → List MessageKey
keys_of = map (λ (c : Classification). c.key)

-- The keys of the results: known to be distinct, and none of those seen before.
abbrev pub IsFresh : List MessageKey → List MessageKey → Type 0
IsFresh seen [] = Unit
IsFresh seen (k ∷ ks) = (contains k seen ≡ false) × IsFresh seen ks

IsFresh-drop :
    (k : MessageKey) (seen ks : List MessageKey)
    → IsFresh (k ∷ seen) ks
    → IsFresh seen ks × (contains k ks ≡ false)
unfolding contains
IsFresh-drop k seen [] h = (tt, refl)
IsFresh-drop k seen (j ∷ ks) (a, t) =
    let (p, q) = IsFresh-drop k seen ks t in
    ((ground arith, p), ground (arith, key_eq.test_iff j k, key_eq.test_iff k j))

pub record ParsedSound (labels : List Bytes) (seen : List MessageKey)
    (results : List Classification) : Type 0 where
  pub sound : All (IsSound labels) results
  pub distinct : AllDistinct (keys_of results)
  pub fresh : IsFresh seen (keys_of results)

module _ (tables : Bytes → Bytes) where
  check_points_lem :
      (i : ℕ) (item : ClassificationItem) (p : Bytes) (es : List ItemError) (c : Classification)
      → check_points i item p es ≡ accepted c
      → (es ≡ []) × (c ≡ accept item p)
  unfolding check_points
  check_points_lem i item p [] c e = (refl, cc)
  check_points_lem i item p (x ∷ es) c e = cc

  -- The tests that an accepted item has passed.
  check_item_tests :
      (labels : List Bytes) (i : ℕ) (item : ClassificationItem) (c : Classification)
      → check_item tables labels i item ≡ accepted c
      → ((contains item.label labels || item.label == codes "Unknown") ≡ true)
        × ((lt_zero item.confidence || gt_one item.confidence) ≡ false)
        × ((item_priority tables item == [] || valid_priority (item_priority tables item)) ≡ true)
        × (is_blank item.summary ≡ false)
        × (nat_beq (length item.key_points) 0 ≡ false)
        × (check_points i item (item_priority tables item) (blank_points i 0 item.key_points)
            ≡ accepted c)
  unfolding check_item
  check_item_tests labels i item c e = ground arith

  check_item_lem :
      (labels : List Bytes) (i : ℕ) (item : ClassificationItem) (c : Classification)
      → check_item tables labels i item ≡ accepted c
      → IsSound labels c × (c.key ≡ item_key item)
  unfolding accept
  check_item_lem labels i item c e =
      let (known, range, form, summary, points, rest) = check_item_tests labels i item c e in
      let (none_blank, same) =
        check_points_lem i item (item_priority tables item) (blank_points i 0 item.key_points) c
          rest in
      rw same (
        record {
          known_label = known;
          in_range = range;
          priority_form = form;
          has_summary = summary;
          has_points = λ n. cc (points);
          full_points = blank_points-nil i 0 item.key_points none_blank;
          no_error = refl;
        },
        refl,
      )

  add_checked-ParsedSound :
      (labels : List Bytes) (i : ℕ) (seen : List MessageKey) (item : ClassificationItem)
      (r : Parsed) (checked : Checked)
      → check_item tables labels i item ≡ checked
      → contains (item_key item) seen ≡ false
      → ParsedSound labels (item_key item ∷ seen) r.0
      → ParsedSound labels seen (add_checked checked r).0
  add_checked-ParsedSound labels i seen item (cs, errs) (rejected e es) q new h = record {
    sound = h.sound;
    distinct = h.distinct;
    fresh = (IsFresh-drop (item_key item) seen (keys_of cs) h.fresh).0;
  }
  add_checked-ParsedSound labels i seen item (cs, errs) (accepted c) q new h =
      let (good, key) = check_item_lem labels i item c q in
      let (fresh', apart) = IsFresh-drop (item_key item) seen (keys_of cs) h.fresh in
      record {
        sound = (good, h.sound);
        distinct = (rw key apart, h.distinct);
        fresh = (rw key new, fresh');
      }

  pub parse_items-ParsedSound :
      (labels : List Bytes) (i : ℕ) (seen : List MessageKey) (items : List ClassificationItem)
      → ParsedSound labels seen (parse_items tables labels i seen items).0
  unfolding parse_items
  parse_items-ParsedSound labels i seen [] = record { sound = tt; distinct = tt; fresh = tt }
  parse_items-ParsedSound labels i seen (item ∷ items) =
      elim (Bool-cases (contains (item_key item) seen)) [
        | inl dup ↦ rw dup (parse_items-ParsedSound labels (i + 1) seen items)
        | inr new ↦ rw new (
            add_checked-ParsedSound labels i seen item
              (parse_items tables labels (i + 1) (item_key item ∷ seen) items)
              (check_item tables labels i item) refl new
              (parse_items-ParsedSound labels (i + 1) (item_key item ∷ seen) items))
      ]

  add_checked-keys :
      (labels : List Bytes) (i : ℕ) (item : ClassificationItem) (items : List ClassificationItem)
      (r : Parsed) (checked : Checked)
      → check_item tables labels i item ≡ checked
      → (r.1 ≡ [] → keys_of r.0 ≡ map item_key items)
      → (add_checked checked r).1 ≡ []
      → keys_of (add_checked checked r).0 ≡ map item_key (item ∷ items)
  add_checked-keys labels i item items (cs, errs) (rejected e es) q ih none_left = cc
  add_checked-keys labels i item items (cs, errs) (accepted c) q ih none_left =
      cc (ih none_left, (check_item_lem labels i item c q).1)

  -- With no error every item gave a classification.
  pub parse_items-keys :
      (labels : List Bytes) (i : ℕ) (seen : List MessageKey) (items : List ClassificationItem)
      → (parse_items tables labels i seen items).1 ≡ []
      → keys_of (parse_items tables labels i seen items).0 ≡ map item_key items
  unfolding parse_items
  parse_items-keys labels i seen [] e = refl
  parse_items-keys labels i seen (item ∷ items) e =
      elim (Bool-cases (contains (item_key item) seen)) [
        | inl dup ↦ absurd (ground arith)
        | inr new ↦ rw new (
            add_checked-keys labels i item items
              (parse_items tables labels (i + 1) (item_key item ∷ seen) items)
              (check_item tables labels i item) refl
              (parse_items-keys labels (i + 1) (item_key item ∷ seen) items) (rw new at e))
      ]
