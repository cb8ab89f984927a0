-- ===== src/Orchestrator/Run/Dedup.antt =====
-- What `filterProcessed` leaves, and which messages `recordProcessedMessages` makes known.
use emailer.Prelude.{
  ◌≡◌, refl, ◌∙◌, sym, ap, Bool, true, false, not, ◌&&◌, ◌||◌, List, [], ◌∷◌, Option, none, some,
  arith, is_some, map, keep, contains, or_else, All, ◌==◌, if◌then◌else◌,
}
use emailer.Prelude.Bytes.{Bytes}
use emailer.Prelude.Dict.{Dict, get, put, get-put}
use emailer.Errors.{ok}
use emailer.Mail.Types.{MessageKey, key_eq, Message, message_key, Time, Classification}
use emailer.Mail.Pool.{filter_already_processed}
use emailer.Store.{ProcessedMessage, DedupLaws}
use emailer.Orchestrator.World.{Pipeline, World}
use emailer.Orchestrator.Classify.{classification_keys}
use emailer.Orchestrator.DigestBuild.{ClassMap, put_valid}
use emailer.Orchestrator.Delivery.{
  record_processed_message, record_messages, record_processed_messages,
}
use emailer.Orchestrator.Run.{true_entries, filter_processed}

get-true_entries :
    (k : MessageKey) (d : Dict MessageKey Bool)
    → get k (true_entries d) ≡ (if is_some (get k d) then some true else none)
unfolding get
get-true_entries k [] = refl
get-true_entries k ((j, b) ∷ d) = ground (arith, get-true_entries k d)

keep-all {ℓ} : {A : Type ℓ} (xs : List A) → keep (λ x. true) xs ≡ xs
unfolding keep
keep-all [] = refl
keep-all (x ∷ xs) = ap (λ r. x ∷ r) (keep-all xs)

-- Two tests that agree on the items keep the same.
keep-agree {ℓ} :
    {A : Type ℓ} (f g : A → Bool) (xs : List A) → All (λ x. f x ≡ g x) xs → keep f xs ≡ keep g xs
unfolding keep
keep-agree f g [] h = refl
keep-agree f g (x ∷ xs) (e, h) = ground (arith, keep-agree f g xs h)

filter_already_processed_lem :
    (messages : List Message) (d : Dict MessageKey Bool)
    → filter_already_processed messages d
      ≡ keep (λ m. not (or_else (get (message_key m) d) false)) messages
unfolding filter_already_processed get
filter_already_processed_lem messages [] = sym (keep-all messages)
filter_already_processed_lem messages (e ∷ d) = refl

module _ {S : Type 0} (p : Pipeline S) (laws : DedupLaws p.store) where
  agree :
      (keys : List MessageKey) (s : S) (d : Dict MessageKey Bool)
      → p.store.already_processed keys s ≡ ok d
      → (ms : List Message) → All (λ m. contains (message_key m) keys ≡ true) ms
      → All
          (λ m.
            not (or_else (get (message_key m) (true_entries d)) false)
            ≡ not (laws.processed s (message_key m)))
          ms
  agree keys s d e [] h = tt
  agree keys s d e (m ∷ ms) (here, h) = (
    ground (
      arith,
      get-true_entries (message_key m) d,
      laws.get-already_processed keys s d (message_key m) e,
    ),
    agree keys s d e ms h,
  )

All-weaken :
    (k : MessageKey) (keys : List MessageKey) (ms : List Message)
    → All (λ m. contains (message_key m) keys ≡ true) ms
    → All (λ m. contains (message_key m) (k ∷ keys) ≡ true) ms
unfolding contains
All-weaken k keys [] h = tt
All-weaken k keys (m ∷ ms) (e, h) = (ground arith, All-weaken k keys ms h)

All-own : (ms : List Message) → All (λ m. contains (message_key m) (map message_key ms) ≡ true) ms
unfolding contains
All-own [] = tt
All-own (m ∷ ms) = (
  ground (arith, key_eq.test_iff (message_key m) (message_key m)),
  All-weaken (message_key m) (map message_key ms) ms (All-own ms),
)

is_some-put_valid :
    (k : MessageKey) (cs : List Classification) (classes : ClassMap)
    → is_some (get k (put_valid cs classes))
      ≡ (contains k (classification_keys cs) || is_some (get k classes))
unfolding put_valid contains
is_some-put_valid k [] classes = refl
is_some-put_valid k (c ∷ cs) classes =
    ground (arith, is_some-put_valid k cs (put c.key c classes), get-put c.key k c classes)

module _ {S : Type 0} (p : Pipeline S) (laws : DedupLaws p.store) where
  -- When the store answers which keys it knows, filtering leaves exactly the messages whose key has
  -- not been recorded, in their order.
  pub filter_processed_unknown :
      (messages : List Message) (w : World S) (d : Dict MessageKey Bool)
      → p.store.already_processed (map message_key messages) w.store ≡ ok d
      → (filter_processed p messages w).0
        ≡ keep (λ m. not (laws.processed w.store (message_key m))) messages
  unfolding filter_processed
  filter_processed_unknown messages w d e = rw e (
      filter_already_processed_lem messages (true_entries d)
      ∙ keep-agree _ _ messages
          (agree p laws (map message_key messages) w.store d e messages (All-own messages)))

  -- Recording never fails.
  abbrev pub NeverFails : Type 0
  NeverFails = (t : Time) (m : ProcessedMessage) (s : S) → (p.store.record_message t m s).0 ≡ none

  module _ (run_id : Bytes) (works : NeverFails) (k : MessageKey) where
    record_processed_message-processed :
        (m : Message) (c : Option Classification) (w : World S)
        → laws.processed (record_processed_message p run_id m c w).1.store k
          ≡ (laws.processed w.store k || (message_key m == k && is_some c))
    unfolding record_processed_message
    record_processed_message-processed m none w = ground arith
    record_processed_message-processed m (some c) w =
        laws.processed-record_message _ _ w.store k (works _ _ w.store) ∙ ground arith

    record_messages-processed :
        (classes : ClassMap) (ms : List Message) (w : World S)
        → laws.processed (record_messages p run_id classes ms w).1.store k ≡ (
            laws.processed w.store k
            || (contains k (map message_key ms) && is_some (get k classes)))
    unfolding record_messages contains
    record_messages-processed classes [] w = ground arith
    record_messages-processed classes (m ∷ ms) w =
        let c : Option Classification = get (message_key m) classes in
        let w' : World S = (record_processed_message p run_id m c w).1 in
        ground (
          arith,
          record_messages-processed classes ms w',
          record_processed_message-processed m c w,
          key_eq.test_iff (message_key m) k,
        )

  -- When recording does not fail, the known keys after it are those before it and the keys of the
  -- messages that have a classification, whichever classifications there are.
  pub record_processed_messages_known :
      (run_id : Bytes) (messages : List Message) (cs : List Classification) (w : World S)
      (k : MessageKey)
      → NeverFails
      → laws.processed (record_processed_messages p run_id messages cs w).1.store k ≡ (
          laws.processed w.store k
          || (contains k (map message_key messages) && contains k (classification_keys cs)))
  unfolding record_processed_messages get
  record_processed_messages_known run_id messages cs w k works = ground (
    arith,
    record_messages-processed run_id works k (put_valid cs []) messages w,
    is_some-put_valid k cs [],
  )

  known_after :
      (run_id : Bytes) (messages : List Message) (cs : List Classification) (w : World S)
      → NeverFails
      → (ms : List Message)
      → All (λ m. contains (message_key m) (map message_key messages) ≡ true) ms
      → All
          (λ m.
            not (
              laws.processed
                (record_processed_messages p run_id messages cs w).1.store
                (message_key m))
            ≡ not (
                laws.processed w.store (message_key m)
                || contains (message_key m) (classification_keys cs)))
          ms
  known_after run_id messages cs w works [] h = tt
  known_after run_id messages cs w works (m ∷ ms) (own, h) = (
    ground (arith, record_processed_messages_known run_id messages cs w (message_key m) works),
    known_after run_id messages cs w works ms h,
  )

  -- When recording does not fail and the store answers which keys it knows, filtering the messages
  -- of a run again, after the run recorded them, leaves exactly those that it gave no
  -- classification and that were not known before it, in their order.
  pub filter_processed-record_processed_messages :
      (run_id : Bytes) (messages : List Message) (cs : List Classification) (w : World S)
      (d : Dict MessageKey Bool)
      → NeverFails
      → p.store.already_processed
          (map message_key messages)
          (record_processed_messages p run_id messages cs w).1.store
        ≡ ok d
      → (filter_processed p messages (record_processed_messages p run_id messages cs w).1).0
        ≡ keep
            (λ m. not (
              laws.processed w.store (message_key m)
              || contains (message_key m) (classification_keys cs)))
            messages
  filter_processed-record_processed_messages run_id messages cs w d works e =
      filter_processed_unknown messages (record_processed_messages p run_id messages cs w).1 d e
      ∙ keep-agree _ _ messages (known_after run_id messages cs w works messages (All-own messages))
