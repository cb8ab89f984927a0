-- ===== src/Store/Noop/Messages.antt =====
-- The processed messages and the flag records of the store in memory.
use emailer.Prelude.{
  ◌≡◌, refl, ap, ◌∙◌, ◌⊎◌, inl, inr, Bool, true, false, ◌&&◌, ◌||◌, List, [], ◌∷◌, ◌++◌, none, some,
  arith, if◌then◌else◌, ◌==◌, nat_eq, Bool-cases, is_some, contains,
}
use emailer.Prelude.Bytes.{bytes_eq}
use emailer.Prelude.Dict.{Dict, get, put, get-put}
use emailer.Prelude.Int.{pos, beq_ℤ}
use emailer.Errors.{Error, ok}
use emailer.Mail.Types.{MessageKey, key_eq, Time}
use emailer.Store.{ProcessedMessage, processed_key, FlagRecord, DedupLaws}
use emailer.Store.Noop.{
  NoopStore, record_run, finish_run, record_message, mark_known, already_processed, same_flag,
  has_flag, record_flag, record_digest, save_run_digest_summary, noop_ops,
}

-- Has a message with this key been recorded?
unfoldable pub processed : NoopStore → MessageKey → Bool
processed s k = is_some (get k s.messages)

-- Recording a message never changes an entry that is there: afterwards the entry of a key is the
-- old one, and the entry of the message's own key, if there was none, is the message with its
-- instant filled in.
pub get-record_message :
    (now : Time) (m : ProcessedMessage) (s : NoopStore) (k : MessageKey)
    → (is_some (get k (record_message now m s).1.messages)
        ≡ (processed s k || processed_key m == k))
      × ((processed s k ≡ false) ⊎ (get k (record_message now m s).1.messages ≡ get k s.messages))
unfolding record_message processed
get-record_message now m s k =
    let m' : ProcessedMessage = record m {
      processed_at = if beq_ℤ m.processed_at (pos 0) then now else m.processed_at;
    } in
    ground (arith, get-put (processed_key m) k m' s.messages, key_eq.test_iff (processed_key m) k)

record_message_none :
    {A : Type 0} (now : Time) (m : ProcessedMessage) (s : NoopStore) (x : Error)
    → (record_message now m s).0 ≡ some x
    → A
unfolding record_message
record_message_none now m s x e = absurd (ground arith)

get-mark_known :
    (keys : List MessageKey) (known : Dict MessageKey ProcessedMessage)
    (result : Dict MessageKey Bool) (k : MessageKey)
    → get k (mark_known keys known result)
      ≡ (if contains k keys && is_some (get k known) then some true else get k result)
unfolding mark_known contains
get-mark_known [] known result k = refl
get-mark_known (j ∷ keys) known result k = elim (Bool-cases (is_some (get j known))) [
  | inl old ↦ ground (
    arith,
    get-mark_known keys known (put j true result) k,
    get-put j k true result,
    key_eq.test_iff j k,
  )
  | inr new ↦ ground (arith, get-mark_known keys known result k, key_eq.test_iff j k)
]

get-already_processed_lem :
    (keys : List MessageKey) (s : NoopStore) (d : Dict MessageKey Bool) (k : MessageKey)
    → already_processed keys s ≡ ok d
    → get k d ≡ (if contains k keys && processed s k then some true else none)
unfolding processed already_processed get
get-already_processed_lem keys s d k e =
    let p : mark_known keys s.messages [] ≡ d = cc in rw (← p) (get-mark_known keys s.messages [] k)

-- The store in memory keeps what the interface promises of processed messages: a key that was
-- recorded without an error is known from then on, no other operation and no failed recording adds
-- or removes one, and AlreadyProcessed answers with exactly the asked keys that are known.
pub noop_dedup : DedupLaws noop_ops
unfolding processed record_run finish_run record_flag record_digest already_processed
    save_run_digest_summary
noop_dedup = record {
  processed = processed;
  processed-record_message = λ now m s k e. (get-record_message now m s k).0;
  processed-record_message_err = λ now m s k x e. record_message_none now m s x e;
  get-already_processed = λ keys s d k e. get-already_processed_lem keys s d k e;
  processed-record_flag = λ now r s k. ground arith;
  processed-record_digest = λ d s k. refl;
  processed-record_run = λ now r s k. refl;
  processed-finish_run = λ now id status count e s k. ground arith;
  processed-save_run_digest_summary = λ summary s k. refl;
}

-- No two records are of the same message and flag.
abbrev pub AllDistinctFlags : List FlagRecord → Type 0
AllDistinctFlags [] = Unit
AllDistinctFlags (r ∷ rs) = (has_flag r rs ≡ false) × AllDistinctFlags rs

same_flag_sym : (a b : FlagRecord) → same_flag a b ≡ same_flag b a
unfolding same_flag
same_flag_sym a b = ground (
  arith,
  bytes_eq.test_iff a.account_label b.account_label,
  bytes_eq.test_iff b.account_label a.account_label,
  bytes_eq.test_iff a.flag b.flag,
  bytes_eq.test_iff b.flag a.flag,
)

has_flag-append :
    (a r : FlagRecord) (rs : List FlagRecord)
    → has_flag a (rs ++ r ∷ []) ≡ (has_flag a rs || same_flag r a)
unfolding has_flag
has_flag-append a r [] = ground arith
has_flag-append a r (x ∷ rs) = ground (arith, has_flag-append a r rs)

AllDistinctFlags-append :
    (r : FlagRecord) (rs : List FlagRecord)
    → has_flag r rs ≡ false
    → AllDistinctFlags rs
    → AllDistinctFlags (rs ++ r ∷ [])
unfolding has_flag
AllDistinctFlags-append r [] h d = (refl, tt)
AllDistinctFlags-append r (x ∷ rs) h (d, ds) = (
  ground (arith, has_flag-append x r rs, same_flag_sym x r),
  AllDistinctFlags-append r rs (ground arith) ds,
)

same_flag_self : (r : FlagRecord) → same_flag r r ≡ true
unfolding same_flag
same_flag_self r =
    ground
      (arith, bytes_eq.test_iff r.account_label r.account_label, bytes_eq.test_iff r.flag r.flag)

same_flag-trans_left : (a b x : FlagRecord) → same_flag a b ≡ true → same_flag x a ≡ same_flag x b
unfolding same_flag
same_flag-trans_left a b x h =
    let (p, q, r) : (a.account_label ≡ b.account_label) × (a.uid ≡ b.uid) × (a.flag ≡ b.flag) = (
      ground (arith, bytes_eq.test_iff a.account_label b.account_label),
      ground arith,
      ground (arith, bytes_eq.test_iff a.flag b.flag),
    ) in
    ground arith

has_flag-same :
    (a b : FlagRecord) (rs : List FlagRecord) → same_flag a b ≡ true → has_flag a rs ≡ has_flag b rs
unfolding has_flag
has_flag-same a b [] h = refl
has_flag-same a b (x ∷ rs) h = ground (arith, has_flag-same a b rs h, same_flag-trans_left a b x h)

stamped : Time → FlagRecord → FlagRecord
stamped now r = record r { applied_at = if beq_ℤ r.applied_at (pos 0) then now else r.applied_at }

same_flag-stamped : (now : Time) (r : FlagRecord) → same_flag (stamped now r) r ≡ true
unfolding stamped same_flag
same_flag-stamped now r = same_flag_self r

-- Recording a flag keeps the records distinct, the flag is there afterwards, and nothing else
-- appears: any other record is there exactly if it was before.
pub record_flag_distinct :
    (now : Time) (r : FlagRecord) (s : NoopStore)
    → AllDistinctFlags s.flags
    → (a : FlagRecord)
    → AllDistinctFlags (record_flag now r s).1.flags
      × (has_flag a (record_flag now r s).1.flags ≡ (has_flag a s.flags || same_flag r a))
unfolding record_flag stamped
record_flag_distinct now r s d a =
    let r' : FlagRecord = stamped now r in
    let same : same_flag r' a ≡ same_flag r a =
      same_flag_sym r' a
      ∙ same_flag-trans_left r' r a (same_flag-stamped now r)
      ∙ same_flag_sym a r in
    let old : same_flag r a ≡ true → has_flag r s.flags ≡ has_flag a s.flags =
      has_flag-same r a s.flags in
    let known : has_flag r' s.flags ≡ has_flag r s.flags =
      has_flag-same r' r s.flags (same_flag-stamped now r) in
    elim (Bool-cases (has_flag r' s.flags)) [
      | inl there ↦ rw there (d, ground (arith, old))
      | inr new ↦ rw new (
        AllDistinctFlags-append r' s.flags new d,
        has_flag-append a r' s.flags ∙ ap (λ b. has_flag a s.flags || b) same,
      )
    ]
