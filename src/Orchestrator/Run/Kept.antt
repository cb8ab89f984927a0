-- ===== src/Orchestrator/Run/Kept.antt =====
-- What the actions inside a run keep of the store, and how actions that end a run are put together.
use emailer.Prelude.{
  ℕ, ◌≡◌, refl, ◌∙◌, subst, sym, Bool, true, false, List, [], ◌∷◌, Option, none, some,
  if◌then◌else◌, is_some, arith,
}
use emailer.Prelude.Bytes.{Bytes, bytes_eq}
use emailer.Prelude.Dict.{Dict, get}
use emailer.Errors.{Error}
use emailer.Config.{ImapAccount}
use emailer.Mail.Types.{key_eq, Message, message_key, Time, Classification, Flag, Ingester}
use emailer.Store.{
  RunStatus, unset, running, completed, degraded, ingest_failed, partial, partially_classified,
  cancelled, ProcessedMessage, FlagRecord, DigestRecord,
}
use emailer.Llm.{Request}
use emailer.Orchestrator.World.{RunResult, Pipeline, World, Act, ◌>>=◌, pure}
use emailer.Orchestrator.Classify.{classify_with_partial_fallback}
use emailer.Orchestrator.Classify.Calls.{classify_calls, Calls-store}
use emailer.Orchestrator.DigestBuild.{ClassMap, put_valid}
use emailer.Orchestrator.Delivery.{
  record_processed_message, record_messages, record_processed_messages, record_flag_of,
  record_flag_list, record_flags, flags_of, group_flags, account_map, apply_group, apply_groups,
  apply_classification_flags,
}
use emailer.Orchestrator.Run.{finish, final_status}

-- The statuses that a run ends with, without an error and with one.
abbrev pub consistent : RunStatus → Bool → Bool
consistent completed false = true
consistent partial false = true
consistent partially_classified false = true
consistent degraded _ = true
consistent ingest_failed true = true
consistent _ _ = false

pub final_status-consistent :
    (status : RunStatus) (n : ℕ) → consistent (final_status status n) false ≡ true
unfolding final_status
final_status-consistent partial n = refl
final_status-consistent degraded n = refl
final_status-consistent partially_classified n = refl
final_status-consistent unset n = ground arith
final_status-consistent running n = ground arith
final_status-consistent completed n = ground arith
final_status-consistent ingest_failed n = ground arith
final_status-consistent cancelled n = ground arith

-- `Keeps` holds of what the store's records keep; `Ends` of a finished run.
pub record EndLaws {S : Type 0} (p : Pipeline S) (run_id : Bytes) (Keeps : S → Type 0)
    (Ends : RunResult → S → Type 0) : Type 0 where
  pub message :
      (t : Time) (m : ProcessedMessage) (s : S) → Keeps s → Keeps (p.store.record_message t m s).1
  pub flag : (t : Time) (r : FlagRecord) (s : S) → Keeps s → Keeps (p.store.record_flag t r s).1
  pub digest : (d : DigestRecord) (s : S) → Keeps s → Keeps (p.store.record_digest d s).1
  pub finish :
      (t : Time) (status : RunStatus) (count : ℕ) (e : Option Error) (r : RunResult) (s : S)
      → r.run_id ≡ run_id
      → consistent status (is_some e) ≡ true
      → Keeps s
      → Ends
          (record r { status = status; err = e })
          (p.store.finish_run t r.run_id status count e s).1

module _ {S : Type 0} (p : Pipeline S) (run_id : Bytes) {Keeps : S → Type 0}
    {Ends : RunResult → S → Type 0} (laws : EndLaws p run_id Keeps Ends) where
  pub record Kept {A : Type 0} (m : Act S A) : Type 0 where
    pub at : (w : World S) → Keeps w.store → Keeps (m w).1.store

  pub record Ended (m : Act S RunResult) : Type 0 where
    pub at : (w : World S) → Keeps w.store → Ends (m w).0 (m w).1.store

  pub Kept-if :
      {A : Type 0} (b : Bool) (m n : Act S A) → Kept m → Kept n → Kept (if b then m else n)
  Kept-if true m n h k = h
  Kept-if false m n h k = k

  pub Ended-if : (b : Bool) (m n : Act S RunResult) → Ended m → Ended n → Ended (if b then m else n)
  Ended-if true m n h k = h
  Ended-if false m n h k = k

  pub Ended-bind :
      {A : Type 0} (m : Act S A) (f : A → Act S RunResult)
      → Kept m
      → ((a : A) → Ended (f a))
      → Ended (m >>= f)
  Ended-bind m f k e = record { at = λ w h. (e (m w).0).at (m w).1 (k.at w h) }

  pub pure-Kept : {A : Type 0} (a : A) → Kept (pure a)
  pure-Kept a = record { at = λ w h. h }

  record_processed_message-Kept :
      (rid : Bytes) (m : Message) (c : Option Classification)
      → Kept (record_processed_message p rid m c)
  unfolding record_processed_message
  record_processed_message-Kept rid m none = record { at = λ w h. h }
  record_processed_message-Kept rid m (some c) = record { at = λ w h. laws.message _ _ w.store h }

  record_messages-Kept :
      (rid : Bytes) (classes : ClassMap) (ms : List Message)
      → Kept (record_messages p rid classes ms)
  unfolding record_messages
  record_messages-Kept rid classes [] = record { at = λ w h. h }
  record_messages-Kept rid classes (m ∷ ms) = record {
    at = λ w h.
        (record_messages-Kept rid classes ms).at
          (record_processed_message p rid m (get (message_key m) classes) w).1
          ((record_processed_message-Kept rid m (get (message_key m) classes)).at w h);
  }

  record_flag_list-Kept : (fs : List Flag) → Kept (record_flag_list p fs)
  unfolding record_flag_list record_flag_of
  record_flag_list-Kept [] = record { at = λ w h. h }
  record_flag_list-Kept (f ∷ fs) = record {
    at = λ w h. (record_flag_list-Kept fs).at (record_flag_of p f w).1 (laws.flag _ _ w.store h);
  }

  apply_group-store :
      (label : Bytes) (flags : List Flag) (acct : Option ImapAccount) (ingester : Option Ingester)
      (w : World S)
      → (apply_group p label flags acct ingester w).1.store ≡ w.store
  unfolding apply_group
  apply_group-store label flags none ingester w = refl
  apply_group-store label flags (some acct) none w = refl
  apply_group-store label flags (some acct) (some ingester) w = refl

  apply_groups-store :
      (groups : Dict Bytes (List Flag)) (w : World S) → (apply_groups p groups w).1.store ≡ w.store
  unfolding apply_groups
  apply_groups-store [] w = refl
  apply_groups-store ((label, flags) ∷ groups) w =
      let acct : Option ImapAccount = get label (account_map p.config.imap.accounts []) in
      let ingester : Option Ingester = get label p.ingesters in
      apply_groups-store groups (apply_group p label flags acct ingester w).1
      ∙ apply_group-store label flags acct ingester w

  pub apply_classification_flags-Kept :
      (cs : List Classification) → Kept (apply_classification_flags p cs)
  unfolding apply_classification_flags
  apply_classification_flags-Kept cs = record {
    at = λ w h.
        subst Keeps (sym (apply_groups-store (group_flags (flags_of p.config.labels cs) []) w)) h;
  }

  pub recording-Kept :
      (rid : Bytes) (messages : List Message) (cs : List Classification)
      → Kept (record_processed_messages p rid messages cs >>= λ _. record_flags p cs)
  unfolding record_processed_messages record_flags
  recording-Kept rid messages cs = record {
    at = λ w h.
        (record_flag_list-Kept (flags_of p.config.labels cs)).at
          (record_messages p rid (put_valid cs []) messages w).1
          ((record_messages-Kept rid (put_valid cs []) messages).at w h);
  }

  pub classify-Kept : (request : Request) → Kept (classify_with_partial_fallback p request)
  classify-Kept request = record {
    at = λ w h. subst Keeps (sym (Calls-store p (classify_calls p request w))) h;
  }

  pub finish-Ended :
      (status : RunStatus) (count : ℕ) (e : Option Error) (r : RunResult)
      → r.run_id ≡ run_id
      → consistent status (is_some e) ≡ true
      → Ended (finish p status count e r)
  unfolding finish
  finish-Ended status count e r id fits = record {
    at = λ w h. laws.finish _ status count e r w.store id fits h;
  }
