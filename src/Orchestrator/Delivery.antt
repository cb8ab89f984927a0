-- ===== src/Orchestrator/Delivery.antt =====
-- `applyClassificationFlags`, `recordProcessedMessages` and `recordFlags` of
-- internal/orchestrator/orchestrator.go.
use emailer.Prelude.{
  not, List, [], ◌∷◌, ◌++◌, Option, none, some, map, keep, or_else, if◌then◌else◌, ◌==◌,
}
use emailer.Prelude.Bytes.{Bytes, bytes_eq}
use emailer.Prelude.Dict.{Dict, get, put}
use emailer.Prelude.Int.{ℤ, pos, leb_ℤ}
use emailer.Config.{ImapAccount, LabelsConfig}
use emailer.Mail.Types.{key_eq, Message, message_key, Classification, Flag, Ingester}
use emailer.Mail.Classification.{classification_to_flag}
use emailer.Orchestrator.World.{Pipeline, Act, flagged, ◌>>=◌, ◌>>◌, pure, on_store, now, emit}
use emailer.Orchestrator.DigestBuild.{ClassMap, put_valid}
use emailer.Orchestrator.Excerpt.{truncate_excerpt}

unfoldable pub flags_of : LabelsConfig → List Classification → List Flag
unfolding classification_to_flag
flags_of cfg cs =
    keep (λ (f : Flag). not (f.keyword == []))
      (map (λ (c : Classification). classification_to_flag c cfg) cs)

unfoldable pub group_flags : List Flag → Dict Bytes (List Flag) → Dict Bytes (List Flag)
group_flags [] groups = groups
group_flags (f ∷ fs) groups =
    let label = f.key.account_label in
    group_flags fs (put label (or_else (get label groups) [] ++ f ∷ []) groups)

unfoldable pub account_map : List ImapAccount → Dict Bytes ImapAccount → Dict Bytes ImapAccount
account_map [] m = m
account_map (a ∷ accounts) m = account_map accounts (put a.label a m)

module _ {S : Type 0} (p : Pipeline S) where
  -- The write to one mailbox, if the account and its ingester are there. Its error is only logged.
  unfoldable pub apply_group :
      Bytes → List Flag → Option ImapAccount → Option Ingester → Act S (Unit {0})
  apply_group label flags none ingester = pure tt
  apply_group label flags (some acct) none = pure tt
  apply_group label flags (some acct) (some ingester) = emit (flagged label flags)

  -- The source ranges over a Go map: the order of the accounts is not determined.
  unfoldable pub apply_groups : Dict Bytes (List Flag) → Act S (Unit {0})
  unfolding apply_group account_map
  apply_groups [] = pure tt
  apply_groups ((label, flags) ∷ groups) = do
    apply_group label flags (get label (account_map p.config.imap.accounts []))
        (get label p.ingesters)
    apply_groups groups

  unfoldable pub apply_classification_flags : List Classification → Act S (Unit {0})
  unfolding apply_groups flags_of group_flags
  apply_classification_flags cs = apply_groups (group_flags (flags_of p.config.labels cs) [])

  abbrev excerpt_limit : ℤ
  excerpt_limit =
      let limit = p.config.digest.max_message_excerpt in
      if leb_ℤ limit (pos 0) then pos 500 else limit

  -- One message, given its classification. An error of the store is only logged.
  unfoldable pub record_processed_message :
      Bytes → Message → Option Classification → Act S (Unit {0})
  unfolding truncate_excerpt
  record_processed_message run_id m none = pure tt
  record_processed_message run_id m (some c) = do
    processed_at ← now p
    t ← now p
    on_store (
        p.store.record_message t (record {
          run_id = run_id;
          account_label = m.account_label;
          uid = m.uid;
          is_read = m.is_read;
          classification = c.label;
          digest_excerpt = truncate_excerpt m.body excerpt_limit;
          processed_at = processed_at;
        }))
    pure tt

  unfoldable pub record_messages : Bytes → ClassMap → List Message → Act S (Unit {0})
  unfolding record_processed_message
  record_messages run_id classes [] = pure tt
  record_messages run_id classes (m ∷ ms) = do
    record_processed_message run_id m (get (message_key m) classes)
    record_messages run_id classes ms

  unfoldable pub record_processed_messages :
      Bytes → List Message → List Classification → Act S (Unit {0})
  unfolding record_messages put_valid
  record_processed_messages run_id messages cs = record_messages run_id (put_valid cs []) messages

  unfoldable pub record_flag_of : Flag → Act S (Unit {0})
  record_flag_of f = do
    applied_at ← now p
    t ← now p
    on_store (
        p.store.record_flag t (record {
          account_label = f.key.account_label;
          uid = f.key.uid;
          flag = f.keyword;
          applied_at = applied_at;
        }))
    pure tt

  unfoldable pub record_flag_list : List Flag → Act S (Unit {0})
  unfolding record_flag_of
  record_flag_list [] = pure tt
  record_flag_list (f ∷ fs) = do record_flag_of f; record_flag_list fs

  unfoldable pub record_flags : List Classification → Act S (Unit {0})
  unfolding record_flag_list flags_of
  record_flags cs = record_flag_list (flags_of p.config.labels cs)
