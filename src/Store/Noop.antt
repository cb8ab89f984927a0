-- ===== src/Store/Noop.antt =====
-- internal/store/noop_store.go: the store in memory. The mutex makes each operation one step, and
-- `time.Now()` is the argument `now`.
pub mod Runs
pub mod Messages
pub mod Summaries
use emailer.Prelude.{
  ℕ, zero, suc, ◌+◌, Bool, true, false, not, ◌&&◌, ◌||◌, List, [], ◌∷◌, ◌++◌, Option, none, some,
  length, take, reverse, if◌then◌else◌, ◌==◌, nat_beq, nat_eq, is_some, or_else, leb,
}
use emailer.Prelude.Bytes.{Bytes, codes, bytes_eq}
use emailer.Prelude.Decimal.{decimal}
use emailer.Prelude.Dict.{Dict, get, put}
use emailer.Prelude.Int.{ℤ, pos, beq_ℤ, leb_ℤ, ltb_ℤ, pos_part}
use emailer.Errors.{Error, Result, ok, err, run_not_found}
use emailer.Mail.Types.{MessageKey, key_eq, Time}
use emailer.Store.{
  RunStatus, unset, running, completed, Run, ProcessedMessage, processed_key, FlagRecord,
  DigestRecord, RunDigestSummary, StoreOps,
}

pub record NoopStore : Type 0 where
  pub runs : List Run
  pub messages : Dict MessageKey ProcessedMessage
  pub flags : List FlagRecord
  pub digests : List DigestRecord
  pub digest_summaries : Dict Bytes RunDigestSummary
  pub next_id : ℕ

abbrev pub new_noop_store : NoopStore
new_noop_store = record {
  runs = [];
  messages = [];
  flags = [];
  digests = [];
  digest_summaries = [];
  next_id = 0;
}

abbrev pub is_zero : Time → Bool
is_zero t = beq_ℤ t (pos 0)

unfoldable pub noop_run_id : ℕ → Bytes
noop_run_id n = codes "noop-run-" ++ decimal n

abbrev pub default_status : RunStatus → RunStatus
default_status unset = running
default_status s = s

abbrev pub is_completed : RunStatus → Bool
is_completed completed = true
is_completed _ = false

-- The record that RecordRun stores and returns.
unfoldable pub filled_run : Time → ℕ → Run → Run
filled_run now n r = record r {
  id = if r.id == [] then noop_run_id n else r.id;
  started_at = if is_zero r.started_at then now else r.started_at;
  status = default_status r.status;
}

unfoldable pub record_run : Time → Run → NoopStore → Result Run × NoopStore
unfolding filled_run
record_run now r s =
    let r' = filled_run now (s.next_id + 1) r in
    (ok r', record s { runs = s.runs ++ r' ∷ []; next_id = s.next_id + 1 })

-- The loop of FinishRun over the runs, up to the first match; `none` where there is no match.
unfoldable pub finish_first :
    Time → Bytes → RunStatus → ℕ → Option Error → List Run → Option (List Run)
finish_first now id status count e [] = none
finish_first now id status count e (r ∷ rs) =
    let later = finish_first now id status count e rs in
    if r.id == id
    then some (
        (record r { finished_at = some now; status = status; message_count = count; error = e })
        ∷ rs)
    else elim later [ none ↦ none | some rs' ↦ some (r ∷ rs') ]

unfoldable pub finish_run :
    Time → Bytes → RunStatus → ℕ → Option Error → NoopStore → Option Error × NoopStore
unfolding finish_first
finish_run now id status count e s = elim (finish_first now id status count e s.runs) [
  | none ↦ (some run_not_found, s)
  | some rs ↦ (none, record s { runs = rs })
]

unfoldable pub find_run : Bytes → List Run → Option Run
find_run id [] = none
find_run id (r ∷ rs) = if r.id == id then some r else find_run id rs

unfoldable pub get_run : Bytes → NoopStore → Result Run
unfolding find_run
get_run id s = elim (find_run id s.runs) [ none ↦ err run_not_found | some r ↦ ok r ]

-- The last `limit` runs, the latest first; the loop stops at the end of the list as the source
-- caps the limit at its length.
unfoldable pub list_runs : ℤ → NoopStore → Result (List Run)
list_runs limit s =
    let n : ℕ = if leb_ℤ limit (pos 0) then 10 else pos_part limit in ok (take n (reverse s.runs))

-- The loop body over a run: whether it completed, the latest success so far, its own finish.
unfoldable pub later_of : Bool → Option Time → Option Time → Option Time
later_of done latest none = latest
later_of done none (some t) = if done then some t else none
later_of done (some latest) (some t) = if done && ltb_ℤ latest t then some t else some latest

unfoldable pub latest_success : Option Time → List Run → Option Time
unfolding later_of
latest_success latest [] = latest
latest_success latest (r ∷ rs) =
    latest_success (later_of (is_completed r.status) latest r.finished_at) rs

unfoldable pub get_last_successful_run_time : NoopStore → Result (Option Time)
unfolding latest_success
get_last_successful_run_time s = ok (latest_success none s.runs)

unfoldable pub record_message : Time → ProcessedMessage → NoopStore → Option Error × NoopStore
record_message now m s = if is_some (get (processed_key m) s.messages) then (none, s) else (
  none,
  record s {
    messages =
        put (processed_key m)
          (record m { processed_at = if is_zero m.processed_at then now else m.processed_at })
          s.messages;
  },
)

unfoldable pub mark_known :
    List MessageKey → Dict MessageKey ProcessedMessage → Dict MessageKey Bool → Dict MessageKey Bool
mark_known [] known result = result
mark_known (k ∷ ks) known result =
    mark_known ks known (if is_some (get k known) then put k true result else result)

unfoldable pub already_processed : List MessageKey → NoopStore → Result (Dict MessageKey Bool)
unfolding mark_known
already_processed keys s = ok (mark_known keys s.messages [])

unfoldable pub same_flag : FlagRecord → FlagRecord → Bool
same_flag a b = a.account_label == b.account_label && nat_beq a.uid b.uid && a.flag == b.flag

unfoldable pub has_flag : FlagRecord → List FlagRecord → Bool
unfolding same_flag
has_flag r [] = false
has_flag r (x ∷ xs) = same_flag x r || has_flag r xs

unfoldable pub record_flag : Time → FlagRecord → NoopStore → Option Error × NoopStore
unfolding has_flag
record_flag now r s =
    let r' = record r { applied_at = if is_zero r.applied_at then now else r.applied_at } in
    if has_flag r' s.flags then (none, s) else (none, record s { flags = s.flags ++ r' ∷ [] })

unfoldable pub record_digest : DigestRecord → NoopStore → Option Error × NoopStore
record_digest d s = (none, record s { digests = s.digests ++ d ∷ [] })

unfoldable pub save_run_digest_summary : RunDigestSummary → NoopStore → Option Error × NoopStore
save_run_digest_summary summary s =
    (none, record s { digest_summaries = put summary.run_id summary s.digest_summaries })

-- The best snapshot so far, with the finish of its run.
abbrev pub Prior : Type 0
Prior = Option (RunDigestSummary × Time)

abbrev pub is_after_prior : Time → Prior → Bool
is_after_prior t none = true
is_after_prior t (some (_, finished)) = ltb_ℤ finished t

unfoldable pub better_prior : Time → Dict Bytes RunDigestSummary → Prior → Run → Prior
better_prior before summaries prior r = elim r.finished_at [
  | none ↦ prior
  | some t ↦
      if is_completed r.status && ltb_ℤ t before && is_after_prior t prior
      then (elim (get r.id summaries) [ none ↦ prior | some sum ↦ some (sum, t) ])
      else prior
]

unfoldable pub best_prior : Time → Dict Bytes RunDigestSummary → Prior → List Run → Prior
unfolding better_prior
best_prior before summaries prior [] = prior
best_prior before summaries prior (r ∷ rs) =
    best_prior before summaries (better_prior before summaries prior r) rs

abbrev pub prior_summary : Prior → Option RunDigestSummary
prior_summary none = none
prior_summary (some (sum, _)) = some sum

-- The finish of the given run; `none` where there is no such run or it has not finished.
abbrev pub finish_of : Option Run → Option Time
finish_of none = none
finish_of (some r) = r.finished_at

unfoldable pub get_previous_run_digest_summary :
    Time → Bytes → NoopStore → Result (Option RunDigestSummary)
unfolding best_prior find_run
get_previous_run_digest_summary now before s = elim (finish_of (find_run before s.runs)) [
  | none ↦ ok none
  | some t ↦
      ok (prior_summary (best_prior (if is_zero t then now else t) s.digest_summaries none s.runs))
]

-- *NoopStore implements Store.
abbrev pub noop_ops : StoreOps NoopStore
noop_ops = record {
  record_run = record_run;
  finish_run = finish_run;
  get_run = get_run;
  list_runs = list_runs;
  get_last_successful_run_time = get_last_successful_run_time;
  record_message = record_message;
  already_processed = already_processed;
  record_flag = record_flag;
  record_digest = record_digest;
  save_run_digest_summary = save_run_digest_summary;
  get_previous_run_digest_summary = get_previous_run_digest_summary;
}
