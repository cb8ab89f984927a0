-- ===== src/Orchestrator/World.antt =====
-- internal/orchestrator/orchestrator.go: the types of the pipeline, and the world that it acts on.
-- A `Pipeline` holds what `New` injects, each collaborator as the answers that it gives in the run;
-- log output and contexts are left out.
pub mod Preserves
use emailer.Prelude.{ℕ, ◌+◌, Bool, List, ◌∷◌, Option}
use emailer.Prelude.Bytes.{Bytes}
use emailer.Prelude.Dict.{Dict}
use emailer.Config.{Config, Duration}
use emailer.Errors.{Error, Result}
use emailer.Mail.Types.{Time, Flag, Ingester}
use emailer.Store.{RunStatus, StoreOps}
use emailer.Llm.{Request, Response}
use emailer.Llm.Parse.{ClassificationsWrapper}
use emailer.Digest.{DigestData}

pub record RunOptions : Type 0 where
  pub window : Option Duration
  pub force_reprocess : Bool
  pub dry_run : Bool
  pub stateless : Bool

pub record RunResult : Type 0 where
  pub run_id : Bytes
  pub status : RunStatus
  pub total_fetched : ℕ
  pub total_classified : ℕ
  pub failed_count : ℕ
  pub analysis_failed_count : ℕ
  pub err : Option Error

-- `classify n` is the provider's answer to the n-th call of the run, `clock n` what the n-th
-- reading of the clock gives. `schedule` and `cancelled` are what `FetchAll` meets. `hash`,
-- `error_text`, `lower_tables` and `unmarshal` stand for SHA-256 in hex, `err.Error()`, the
-- case tables of `strings.ToLower` and `json.Unmarshal`.
pub record Pipeline (S : Type 0) : Type 0 where
  pub store : StoreOps S
  pub ingesters : Dict Bytes Ingester
  pub classify : ℕ → Request → Response × Option Error
  pub render : DigestData → Result Bytes
  pub render_fallback : DigestData → Result Bytes
  pub channel_name : Bytes
  pub send : Bytes → Option Error
  pub config : Config
  pub clock : ℕ → Time
  pub schedule : List ℕ
  pub cancelled : ℕ → Bool
  pub hash : Bytes → Bytes
  pub error_text : Error → Bytes
  pub lower_tables : Bytes → Bytes
  pub unmarshal : Bytes → Result ClassificationsWrapper

-- What leaves the process.
pub data Effect : Type 0 where
  -- a request to the LLM provider
  classified : Request → Effect
  -- keyword flags written to an account's mailbox
  flagged : Bytes → List Flag → Effect
  -- a digest handed to the channel
  sent : Bytes → Effect

-- `trace` holds the effects so far, the latest first.
pub record World (S : Type 0) : Type 0 where
  pub store : S
  pub reads : ℕ
  pub calls : ℕ
  pub trace : List Effect

abbrev pub Act : Type 0 → Type 0 → Type 0
Act S A = World S → A × World S

module _ {S A B : Type 0} where
  infixl 5 ◌>>=◌ ◌>>◌
  abbrev pub ◌>>=◌ : Act S A → (A → Act S B) → Act S B
  ◌>>=◌ m f w = let (a, w') = m w in f a w'

  abbrev pub ◌>>◌ : Act S A → Act S B → Act S B
  ◌>>◌ m n w = let (a, w') = m w in n w'

module _ {S : Type 0} where
  abbrev pub pure : {A : Type 0} → A → Act S A
  pure a w = (a, w)

  -- An operation of the store.
  abbrev pub on_store : {A : Type 0} → (S → A × S) → Act S A
  on_store f w = let (a, s) = f w.store in (a, record w { store = s })

  -- A query of the store.
  abbrev pub ask_store : {A : Type 0} → (S → A) → Act S A
  ask_store f w = (f w.store, w)

  -- p.now(), and the clock that the store reads.
  abbrev pub now : Pipeline S → Act S Time
  now p w = (p.clock w.reads, record w { reads = w.reads + 1 })

  abbrev pub emit : Effect → Act S (Unit {0})
  emit e w = (tt, record w { trace = e ∷ w.trace })

  -- p.provider.Classify
  unfoldable pub call_provider : Pipeline S → Request → Act S (Response × Option Error)
  call_provider p request w = (
    p.classify w.calls request,
    record w { calls = w.calls + 1; trace = classified request ∷ w.trace },
  )
