-- ===== src/Cmd/Main.antt =====
-- `run` of cmd/emailer/main.go: the wiring, its exits, and what it opens and closes. Log output is
-- left out. mail.NewIMAPClient fails only without a logger, which there is.
pub mod Exit
pub mod Closed
use emailer.Prelude.{
  ℕ, Bool, true, false, List, [], ◌∷◌, ◌++◌, Option, none, some, map, contains, ◌==◌, or_else,
  if◌then◌else◌,
}
use emailer.Prelude.Bytes.{Bytes, codes, bytes_eq}
use emailer.Errors.{Error, Result, ok, err}
use emailer.Config.{Config, ImapAccount, Duration}
use emailer.Config.Validate.{validate}
use emailer.Store.{
  RunStatus, unset, running, completed, degraded, ingest_failed, partial, partially_classified,
  cancelled,
}
use emailer.Orchestrator.World.{RunOptions, Pipeline, World}
use emailer.Orchestrator.Run.{run}
use emailer.Cmd.Flags.{MainFlags, parse_main_flags}

-- What `run` does to the outside, the earliest first.
pub data Event : Type 0 where
  usage store_opened store_closed pipeline_run : Event
  dialled imap_closed : Bytes → Event

-- What `run` calls: the loading of the configuration, the logger, the state store of SQLite, the
-- IMAP clients, the factories of the provider and the channel, and the pipeline that they make up.
pub record Environment (S : Type 0) : Type 0 where
  pub parse_duration : Bytes → Result Duration
  pub load : MainFlags → Result Config
  pub logger : Bytes → Option Error
  pub open_store : Bytes → Option Error
  pub dial : ImapAccount → Option Error
  pub login : ImapAccount → Option Error
  pub new_provider : Config → Option Error
  pub new_channel : Config → Option Error
  pub pipeline : Config → Pipeline S
  pub start : World S

unfoldable pub exit_code : RunStatus → ℕ
exit_code completed = 0
exit_code degraded = 0
exit_code partial = 0
exit_code partially_classified = 0
exit_code ingest_failed = 1
exit_code cancelled = 130
exit_code unset = 1
exit_code running = 1

abbrev pub providers : List Bytes
providers = codes "gemini" ∷ codes "mistral" ∷ codes "ollama" ∷ codes "openrouter" ∷ []

abbrev pub close_all : List Bytes → List Event
close_all clients = map imap_closed clients

-- Did the loop connect all accounts, and what it did; `clients` are those connected so far.
module _ {S : Type 0} (env : Environment S) where
  unfoldable pub connect : List ImapAccount → List Bytes → Option (List Bytes) × List Event
  connect [] clients = (some clients, [])
  connect (acct ∷ accts) clients =
      let later = connect accts (clients ++ acct.label ∷ []) in
      elim (env.dial acct) [
        | some e ↦ (none, close_all clients)
        | none ↦ elim (env.login acct) [
          | some e ↦ (none, dialled acct.label ∷ imap_closed acct.label ∷ close_all clients)
          | none ↦ (later.0, dialled acct.label ∷ later.1)
        ]
      ]

  abbrev pub run_options : MainFlags → Config → RunOptions
  run_options f cfg = record {
    window = f.window;
    force_reprocess = f.force_reprocess;
    dry_run = f.dry_run;
    stateless = cfg.storage.stateless;
  }

  -- Steps 8 to 12.
  unfoldable pub with_clients : MainFlags → Config → ℕ × List Event
  unfolding run exit_code
  with_clients f cfg =
      if contains cfg.llm.provider providers
      then (elim (env.new_provider cfg) [
        | some e ↦ (1, [])
        | none ↦ elim (env.new_channel cfg) [
          | some e ↦ (1, [])
          | none ↦ (
            exit_code (run (env.pipeline cfg) (run_options f cfg) env.start).0.status,
            pipeline_run ∷ [],
          )
        ]
      ])
      else (1, [])

  abbrev pub and_close : List Bytes → ℕ × List Event → ℕ × List Event
  and_close clients (code, events) = (code, events ++ close_all clients)

  abbrev pub after_events : List Event → ℕ × List Event → ℕ × List Event
  after_events before (code, events) = (code, before ++ events)

  -- Steps 7 to 12, with the deferred closing of the clients.
  unfoldable pub with_store : MainFlags → Config → ℕ × List Event
  unfolding connect with_clients
  with_store f cfg =
      let connected = connect cfg.imap.accounts [] in
      elim connected.0 [
        | none ↦ (1, connected.1)
        | some clients ↦ after_events connected.1 (and_close clients (with_clients f cfg))
      ]

  abbrev pub store_error : Config → Option Error
  store_error cfg = if cfg.storage.stateless then none else env.open_store cfg.storage.state_path

  abbrev pub and_close_store : ℕ × List Event → ℕ × List Event
  and_close_store (code, events) = (code, store_opened ∷ events ++ store_closed ∷ [])

  -- Steps 4 to 12, for a valid configuration.
  unfoldable pub with_config : MainFlags → Config → ℕ × List Event
  unfolding with_store
  with_config f cfg = elim (env.logger (if f.log_level == [] then codes "info" else f.log_level)) [
    | some e ↦ (2, [])
    | none ↦ elim (store_error cfg) [ some e ↦ (1, []) | none ↦ and_close_store (with_store f cfg) ]
  ]

  unfoldable pub main : List Bytes → ℕ × List Event
  unfolding parse_main_flags with_config validate
  main args = elim (parse_main_flags env.parse_duration args) [
    | none ↦ (2, usage ∷ [])
    | some f ↦ elim (env.load f) [
      | err e ↦ (2, [])
      | ok cfg ↦ elim (validate cfg).0 [ [] ↦ with_config f (validate cfg).1 | e ∷ es ↦ (2, []) ]
    ]
  ]
