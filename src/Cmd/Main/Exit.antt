-- ===== src/Cmd/Main/Exit.antt =====
-- The exit codes.
use emailer.Prelude.{
  ℕ, ◌≡◌, refl, ◌⊎◌, inl, inr, Bool, true, false, ◌||◌, List, [], ◌∷◌, ◌++◌, arith, contains, ◌==◌,
  if◌then◌else◌, Option-cases, Bool-cases,
}
use emailer.Prelude.Bytes.{Bytes, codes, bytes_eq}
use emailer.Errors.{Result-cases}
use emailer.Config.{Config}
use emailer.Config.Validate.{validate}
use emailer.Store.{
  RunStatus, unset, running, completed, degraded, ingest_failed, partial, partially_classified,
  cancelled,
}
use emailer.Orchestrator.Run.Kept.{consistent}
use emailer.Orchestrator.Run.Status.{run-consistent}
use emailer.Cmd.Flags.{MainFlags, parse_main_flags}
use emailer.Cmd.Main.{
  Event, usage, store_opened, store_closed, pipeline_run, dialled, imap_closed, Environment,
  exit_code, providers, run_options, with_clients, connect, with_store, with_config, main,
  close_all, store_error,
}

-- Did the pipeline run?
unfoldable pub has_run : List Event → Bool
has_run [] = false
has_run (pipeline_run ∷ es) = true
has_run (usage ∷ es) = has_run es
has_run (store_opened ∷ es) = has_run es
has_run (store_closed ∷ es) = has_run es
has_run (dialled l ∷ es) = has_run es
has_run (imap_closed l ∷ es) = has_run es

has_run-append : (xs ys : List Event) → has_run (xs ++ ys) ≡ (has_run xs || has_run ys)
unfolding has_run
has_run-append [] ys = refl
has_run-append (pipeline_run ∷ xs) ys = refl
has_run-append (usage ∷ xs) ys = has_run-append xs ys
has_run-append (store_opened ∷ xs) ys = has_run-append xs ys
has_run-append (store_closed ∷ xs) ys = has_run-append xs ys
has_run-append (dialled l ∷ xs) ys = has_run-append xs ys
has_run-append (imap_closed l ∷ xs) ys = has_run-append xs ys

pub List-cases : {A : Type 0} (l : List A) → (l ≡ []) ⊎ ((x : A) × (xs : List A) × (l ≡ x ∷ xs))
List-cases [] = inl refl
List-cases (x ∷ xs) = inr (x, xs, refl)

exit_code-consistent :
    (s : RunStatus) (b : Bool) → consistent s b ≡ true → (exit_code s ≡ 0) ⊎ (exit_code s ≡ 1)
unfolding exit_code
exit_code-consistent completed b h = inl refl
exit_code-consistent degraded b h = inl refl
exit_code-consistent partial b h = inl refl
exit_code-consistent partially_classified b h = inl refl
exit_code-consistent ingest_failed b h = inr refl
exit_code-consistent unset b h = inr refl
exit_code-consistent running b h = inr refl
exit_code-consistent cancelled b h = cc

-- The exits after the store is there.
abbrev Exits : ℕ × List Event → Type 0
Exits r = ((r.0 ≡ 0) × (has_run r.1 ≡ true)) ⊎ (r.0 ≡ 1)

module _ {S : Type 0} (env : Environment S) where
  with_clients-Exits : (f : MainFlags) (cfg : Config) → Exits (with_clients env f cfg)
  unfolding with_clients has_run
  with_clients-Exits f cfg = elim (Bool-cases (contains cfg.llm.provider providers)) [
    | inr unknown ↦ rw (unknown, with_clients) (inr refl)
    | inl known ↦
        rw (known, with_clients)
          (elim (Option-cases (env.new_provider cfg)) [
            | inr (e, p) ↦ rw (p, with_clients) (inr refl)
            | inl p ↦
                rw (p, with_clients)
                  (elim (Option-cases (env.new_channel cfg)) [
                    | inr (e, c) ↦ rw (c, with_clients) (inr refl)
                    | inl c ↦
                        rw (c, with_clients)
                          (elim (exit_code-consistent _ _
                            (run-consistent (env.pipeline cfg) (run_options env f cfg) env.start)) [
                              | inl z ↦ inl (z, refl)
                              | inr o ↦ inr o
                            ])
                  ])
          ])
  ]

  around-Exits :
      (before after' : List Event) (r : ℕ × List Event)
      → Exits r
      → Exits (r.0, before ++ (r.1 ++ after'))
  around-Exits before after' r (inl (z, h)) =
      inl (z, ground (arith, has_run-append before (r.1 ++ after'), has_run-append r.1 after'))
  around-Exits before after' r (inr o) = inr o

  with_store-Exits : (f : MainFlags) (cfg : Config) → Exits (with_store env f cfg)
  unfolding with_store
  with_store-Exits f cfg = elim (Option-cases (connect env cfg.imap.accounts []).0) [
    | inl failed ↦ rw (failed, with_store) (inr refl)
    | inr (clients, all) ↦
        rw (all, with_store)
          (around-Exits (connect env cfg.imap.accounts []).1 (close_all clients)
            (with_clients env f cfg) (with_clients-Exits f cfg))
  ]

  -- The exits of a run with a valid configuration.
  abbrev Ends : ℕ × List Event → Type 0
  Ends r =
      ((r.0 ≡ 0) × (has_run r.1 ≡ true))
      ⊎ ((r.0 ≡ 1) ⊎ ((r.0 ≡ 2) × ((r.1 ≡ []) ⊎ (r.1 ≡ usage ∷ []))))

  Exits-Ends : (r : ℕ × List Event) → Exits r → Ends r
  Exits-Ends r (inl h) = inl h
  Exits-Ends r (inr o) = inr (inl o)

  with_config-Ends : (f : MainFlags) (cfg : Config) → Ends (with_config env f cfg)
  unfolding with_config has_run
  with_config-Ends f cfg =
      elim (Option-cases (env.logger (if f.log_level == [] then codes "info" else f.log_level))) [
        | inr (e, l) ↦ rw (l, with_config) (inr (inr (refl, inl refl)))
        | inl l ↦
            rw (l, with_config)
              (elim (Option-cases (store_error env cfg)) [
                | inr (e, s) ↦ rw (s, with_config) (inr (inl refl))
                | inl s ↦
                    rw (s, with_config)
                      (Exits-Ends _ (
                        around-Exits (store_opened ∷ []) (store_closed ∷ []) (with_store env f cfg)
                          (with_store-Exits f cfg)))
              ])
      ]

  -- The exit code of the program is 0 only after the pipeline has run; it is 2 only where nothing was
  -- opened or dialled and the pipeline has not run; otherwise it is 1. So it is never 130.
  pub main_exit :
      (args : List Bytes)
      → (((main env args).0 ≡ 0) × (has_run (main env args).1 ≡ true))
        ⊎ (((main env args).0 ≡ 1)
            ⊎ (((main env args).0 ≡ 2)
                × (((main env args).1 ≡ []) ⊎ ((main env args).1 ≡ usage ∷ []))))
  unfolding main
  main_exit args = elim (Option-cases (parse_main_flags env.parse_duration args)) [
    | inl help ↦ rw (help, main) (inr (inr (refl, inr refl)))
    | inr (f, p) ↦
        rw (p, main)
          (elim (Result-cases (env.load f)) [
            | inl (e, l) ↦ rw (l, main) (inr (inr (refl, inl refl)))
            | inr (cfg, l) ↦
                rw (l, main)
                  (elim (List-cases (validate cfg).0) [
                    | inl valid ↦ rw (valid, main) (with_config-Ends f (validate cfg).1)
                    | inr (e, es, v) ↦ rw (v, main) (inr (inr (refl, inl refl)))
                  ])
          ])
  ]
