-- ===== src/Cmd/Main/Closed.antt =====
-- What is opened is closed.
use emailer.Prelude.Bytes.{codes}
use emailer.Prelude.{contains, subst}
use emailer.Cmd.Main.{providers, store_error}
use emailer.Cmd.Main.Exit.{List-cases}
use emailer.Prelude.{
  ℕ, ◌+◌, ◌≡◌, refl, inl, inr, Bool, true, false, List, [], ◌∷◌, ◌++◌, Option, none, some, arith,
  ◌==◌, nat_eq, if◌then◌else◌, Option-cases, Bool-cases,
}
use emailer.Prelude.Bytes.{Bytes, bytes_eq}
use emailer.Errors.{Result-cases}
use emailer.Config.{Config, ImapAccount}
use emailer.Config.Validate.{validate}
use emailer.Cmd.Flags.{MainFlags, parse_main_flags}
use emailer.Cmd.Main.{
  Event, usage, store_opened, store_closed, pipeline_run, dialled, imap_closed, Environment,
  connect, with_clients, with_store, with_config, main, close_all,
}

abbrev pub one_if : Bool → ℕ
one_if true = 1
one_if false = 0

-- What an event opens and closes of one kind: the store, or the connection of one account.
pub data Resource : Type 0 where
  the_store : Resource
  connection : Bytes → Resource

abbrev pub opens_one : Resource → Event → ℕ
opens_one the_store store_opened = 1
opens_one (connection l) (dialled k) = one_if (k == l)
opens_one r e = 0

abbrev pub closes_one : Resource → Event → ℕ
closes_one the_store store_closed = 1
closes_one (connection l) (imap_closed k) = one_if (k == l)
closes_one r e = 0

unfoldable pub opens : Resource → List Event → ℕ
opens r [] = 0
opens r (e ∷ es) = opens_one r e + opens r es

unfoldable pub closes : Resource → List Event → ℕ
closes r [] = 0
closes r (e ∷ es) = closes_one r e + closes r es

opens-append : (r : Resource) (xs ys : List Event) → opens r (xs ++ ys) ≡ opens r xs + opens r ys
unfolding opens
opens-append r [] ys = omega arith
opens-append r (e ∷ xs) ys = omega (arith, opens-append r xs ys)

closes-append :
    (r : Resource) (xs ys : List Event) → closes r (xs ++ ys) ≡ closes r xs + closes r ys
unfolding closes
closes-append r [] ys = omega arith
closes-append r (e ∷ xs) ys = omega (arith, closes-append r xs ys)

-- How often a resource is the connection of one of the clients.
unfoldable pub held : Resource → List Bytes → ℕ
held r [] = 0
held r (l ∷ ls) = opens_one r (dialled l) + held r ls

held-append : (r : Resource) (xs ys : List Bytes) → held r (xs ++ ys) ≡ held r xs + held r ys
unfolding held
held-append r [] ys = omega arith
held-append r (e ∷ xs) ys = omega (arith, held-append r xs ys)

closes-close_all :
    (r : Resource) (ls : List Bytes)
    → (closes r (close_all ls) ≡ held r ls) × (opens r (close_all ls) ≡ 0)
unfolding closes opens held
closes-close_all the_store [] = (refl, refl)
closes-close_all the_store (l ∷ ls) = ground (arith, closes-close_all the_store ls)
closes-close_all (connection k) [] = (refl, refl)
closes-close_all (connection k) (l ∷ ls) = ground (arith, closes-close_all (connection k) ls)

-- What the loop over the accounts leaves open: all clients if it succeeds, else nothing.
abbrev Balanced : Resource → List Bytes → Option (List Bytes) × List Event → Type 0
Balanced r clients (none, es) = opens r es + held r clients ≡ closes r es
Balanced r clients (some cs, es) = (opens r es + held r clients ≡ held r cs) × (closes r es ≡ 0)

imap_events :
    (r : Resource) (l : Bytes)
    → (closes_one r (imap_closed l) ≡ opens_one r (dialled l))
      × (opens_one r (imap_closed l) ≡ 0)
      × (closes_one r (dialled l) ≡ 0)
imap_events the_store l = (refl, refl, refl)
imap_events (connection k) l = (refl, refl, refl)

store_events :
    (r : Resource)
    → (closes_one r store_closed ≡ opens_one r store_opened)
      × (opens_one r store_closed ≡ 0)
      × (closes_one r store_opened ≡ 0)
store_events the_store = (refl, refl, refl)
store_events (connection k) = (refl, refl, refl)

other_events :
    (r : Resource)
    → (closes_one r pipeline_run ≡ 0)
      × (opens_one r pipeline_run ≡ 0)
      × (closes_one r usage ≡ 0)
      × (opens_one r usage ≡ 0)
other_events the_store = (refl, refl, refl, refl)
other_events (connection k) = (refl, refl, refl, refl)

dialled-Balanced :
    (r : Resource) (l : Bytes) (clients : List Bytes) (res : Option (List Bytes) × List Event)
    → Balanced r (clients ++ l ∷ []) res
    → Balanced r clients (res.0, dialled l ∷ res.1)
unfolding opens closes held
dialled-Balanced r l clients (none, es) h =
    omega (arith, held-append r clients (l ∷ []), imap_events r l)
dialled-Balanced r l clients (some cs, es) h =
    omega (arith, held-append r clients (l ∷ []), imap_events r l)

module _ {S : Type 0} (env : Environment S) (r : Resource) where
  connect-Balanced :
      (accts : List ImapAccount) (clients : List Bytes)
      → Balanced r clients (connect env accts clients)
  unfolding connect opens closes
  connect-Balanced [] clients = omega arith
  connect-Balanced (acct ∷ accts) clients = elim (Option-cases (env.dial acct)) [
    | inr (e, d) ↦ rw (d, connect) (omega (arith, closes-close_all r clients))
    | inl d ↦
        rw (d, connect)
          (elim (Option-cases (env.login acct)) [
            | inr (e, l) ↦
                rw (l, connect)
                  (omega (arith, closes-close_all r clients, imap_events r acct.label))
            | inl l ↦
                rw (l, connect)
                  (dialled-Balanced r acct.label clients
                    (connect env accts (clients ++ acct.label ∷ []))
                    (connect-Balanced accts (clients ++ acct.label ∷ [])))
          ])
  ]

  -- The run itself neither opens nor closes.
  with_clients_closed :
      (f : MainFlags) (cfg : Config)
      → (opens r (with_clients env f cfg).1 ≡ 0) × (closes r (with_clients env f cfg).1 ≡ 0)
  unfolding with_clients opens closes
  with_clients_closed f cfg = elim (Bool-cases (contains cfg.llm.provider providers)) [
    | inr unknown ↦ rw (unknown, with_clients) (refl, refl)
    | inl known ↦
        rw (known, with_clients)
          (elim (Option-cases (env.new_provider cfg)) [
            | inr (e, p) ↦ rw (p, with_clients) (refl, refl)
            | inl p ↦
                rw (p, with_clients)
                  (elim (Option-cases (env.new_channel cfg)) [
                    | inr (e, c) ↦ rw (c, with_clients) (refl, refl)
                    | inl c ↦ rw (c, with_clients) (omega (arith, other_events r))
                  ])
          ])
  ]

  with_store_closed :
      (f : MainFlags) (cfg : Config)
      → opens r (with_store env f cfg).1 ≡ closes r (with_store env f cfg).1
  unfolding with_store held
  with_store_closed f cfg =
      let all : Option (List Bytes) × List Event = connect env cfg.imap.accounts [] in
      let balanced : Balanced r [] all = connect-Balanced cfg.imap.accounts [] in
      elim (Option-cases (connect env cfg.imap.accounts []).0) [
        | inl failed ↦
            rw (failed, with_store)
              (let h : Balanced r [] (none, all.1) =
                  subst (λ (o : Option (List Bytes)). Balanced r [] (o, all.1)) failed balanced in
                omega arith)
        | inr (clients, connected) ↦
            rw (connected, with_store)
              (let h : Balanced r [] (some clients, all.1) =
                  subst (λ (o : Option (List Bytes)). Balanced r [] (o, all.1)) connected
                    balanced in
                omega (
                  arith,
                  opens-append r all.1 ((with_clients env f cfg).1 ++ close_all clients),
                  closes-append r all.1 ((with_clients env f cfg).1 ++ close_all clients),
                  opens-append r (with_clients env f cfg).1 (close_all clients),
                  closes-append r (with_clients env f cfg).1 (close_all clients),
                  with_clients_closed f cfg,
                  closes-close_all r clients,
                ))
      ]

  with_config_closed :
      (f : MainFlags) (cfg : Config)
      → opens r (with_config env f cfg).1 ≡ closes r (with_config env f cfg).1
  unfolding with_config opens closes
  with_config_closed f cfg =
      elim (Option-cases (env.logger (if f.log_level == [] then codes "info" else f.log_level))) [
        | inr (e, l) ↦ rw (l, with_config) refl
        | inl l ↦
            rw (l, with_config)
              (elim (Option-cases (store_error env cfg)) [
                | inr (e, s) ↦ rw (s, with_config) refl
                | inl s ↦
                    rw (s, with_config)
                      (omega (
                        arith,
                        opens-append r (with_store env f cfg).1 (store_closed ∷ []),
                        closes-append r (with_store env f cfg).1 (store_closed ∷ []),
                        with_store_closed f cfg,
                        store_events r,
                      ))
              ])
      ]

  -- Whatever the program exits with, it has closed exactly what it opened: the store as often as it
  -- was opened, and the connection of each account as often as it was dialled.
  pub main_closed : (args : List Bytes) → opens r (main env args).1 ≡ closes r (main env args).1
  unfolding main opens closes
  main_closed args = elim (Option-cases (parse_main_flags env.parse_duration args)) [
    | inl help ↦ rw (help, main) (omega (arith, other_events r))
    | inr (f, p) ↦
        rw (p, main)
          (elim (Result-cases (env.load f)) [
            | inl (e, l) ↦ rw (l, main) refl
            | inr (cfg, l) ↦
                rw (l, main)
                  (elim (List-cases (validate cfg).0) [
                    | inl valid ↦ rw (valid, main) (with_config_closed f (validate cfg).1)
                    | inr (e, es, v) ↦ rw (v, main) refl
                  ])
          ])
  ]
