-- ===== src/Examples/Cmd.antt =====
-- Examples for cmd/emailer.
use emailer.Prelude.{◌≡◌, refl, ◌⊎◌, true, false, [], ◌∷◌, none, some, list_beq}
use emailer.Prelude.Bytes.{Bytes, codes, has_prefix}
use emailer.Prelude.Int.{pos}
use emailer.Errors.{Result, ok, err, external}
use emailer.Config.{Duration}
use emailer.Store.Noop.{NoopStore}
use emailer.Cmd.Flags.{MainFlags, parse_main_flags}
use emailer.Cmd.Flags.RoundTrip.{is_main_flag, print_flags, parse_main_flags-print_flags}
use emailer.Cmd.Main.{Environment, main, usage}
use emailer.Cmd.Main.Exit.{has_run, main_exit}
use emailer.Cmd.Main.Closed.{connection, opens, closes, main_closed}
use emailer.Examples.{config, sample_pipeline, start}

-- Durations as texts of one byte.
abbrev parse_byte : Bytes → Result Duration
parse_byte [] = err (external (codes "empty"))
parse_byte (n ∷ s) = ok (pos n)

abbrev print_byte : Duration → Bytes
print_byte (pos n) = n ∷ []
print_byte d = []

abbrev flags : MainFlags
flags = record {
  config_path = codes "-a=b.yaml";
  log_level = [];
  dry_run = true;
  force_reprocess = false;
  window = some (pos 24);
  filtered = codes "--stateless" ∷ codes "x" ∷ [];
}

parse_main_flags-print_flags_example :
    parse_main_flags parse_byte (print_flags print_byte flags) ≡ some flags
unfolding is_main_flag has_prefix list_beq
parse_main_flags-print_flags_example =
    parse_main_flags-print_flags parse_byte print_byte flags refl (refl, (refl, tt))

abbrev environment : Environment NoopStore
environment = record {
  parse_duration = parse_byte;
  load = λ f. ok config;
  logger = λ level. none;
  open_store = λ path. none;
  dial = λ acct. none;
  login = λ acct. some (external (codes "bad password"));
  new_provider = λ cfg. none;
  new_channel = λ cfg. none;
  pipeline = λ cfg. sample_pipeline;
  start = start;
}

main_exit_example :
    (((main environment (codes "--dry-run" ∷ [])).0 ≡ 0)
      × (has_run (main environment (codes "--dry-run" ∷ [])).1 ≡ true))
    ⊎ (((main environment (codes "--dry-run" ∷ [])).0 ≡ 1)
        ⊎ (((main environment (codes "--dry-run" ∷ [])).0 ≡ 2)
            × (((main environment (codes "--dry-run" ∷ [])).1 ≡ [])
                ⊎ ((main environment (codes "--dry-run" ∷ [])).1 ≡ usage ∷ []))))
main_exit_example = main_exit environment (codes "--dry-run" ∷ [])

main_closed_example :
    opens (connection (codes "work")) (main environment (codes "--dry-run" ∷ [])).1
    ≡ closes (connection (codes "work")) (main environment (codes "--dry-run" ∷ [])).1
main_closed_example = main_closed environment (connection (codes "work")) (codes "--dry-run" ∷ [])
