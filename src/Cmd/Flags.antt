-- ===== src/Cmd/Flags.antt =====
-- `parseMainFlags` of cmd/emailer/main.go. `parse_duration` is time.ParseDuration. A flag whose
-- value is the next argument waits for it: an argument that starts with a dash is read for itself.
pub mod RoundTrip
use emailer.Prelude.{
  ℕ, Bool, true, false, ◌||◌, ◌&&◌, not, List, [], ◌∷◌, ◌++◌, Option, none, some, drop, length,
  ◌==◌, nat_eq, if◌then◌else◌,
}
use emailer.Prelude.Bytes.{Bytes, codes, bytes_eq, has_prefix}
use emailer.Errors.{Result, ok, err}
use emailer.Config.{Duration}

pub record MainFlags : Type 0 where
  pub config_path : Bytes
  pub log_level : Bytes
  pub dry_run : Bool
  pub force_reprocess : Bool
  pub window : Option Duration
  pub filtered : List Bytes

abbrev pub no_flags : MainFlags
no_flags = record {
  config_path = [];
  log_level = [];
  dry_run = false;
  force_reprocess = false;
  window = none;
  filtered = [];
}

-- What the next argument may be a value for.
pub data Waiting : Type 0 where
  for_nothing for_config for_log_level for_window : Waiting

-- strings.TrimPrefix of a prefix that is there.
abbrev pub after_prefix : Bytes → Bytes → Bytes
after_prefix p arg = drop (length p) arg

abbrev pub is_flag : Bytes → Bytes → Bool
is_flag name arg = arg == b'-' ∷ b'-' ∷ name || arg == b'-' ∷ name

module _ (parse_duration : Bytes → Result Duration) where
  unfoldable pub set_window : Bytes → MainFlags → MainFlags
  set_window text f = elim (parse_duration text) [ err e ↦ f | ok d ↦ record f { window = some d } ]

  -- An argument that is not the value of the flag before it; `none` asks for the usage text.
  unfoldable pub read_arg : Bytes → MainFlags → Option (MainFlags × Waiting)
  unfolding set_window has_prefix
  read_arg arg f =
      if arg == codes "--help" || arg == codes "-h"
      then none
      else if is_flag (codes "config") arg
      then some (f, for_config)
      else if has_prefix arg (codes "--config=")
      then some (record f { config_path = after_prefix (codes "--config=") arg }, for_nothing)
      else if is_flag (codes "log-level") arg
      then some (f, for_log_level)
      else if has_prefix arg (codes "--log-level=")
      then some (record f { log_level = after_prefix (codes "--log-level=") arg }, for_nothing)
      else if is_flag (codes "dry-run") arg
      then some (record f { dry_run = true }, for_nothing)
      else if is_flag (codes "force-reprocess") arg
      then some (record f { force_reprocess = true }, for_nothing)
      else if is_flag (codes "window") arg
      then some (f, for_window)
      else if has_prefix arg (codes "--window=")
      then some (set_window (after_prefix (codes "--window=") arg) f, for_nothing)
      else some (record f { filtered = f.filtered ++ arg ∷ [] }, for_nothing)

  abbrev pub is_value : Bytes → Bool
  is_value arg = not (has_prefix arg (codes "-"))

  -- One argument.
  unfoldable pub take_arg : Waiting → Bytes → MainFlags → Option (MainFlags × Waiting)
  unfolding read_arg
  take_arg for_nothing arg f = read_arg arg f
  take_arg for_config arg f =
      if is_value arg then some (record f { config_path = arg }, for_nothing) else read_arg arg f
  take_arg for_log_level arg f =
      if is_value arg then some (record f { log_level = arg }, for_nothing) else read_arg arg f
  take_arg for_window arg f =
      if is_value arg then some (set_window arg f, for_nothing) else read_arg arg f

  -- The loop over the arguments.
  unfoldable pub parse_from : Waiting → List Bytes → MainFlags → Option MainFlags
  unfolding take_arg
  parse_from w [] f = some f
  parse_from w (arg ∷ args) f = elim (take_arg w arg f) [
    | none ↦ none
    | some (f', w') ↦ parse_from w' args f'
  ]

  unfoldable pub parse_main_flags : List Bytes → Option MainFlags
  unfolding parse_from
  parse_main_flags args = parse_from for_nothing args no_flags
