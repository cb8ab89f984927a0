-- ===== src/Cmd/Flags/RoundTrip.antt =====
-- Printing flags and reading them back.
use mathlib.Core.List.{append_assoc, append-nil}
use emailer.Prelude.{
  ◌≡◌, refl, ap, sym, ◌∙◌, Bool, true, false, ◌||◌, List, [], ◌∷◌, ◌++◌, Option, none, some, arith,
  All, ◌==◌, nat_eq, list_beq,
}
use emailer.Prelude.Bytes.{Bytes, codes, bytes_eq, has_prefix}
use emailer.Errors.{Result, ok}
use emailer.Config.{Duration}
use emailer.Cmd.Flags.{
  MainFlags, no_flags, for_nothing, is_flag, set_window, read_arg, take_arg, parse_from,
  parse_main_flags,
}

abbrev pub any_true : List Bool → Bool
any_true [] = false
any_true (b ∷ bs) = b || any_true bs

-- An argument that parseMainFlags looks at.
unfoldable pub is_main_flag : Bytes → Bool
unfolding has_prefix
is_main_flag arg = any_true (
    (arg == codes "--help" || arg == codes "-h")
    ∷ is_flag (codes "config") arg
    ∷ has_prefix arg (codes "--config=")
    ∷ is_flag (codes "log-level") arg
    ∷ has_prefix arg (codes "--log-level=")
    ∷ is_flag (codes "dry-run") arg
    ∷ is_flag (codes "force-reprocess") arg
    ∷ is_flag (codes "window") arg
    ∷ has_prefix arg (codes "--window=")
    ∷ [])

none_true :
    (b : Bool) (bs : List Bool) → any_true (b ∷ bs) ≡ false → (b ≡ false) × (any_true bs ≡ false)
none_true false bs h = (refl, h)
none_true true bs h = cc

abbrev pub switch : Bool → Bytes → List Bytes
switch true arg = arg ∷ []
switch false arg = []

abbrev pub print_window : (Duration → Bytes) → Option Duration → List Bytes
print_window print none = []
print_window print (some d) = (codes "--window=" ++ print d) ∷ []

-- A command line for the flags.
abbrev pub print_flags : (Duration → Bytes) → MainFlags → List Bytes
print_flags print f =
    (codes "--config=" ++ f.config_path)
    ∷ (codes "--log-level=" ++ f.log_level)
    ∷ (switch f.dry_run (codes "--dry-run")
        ++ (switch f.force_reprocess (codes "--force-reprocess")
            ++ (print_window print f.window ++ f.filtered)))

-- The window, if there is one, is read back from its text.
abbrev pub ReadsWindow : (Bytes → Result Duration) → (Duration → Bytes) → Option Duration → Type 0
ReadsWindow parse print none = Unit
ReadsWindow parse print (some d) = parse (print d) ≡ ok d

module _ (parse : Bytes → Result Duration) where
  read_arg-other :
      (arg : Bytes) (f : MainFlags)
      → is_main_flag arg ≡ false
      → read_arg parse arg f ≡ some (record f { filtered = f.filtered ++ arg ∷ [] }, for_nothing)
  unfolding read_arg is_main_flag
  read_arg-other arg f h =
      let s9 : List Bool = [] in
      let s8 : List Bool = (has_prefix arg (codes "--window=")) ∷ s9 in
      let s7 : List Bool = (is_flag (codes "window") arg) ∷ s8 in
      let s6 : List Bool = (is_flag (codes "force-reprocess") arg) ∷ s7 in
      let s5 : List Bool = (is_flag (codes "dry-run") arg) ∷ s6 in
      let s4 : List Bool = (has_prefix arg (codes "--log-level=")) ∷ s5 in
      let s3 : List Bool = (is_flag (codes "log-level") arg) ∷ s4 in
      let s2 : List Bool = (has_prefix arg (codes "--config=")) ∷ s3 in
      let s1 : List Bool = (is_flag (codes "config") arg) ∷ s2 in
      let (h1, r1) = none_true (arg == codes "--help" || arg == codes "-h") s1 h in
      let (h2, r2) = none_true (is_flag (codes "config") arg) s2 r1 in
      let (h3, r3) = none_true (has_prefix arg (codes "--config=")) s3 r2 in
      let (h4, r4) = none_true (is_flag (codes "log-level") arg) s4 r3 in
      let (h5, r5) = none_true (has_prefix arg (codes "--log-level=")) s5 r4 in
      let (h6, r6) = none_true (is_flag (codes "dry-run") arg) s6 r5 in
      let (h7, r7) = none_true (is_flag (codes "force-reprocess") arg) s7 r6 in
      let (h8, r8) = none_true (is_flag (codes "window") arg) s8 r7 in
      let (h9, r9) = none_true (has_prefix arg (codes "--window=")) s9 r8 in
      rw (h1, h2, h3, h4, h5, h6, h7, h8, h9) refl

  parse_from-step :
      (arg : Bytes) (args : List Bytes) (f f' : MainFlags)
      → read_arg parse arg f ≡ some (f', for_nothing)
      → parse_from parse for_nothing (arg ∷ args) f ≡ parse_from parse for_nothing args f'
  unfolding parse_from take_arg
  parse_from-step arg args f f' e = rw (e, parse_from) refl

  parse_from-filtered :
      (args : List Bytes) (f : MainFlags)
      → All (λ arg. is_main_flag arg ≡ false) args
      → parse_from parse for_nothing args f ≡ some (record f { filtered = f.filtered ++ args })
  unfolding parse_from take_arg
  parse_from-filtered [] f h =
      ap (λ (l : List Bytes). some (record f { filtered = l })) (sym (append-nil f.filtered))
  parse_from-filtered (arg ∷ args) f (h, hs) =
      parse_from-step arg args f (record f { filtered = f.filtered ++ arg ∷ [] })
        (read_arg-other arg f h)
      ∙ parse_from-filtered args (record f { filtered = f.filtered ++ arg ∷ [] }) hs
      ∙ ap (λ (l : List Bytes). some (record f { filtered = l }))
          (append_assoc f.filtered (arg ∷ []) args)

  read_arg-config :
      (path : Bytes) (f : MainFlags)
      → read_arg parse (codes "--config=" ++ path) f
        ≡ some (record f { config_path = path }, for_nothing)
  unfolding read_arg has_prefix list_beq
  read_arg-config path f = refl

  read_arg-log_level :
      (level : Bytes) (f : MainFlags)
      → read_arg parse (codes "--log-level=" ++ level) f
        ≡ some (record f { log_level = level }, for_nothing)
  unfolding read_arg has_prefix list_beq
  read_arg-log_level level f = refl

  set_window_lem :
      (text : Bytes) (d : Duration) (f : MainFlags)
      → parse text ≡ ok d
      → set_window parse text f ≡ record f { window = some d }
  unfolding set_window
  set_window_lem text d f e = ground arith

  read_arg-window :
      (text : Bytes) (f : MainFlags)
      → read_arg parse (codes "--window=" ++ text) f ≡ some (set_window parse text f, for_nothing)
  unfolding read_arg has_prefix list_beq
  read_arg-window text f = refl

  read_arg-dry_run :
      (f : MainFlags)
      → read_arg parse (codes "--dry-run") f ≡ some (record f { dry_run = true }, for_nothing)
  unfolding read_arg has_prefix list_beq
  read_arg-dry_run f = refl

  read_arg-force_reprocess :
      (f : MainFlags)
      → read_arg parse (codes "--force-reprocess") f
        ≡ some (record f { force_reprocess = true }, for_nothing)
  unfolding read_arg has_prefix list_beq
  read_arg-force_reprocess f = refl

  parse_from-dry_run :
      (b : Bool) (args : List Bytes) (f : MainFlags)
      → f.dry_run ≡ false
      → parse_from parse for_nothing (switch b (codes "--dry-run") ++ args) f
        ≡ parse_from parse for_nothing args (record f { dry_run = b })
  parse_from-dry_run true args f h =
      parse_from-step (codes "--dry-run") args f (record f { dry_run = true }) (read_arg-dry_run f)
  parse_from-dry_run false args f h =
      ap (λ (b : Bool). parse_from parse for_nothing args (record f { dry_run = b })) h

  parse_from-force_reprocess :
      (b : Bool) (args : List Bytes) (f : MainFlags)
      → f.force_reprocess ≡ false
      → parse_from parse for_nothing (switch b (codes "--force-reprocess") ++ args) f
        ≡ parse_from parse for_nothing args (record f { force_reprocess = b })
  parse_from-force_reprocess true args f h =
      parse_from-step (codes "--force-reprocess") args f (record f { force_reprocess = true })
        (read_arg-force_reprocess f)
  parse_from-force_reprocess false args f h =
      ap (λ (b : Bool). parse_from parse for_nothing args (record f { force_reprocess = b })) h

  parse_from-window :
      (print : Duration → Bytes) (w : Option Duration) (args : List Bytes) (f : MainFlags)
      → ReadsWindow parse print w
      → f.window ≡ none
      → parse_from parse for_nothing (print_window print w ++ args) f
        ≡ parse_from parse for_nothing args (record f { window = w })
  parse_from-window print none args f r h =
      ap (λ (w : Option Duration). parse_from parse for_nothing args (record f { window = w })) h
  parse_from-window print (some d) args f r h =
      parse_from-step (codes "--window=" ++ print d) args f (record f { window = some d })
        (read_arg-window (print d) f
          ∙ ap (λ (g : MainFlags). some (g, for_nothing)) (set_window_lem (print d) d f r))

  -- The flags of the program survive a round trip through a command line that gives them with "=",
  -- then the arguments that are no main flags: parseMainFlags reads back the paths as they are, both
  -- switches, the window as far as time.ParseDuration reads its text back, and it passes the other
  -- arguments on unchanged and in order.
  pub parse_main_flags-print_flags :
      (print : Duration → Bytes) (f : MainFlags)
      → ReadsWindow parse print f.window
      → All (λ arg. is_main_flag arg ≡ false) f.filtered
      → parse_main_flags parse (print_flags print f) ≡ some f
  unfolding parse_main_flags
  parse_main_flags-print_flags print f r h =
      let others : List Bytes = print_window print f.window ++ f.filtered in
      let rest : List Bytes =
        switch f.dry_run (codes "--dry-run")
        ++ (switch f.force_reprocess (codes "--force-reprocess") ++ others) in
      let f1 : MainFlags = record no_flags { config_path = f.config_path } in
      let f2 : MainFlags = record f1 { log_level = f.log_level } in
      let f3 : MainFlags = record f2 { dry_run = f.dry_run } in
      let f4 : MainFlags = record f3 { force_reprocess = f.force_reprocess } in
      let f5 : MainFlags = record f4 { window = f.window } in
      parse_from-step (codes "--config=" ++ f.config_path)
        ((codes "--log-level=" ++ f.log_level) ∷ rest) no_flags f1
        (read_arg-config f.config_path no_flags)
      ∙ parse_from-step (codes "--log-level=" ++ f.log_level) rest f1 f2
          (read_arg-log_level f.log_level f1)
      ∙ parse_from-dry_run f.dry_run
          (switch f.force_reprocess (codes "--force-reprocess") ++ others) f2 refl
      ∙ parse_from-force_reprocess f.force_reprocess others f3 refl
      ∙ parse_from-window print f.window f.filtered f4 r refl
      ∙ parse_from-filtered f.filtered f5 h
