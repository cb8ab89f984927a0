-- ===== src/Mail/Classification/Flags.antt =====
-- Which classifications give a flag.
use emailer.Prelude.{◌≡◌, [], arith, if◌then◌else◌, contains, contains-append, ◌||◌}
use emailer.Prelude.Bytes.{bytes_eq}
use emailer.Config.{LabelsConfig}
use emailer.Mail.Types.{Classification}
use emailer.Mail.Classification.{default_labels, label_set, valid_label, classification_to_flag}

-- A flag keeps the key of its classification. Its keyword is the label exactly where the label
-- is one of the built-in three or of the configured ones, and is empty elsewhere.
pub classification_to_flag_cases :
    (c : Classification) (cfg : LabelsConfig)
    → ((classification_to_flag c cfg).key ≡ c.key)
      × ((classification_to_flag c cfg).keyword ≡ (
          if contains c.label default_labels || contains c.label cfg.custom then c.label else []))
unfolding classification_to_flag valid_label label_set
classification_to_flag_cases c cfg =
    ground (arith, contains-append c.label default_labels cfg.custom)
