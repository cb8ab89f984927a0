-- ===== src/Mail/Classification.antt =====
-- internal/mail/classification.go: labels and the flags that they give.
pub mod Flags
use emailer.Prelude.{
  ◌≡◌, ◌≢◌, ◌↔◌, ◌⊎◌, Bool, true, false, List, [], ◌∷◌, ◌++◌, arith, if◌then◌else◌, HasEq, ◌==◌,
  contains, contains-append,
}
use emailer.Prelude.Bytes.{Bytes, codes, bytes_eq}
use emailer.Config.{LabelsConfig}
use emailer.Mail.Types.{Classification, Flag}

abbrev pub default_labels : List Bytes
default_labels = codes "Useful" ∷ codes "ToDelete" ∷ codes "Ads" ∷ []

-- The keys of the map that `labelSet` builds.
unfoldable pub label_set : LabelsConfig → List Bytes
label_set cfg = default_labels ++ cfg.custom

unfoldable pub valid_label : Bytes → LabelsConfig → Bool
valid_label label cfg = contains label (label_set cfg)

unfoldable pub classification_to_flag : Classification → LabelsConfig → Flag
classification_to_flag c cfg =
    if valid_label c.label cfg
    then record { key = c.key; keyword = c.label }
    else record { key = c.key; keyword = [] }
