-- ===== src/Mail/Pool/Results.antt =====
-- What the helpers on fetch results keep.
use mathlib.Core.List.{append_assoc, append-nil}
use emailer.Prelude.{
  ◌≡◌, refl, List, [], ◌∷◌, ◌++◌, Option, none, some, keep, if◌then◌else◌, or_else, arith, inl, inr,
  Option-cases, ◌==◌,
}
use emailer.Prelude.Bytes.{Bytes, bytes_eq}
use emailer.Prelude.Dict.{Dict, get, put, get-put}
use emailer.Errors.{Error}
use emailer.Mail.Types.{Message, key_eq}
use emailer.Mail.Pool.{FetchAllResult, group_onto, group_by_account, errors_onto, account_errors}

-- The error of the last result that carries this account label and failed.
abbrev pub last_error : Bytes → List FetchAllResult → Option Error
last_error label [] = none
last_error label (r ∷ rs) = elim (last_error label rs) [
  | some e ↦ some e
  | none ↦ if r.account.label == label then r.err else none
]

errors_onto-last_error :
    (label : Bytes) (errs : Dict Bytes Error) (rs : List FetchAllResult)
    → get label (errors_onto errs rs)
      ≡ (elim (last_error label rs) [ some e ↦ some e | none ↦ get label errs ])
unfolding errors_onto
errors_onto-last_error label errs [] = refl
errors_onto-last_error label errs (r ∷ rs) = elim (Option-cases r.err) [
  | inl n ↦ ground (arith, errors_onto-last_error label errs rs)
  | inr (e, s) ↦ ground (
    arith,
    errors_onto-last_error label (put r.account.label e errs) rs,
    get-put r.account.label label e errs,
  )
]

-- The messages of one account, in order.
abbrev pub of_account : Bytes → List Message → List Message
of_account label = keep (λ m. m.account_label == label)

-- The error map holds, at each label, the error of the last failed result of that label, and no
-- other entry.
pub account_errors-last_error :
    (label : Bytes) (rs : List FetchAllResult) → get label (account_errors rs) ≡ last_error label rs
unfolding account_errors get
account_errors-last_error label rs = ground (arith, errors_onto-last_error label [] rs)

abbrev appended : Option (List Message) → List Message → Option (List Message)
appended old [] = old
appended old (m ∷ ms) = some (or_else old [] ++ (m ∷ ms))

group_onto-of_account :
    (label : Bytes) (groups : Dict Bytes (List Message)) (ms : List Message)
    → get label (group_onto groups ms) ≡ appended (get label groups) (of_account label ms)
unfolding group_onto keep
group_onto-of_account label groups [] = refl
group_onto-of_account label groups (m ∷ ms) =
    let old : List Message = or_else (get m.account_label groups) [] in
    let groups' : Dict Bytes (List Message) = put m.account_label (old ++ m ∷ []) groups in
    ground (
      arith,
      group_onto-of_account label groups' ms,
      get-put m.account_label label (old ++ m ∷ []) groups,
      bytes_eq.test_iff m.account_label label,
      append_assoc old (m ∷ []) (of_account label ms),
      append-nil old,
    )

-- Each label's group is the list of that account's messages in their order, and a label with no
-- message has no group.
pub group_by_account-of_account :
    (label : Bytes) (ms : List Message)
    → get label (group_by_account ms) ≡ appended none (of_account label ms)
unfolding group_by_account get
group_by_account-of_account label ms = group_onto-of_account label [] ms
