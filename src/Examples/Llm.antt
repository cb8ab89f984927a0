-- ===== src/Examples/Llm.antt =====
-- Examples for internal/llm.
use emailer.Prelude.{ℕ, ◌≡◌, ◌≢◌, refl, List, [], ◌∷◌, none, map, list_beq, contains}
use emailer.Prelude.Bytes.{Bytes, codes, bytes_eq, trim_left, trim_space, is_blank, to_lower}
use emailer.Prelude.Dict.{Dict}
use emailer.Errors.{ok}
use emailer.Mail.Types.{lt_zero, gt_one}
use emailer.Llm.Parse.{
  ClassificationsWrapper, parse_response, item_key, parse_wrapper, conclude, parse_items,
  check_item, item_priority, normalize_priority, valid_priority, blank_points,
}
use emailer.Llm.Parse.Items.{keys_of}
use emailer.Llm.Parse.Sound.{Accepted, parse_response_sound, parse_response_complete}
use emailer.Examples.{one_item, two_items}

abbrev labels : List Bytes
labels = codes "Urgent" ∷ []

abbrev tables : Bytes → Bytes
tables s = s

abbrev factories : Dict Bytes ℕ
factories = (codes "openai", 1) ∷ []

abbrev reply : Bytes
reply = codes "{}"

parse_response_sound_example :
    Accepted labels (parse_response tables (λ s. ok two_items) reply labels).0.classifications
parse_response_sound_example = parse_response_sound tables (λ s. ok two_items) reply labels

-- The response with one good item parses.
reply_parses : (parse_response tables (λ s. ok one_item) reply labels).1 ≡ none
unfolding parse_response parse_wrapper conclude parse_items check_item item_priority
    normalize_priority valid_priority blank_points is_blank trim_left contains list_beq lt_zero
    gt_one to_lower trim_space
reply_parses = refl

parse_response_complete_example :
    (w : ClassificationsWrapper) × (ok one_item ≡ ok w)
    × (w.classifications ≢ [])
    × (keys_of (parse_response tables (λ s. ok one_item) reply labels).0.classifications
        ≡ map item_key w.classifications)
parse_response_complete_example =
    parse_response_complete tables (λ s. ok one_item) reply labels reply_parses
