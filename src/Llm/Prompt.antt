-- ===== src/Llm/Prompt.antt =====
-- internal/llm/prompt.go and the repair prompt of internal/llm/parse.go. `BuildPrompt` fills a
-- `text/template` and is not modelled.
use emailer.Prelude.{List, [], ◌∷◌, ◌++◌, if◌then◌else◌, map}
use emailer.Prelude.Bytes.{Bytes, codes, is_blank}
use emailer.Errors.{Error, Result, ok, err, repair_empty_raw}

-- strings.Join
unfoldable pub join : Bytes → List Bytes → Bytes
join sep [] = []
join sep (s ∷ []) = s
join sep (s ∷ t ∷ ss) = s ++ (sep ++ join sep (t ∷ ss))

abbrev all_labels : List Bytes
all_labels = codes "Useful" ∷ codes "ToDelete" ∷ codes "Ads" ∷ codes "Unknown" ∷ []

abbrev labels_or_default : List Bytes → List Bytes
labels_or_default [] = all_labels
labels_or_default (l ∷ ls) = l ∷ ls

unfoldable pub format_labels : List Bytes → Bytes
unfolding join
format_labels labels = join (b'\n' ∷ []) (map (λ l. codes "- " ++ l) (labels_or_default labels))

-- The en dash, in UTF-8.
abbrev en_dash : Bytes
en_dash = 0xe2 ∷ 0x80 ∷ 0x93 ∷ []

repair_rules : Bytes
repair_rules =
    codes "\n\nRules:\n"
    ++ (codes
          "- Each item must have: uid (number), account (string), label (string from the list above), confidence (0.0"
        ++ (en_dash
            ++ (codes
                  "1.0), reason (string), summary (non-empty string), key_points (non-empty array of strings)\n"
                ++ (codes "- No duplicate (account, uid) pairs\n"
                    ++ (codes "- Confidence must be between 0.0 and 1.0\n"
                        ++ (codes "- action_items are optional\n"
                            ++ (codes
                                  "- priority is optional when unavailable; when present it must be one of: high, medium, low\n"
                                ++ (codes "- schema_version must be 1\n"
                                    ++ codes "- Output ONLY the JSON object, nothing else\n"))))))))

-- RepairWithPrompt; `error_text` is `err.Error()`. A nil error is refused by the type.
unfoldable pub repair_with_prompt : (Error → Bytes) → Bytes → Error → List Bytes → Result Bytes
unfolding is_blank format_labels repair_rules
repair_with_prompt error_text raw parse_err valid_labels =
    if is_blank raw
    then err repair_empty_raw
    else ok (
        codes "The following JSON response from an email classifier is invalid:\n\n"
        ++ (codes "```\n"
            ++ (raw
                ++ (codes "\n```\n\n"
                    ++ (codes "Parse error: "
                        ++ (error_text parse_err
                            ++ (codes "\n\n"
                                ++ (codes
                                      "Please fix the JSON and output ONLY valid JSON in this exact format (no markdown fences, no extra text):\n\n"
                                    ++ (codes "{\"schema_version\": 1, \"classifications\": ["
                                        ++ (codes "\n  "
                                            ++ (codes
                                                  "{\"uid\": ..., \"account\": \"...\", \"label\": \"...\", \"confidence\": 0.0, \"reason\": \"...\", \"summary\": \"...\", \"key_points\": [\"...\"], \"action_items\": [\"...\"], \"priority\": \"medium\"}"
                                                ++ (codes "\n]}\n\n"
                                                    ++ (codes "Valid labels:\n"
                                                        ++ (format_labels valid_labels
                                                            ++ repair_rules))))))))))))))
