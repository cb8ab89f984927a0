-- ===== src/Notify/Telegram.antt =====
-- internal/notify/telegram/telegram.go: Send with its retries, and sendDocument up to the HTTP client.
-- Errors are their texts, which `isRetryable` reads. The jitter of the delays is left out.
pub mod Delivers
use emailer.Prelude.{
  ℕ, zero, suc, ◌+◌, ◌*◌, Bool, true, false, ◌&&◌, ◌||◌, List, [], ◌∷◌, ◌++◌, Option, none, some,
  ltb, length, take, if◌then◌else◌, ◌==◌,
}
use emailer.Prelude.Bytes.{Bytes, codes, bytes_eq, contains_text}
use emailer.Prelude.Decimal.{decimal}
use emailer.Prelude.Int.{ℤ, pos, negsuc}
use emailer.Notify.{SendOptions}

abbrev pub max_payload_size : ℕ
max_payload_size = 45 * 1024 * 1024

abbrev pub max_caption_length : ℕ
max_caption_length = 1024

abbrev pub max_retries : ℕ
max_retries = 3

-- A JSON value in `result` is not looked at.
pub record TelegramResponse : Type 0 where
  pub accepted : Bool
  pub description : Bytes
  pub error_code : ℤ

-- A Go call that gives a value or an error's text.
pub data Answer (A : Type 0) : Type 0 where
  value : A → Answer A
  failure : Bytes → Answer A

-- The fields of the form of a request. There is a caption only where it is not empty.
pub record Form : Type 0 where
  pub url : Bytes
  pub chat_id : Bytes
  pub caption : Option Bytes
  pub parse_mode : Bytes
  pub filename : Bytes
  pub document : Bytes

pub record Channel : Type 0 where
  pub bot_token : Bytes
  pub chat_id : ℤ
  pub endpoint : Bytes

-- What the channel meets at its n-th attempt: the answer of the HTTP client to a form, the body of
-- that answer, whether the context has ended before the attempt, and while waiting after it.
pub record Network : Type 0 where
  pub request : ℕ → Form → Answer Bytes
  pub read_body : ℕ → Bytes → Answer Bytes
  pub unmarshal : Bytes → Answer TelegramResponse
  pub ended_before : ℕ → Option Bytes
  pub ended_waiting : ℕ → Option Bytes

-- The verb %d.
unfoldable pub int_text : ℤ → Bytes
int_text (pos n) = decimal n
int_text (negsuc n) = b'-' ∷ decimal (suc n)

abbrev pub wrap_text : Bytes → Bytes → Option Bytes
wrap_text what text = some (what ++ (codes ": " ++ text))

unfoldable pub form_of : Channel → Bytes → Bytes → Form
unfolding int_text
form_of c payload caption = record {
  url = c.endpoint ++ (codes "/bot" ++ (c.bot_token ++ codes "/sendDocument"));
  chat_id = int_text c.chat_id;
  caption = if caption == [] then none else some caption;
  parse_mode = codes "MarkdownV2";
  filename = codes "digest.md";
  document = payload;
}

-- The answer of the service, as an error or none.
unfoldable pub refusal : TelegramResponse → Option Bytes
unfolding int_text
refusal r =
    if r.accepted
    then none
    else some (
        codes "telegram.send_document: "
        ++ (r.description ++ (codes " (code " ++ (int_text r.error_code ++ codes ")"))))

unfoldable pub send_document : Channel → Network → ℕ → Bytes → Bytes → Option Bytes
unfolding form_of refusal
send_document c net n payload caption = elim (net.request n (form_of c payload caption)) [
  | failure e ↦ wrap_text (codes "telegram.send_document.request") e
  | value answer ↦ elim (net.read_body n answer) [
    | failure e ↦ wrap_text (codes "telegram.send_document.read_body") e
    | value body ↦ elim (net.unmarshal body) [
      | failure e ↦ wrap_text (codes "telegram.send_document.unmarshal") e
      | value r ↦ refusal r
    ]
  ]
]

unfoldable pub is_retryable : Bytes → Bool
unfolding contains_text
is_retryable text =
    contains_text text (codes "no such host")
    || contains_text text (codes "connection refused")
    || contains_text text (codes "connection reset")
    || contains_text text (codes "timeout")
    || contains_text text (codes "Temporary")
    || contains_text text (codes "code 429")
    || contains_text text (codes "code 500")
    || contains_text text (codes "code 502")
    || contains_text text (codes "code 503")

pub data SendError : Type 0 where
  payload_too_large : ℕ → SendError
  context_ended : Bytes → SendError
  send_failed : Bytes → SendError

-- The outcomes of the requests that were made, the earliest first, and what Send returns.
abbrev pub Sent : Type 0
Sent = List (Option Bytes) × Option SendError

abbrev pub after_request : Option Bytes → Sent → Sent
after_request outcome (outcomes, e) = (outcome ∷ outcomes, e)

module _ (c : Channel) (net : Network) (payload caption : Bytes) where
  -- The loop, with `left` attempts after those made, the first of them the n-th, and the last error.
  unfoldable pub attempts : ℕ → ℕ → Bytes → Sent
  unfolding send_document is_retryable
  attempts zero n last = ([], some (send_failed last))
  attempts (suc left) n last = elim (net.ended_before n) [
    | some e ↦ ([], some (context_ended e))
    | none ↦ elim (send_document c net n payload caption) [
      | none ↦ (none ∷ [], none)
      | some text ↦
          after_request (some text)
            (elim (if ltb n max_retries && is_retryable text then net.ended_waiting n else none) [
              | some e ↦ ([], some (context_ended e))
              | none ↦ attempts left (n + 1) text
            ])
    ]
  ]

unfoldable pub send : Channel → Network → Bytes → SendOptions → Sent
unfolding attempts
send c net payload opts =
    if ltb max_payload_size (length payload)
    then ([], some (payload_too_large (length payload)))
    else attempts c net payload (take max_caption_length opts.caption) max_retries 1 []
