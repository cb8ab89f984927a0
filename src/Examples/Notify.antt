-- ===== src/Examples/Notify.antt =====
-- Examples for internal/notify/telegram.
use emailer.Prelude.{
  ℕ, zero, suc, ◌+◌, ◌≡◌, refl, ◌≤◌, ◌<◌, true, [], none, some, arith, length, not, is_some,
  nat_beq, if◌then◌else◌,
}
use emailer.Prelude.Bytes.{codes, contains_text}
use emailer.Prelude.Int.{pos, negsuc}
use emailer.Notify.{SendOptions}
use emailer.Notify.Telegram.{
  Channel, Network, value, failure, send, send_document, refusal, is_retryable, max_payload_size,
  payload_too_large,
}
use emailer.Notify.Telegram.Delivers.{OnlyLast, IsTransient, send_requests, send_delivers}

abbrev channel : Channel
channel = record {
  bot_token = codes "t";
  chat_id = negsuc 41;
  endpoint = codes "https://api.telegram.org";
}

-- The second request is accepted.
abbrev network : Network
network = record {
  request =
      λ n form. if nat_beq n 2 then value (codes "ok") else failure (codes "connection reset");
  read_body = λ n answer. value answer;
  unmarshal = λ body. value (record { accepted = true; description = []; error_code = pos 0 });
  ended_before = λ n. none;
  ended_waiting = λ n. none;
}

abbrev send_options : SendOptions
send_options = record { filename = []; caption = codes "2 messages" }

send_requests_example :
    (length (send channel network (codes "digest") send_options).0 ≤ 3)
    × OnlyLast
        (not (is_some (send channel network (codes "digest") send_options).1))
        (send channel network (codes "digest") send_options).0
    × (max_payload_size < 6
        → send channel network (codes "digest") send_options ≡ ([], some (payload_too_large 6)))
send_requests_example = send_requests channel network (codes "digest") send_options

-- The first request meets a connection that was reset.
first_reset :
    (i : ℕ)
    → 1 ≤ i
    → i < 1 + 1
    → IsTransient channel network (codes "digest") send_options.caption i
unfolding send_document is_retryable contains_text
first_reset zero lo hi = absurd (omega arith)
first_reset (suc zero) lo hi =
    (codes "telegram.send_document.request: connection reset", refl, refl)
first_reset (suc (suc i)) lo hi = absurd (omega arith)

send_delivers_example :
    ((send channel network (codes "digest") send_options).1 ≡ none)
    × (length (send channel network (codes "digest") send_options).0 ≡ 2)
unfolding send_document refusal
send_delivers_example =
    send_delivers channel network (codes "digest") send_options 1 (omega arith) (omega arith)
      (omega arith) (λ i. (refl, refl)) first_reset refl
