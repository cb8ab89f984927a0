-- ===== src/Notify/Telegram/Delivers.antt =====
-- When Send delivers.
use emailer.Prelude.{if-keeps, subst, sym}
use emailer.Prelude.{
  ℕ, zero, suc, ◌+◌, ◌≤◌, ◌<◌, ◌≡◌, refl, ap, inl, inr, Bool, true, false, ◌&&◌, List, [], ◌∷◌,
  Option, none, some, arith, ltb, length, take, if◌then◌else◌, Option-cases, Bool-cases, is_some,
  not,
}
use emailer.Prelude.Bytes.{Bytes}
use emailer.Notify.{SendOptions}
use emailer.Notify.Telegram.{
  Channel, Network, Sent, payload_too_large, max_payload_size, max_caption_length, max_retries,
  send_document, is_retryable, attempts, after_request, send,
}

-- Every request but the last has failed, and the last was accepted exactly if `done`.
abbrev pub OnlyLast : Bool → List (Option Bytes) → Type 0
OnlyLast done [] = done ≡ false
OnlyLast done (o ∷ []) = not (is_some o) ≡ done
OnlyLast done (o ∷ p ∷ os) = (is_some o ≡ true) × OnlyLast done (p ∷ os)

OnlyLast-failed :
    (done : Bool) (text : Bytes) (os : List (Option Bytes))
    → OnlyLast done os
    → OnlyLast done (some text ∷ os)
OnlyLast-failed done text [] h = cc
OnlyLast-failed done text (o ∷ os) h = (refl, h)

-- What Send may answer after a list of outcomes, with at most `k` requests.
abbrev Fits : ℕ → Sent → Type 0
Fits k s = (length s.0 ≤ k) × OnlyLast (not (is_some s.1)) s.0

Fits-after :
    (k : ℕ) (text : Bytes) (s : Sent) → Fits k s → Fits (suc k) (after_request (some text) s)
Fits-after k text (os, e) (h, l) = (omega arith, OnlyLast-failed (not (is_some e)) text os l)

module _ (c : Channel) (net : Network) (payload caption : Bytes) where
  attempts-Fits : (k n : ℕ) (last : Bytes) → Fits k (attempts c net payload caption k n last)
  unfolding attempts
  attempts-Fits zero n last = (omega arith, refl)
  attempts-Fits (suc k) n last = elim (Option-cases (net.ended_before n)) [
    | inr (e, b) ↦ rw (b, attempts) (omega arith, refl)
    | inl b ↦
        rw (b, attempts)
          (elim (Option-cases (send_document c net n payload caption)) [
            | inl d ↦ rw (d, attempts) (omega arith, refl)
            | inr (text, d) ↦
                rw (d, attempts)
                  (elim (Option-cases (
                    if ltb n max_retries && is_retryable text then net.ended_waiting n else none)) [
                      | inr (e, w) ↦ rw (w, attempts) (omega arith, refl)
                      | inl w ↦
                          rw (w, attempts)
                            (Fits-after k text (attempts c net payload caption k (n + 1) text)
                              (attempts-Fits k (n + 1) text))
                    ])
          ])
  ]

  -- A request that failed in a way that Send retries.
  abbrev pub IsTransient : ℕ → Type 0
  IsTransient i =
      (text : Bytes) × (send_document c net i payload caption ≡ some text)
      × (is_retryable text ≡ true)

  -- From the n-th attempt on, an attempt that is accepted is reached through transient failures.
  attempts_delivers :
      (left n before : ℕ) (last : Bytes)
      → before < left
      → ((i : ℕ) → (net.ended_before i ≡ none) × (net.ended_waiting i ≡ none))
      → ((i : ℕ) → n ≤ i → i < n + before → IsTransient i)
      → send_document c net (n + before) payload caption ≡ none
      → ((attempts c net payload caption left n last).1 ≡ none)
        × (length (attempts c net payload caption left n last).0 ≡ before + 1)
  unfolding attempts
  attempts_delivers zero n before last room alive failed accepted' = absurd (omega arith)
  attempts_delivers (suc left) n zero last room alive failed accepted' =
      let now : send_document c net n payload caption ≡ none =
        subst (λ (i : ℕ). send_document c net i payload caption ≡ none) (omega arith) accepted' in
      rw ((alive n).0, attempts) (rw (now, attempts) (refl, refl))
  attempts_delivers (suc left) n (suc before) last room alive failed accepted' =
      let (text, d, r) = failed n (omega arith) (omega arith) in
      let w : (if ltb n max_retries && is_retryable text then net.ended_waiting n else none)
          ≡ none =
        if-keeps (λ (x : Option Bytes). x ≡ none) (ltb n max_retries && is_retryable text)
          (net.ended_waiting n) none ((alive n).1) refl in
      let later =
        attempts_delivers left (n + 1) before text (omega arith) alive
          (λ i lo hi. failed i (omega arith) (omega arith))
          (subst (λ (i : ℕ). send_document c net i payload caption ≡ none) (omega arith)
            accepted') in
      rw ((alive n).0, attempts)
        (rw (d, attempts) (rw (w, attempts) (later.0, omega (arith, later.1))))

-- However the network answers, Send makes at most three requests, none for a payload over 45 MB; all
-- but the last of them were refused, and it returns nil exactly if the last was accepted.
pub send_requests :
    (c : Channel) (net : Network) (payload : Bytes) (opts : SendOptions)
    → (length (send c net payload opts).0 ≤ 3)
      × OnlyLast (not (is_some (send c net payload opts).1)) (send c net payload opts).0
      × (max_payload_size < length payload
          → send c net payload opts ≡ ([], some (payload_too_large (length payload))))
unfolding send
send_requests c net payload opts = elim (Bool-cases (ltb max_payload_size (length payload))) [
  | inl large ↦ rw (large, send) (omega arith, refl, λ h. refl)
  | inr small ↦
      rw (small, send)
        (
          (attempts-Fits c net payload (take max_caption_length opts.caption) 3 1 []).0,
          (attempts-Fits c net payload (take max_caption_length opts.caption) 3 1 []).1,
          λ h. absurd (ground arith),
        )
]

take-all : (n : ℕ) (xs : Bytes) → length xs ≤ n → take n xs ≡ xs
take-all zero [] h = refl
take-all zero (x ∷ xs) h = absurd (omega arith)
take-all (suc n) [] h = refl
take-all (suc n) (x ∷ xs) h = ap (λ (l : Bytes). x ∷ l) (take-all n xs (omega arith))

-- A digest of at most 45 MB, with a caption of at most 1024 bytes, is delivered where at most two
-- requests fail in a way that is retried, the next one would be accepted with the payload and the
-- caption as they were given, and nothing ends the context: Send returns nil after exactly
-- those requests.
pub send_delivers :
    (c : Channel) (net : Network) (payload : Bytes) (opts : SendOptions) (before : ℕ)
    → length payload ≤ max_payload_size
    → length opts.caption ≤ max_caption_length
    → before ≤ 2
    → ((i : ℕ) → (net.ended_before i ≡ none) × (net.ended_waiting i ≡ none))
    → ((i : ℕ) → 1 ≤ i → i < 1 + before → IsTransient c net payload opts.caption i)
    → send_document c net (1 + before) payload opts.caption ≡ none
    → ((send c net payload opts).1 ≡ none) × (length (send c net payload opts).0 ≡ before + 1)
unfolding send
send_delivers c net payload opts before small short few alive failed accepted' =
    let fits : ltb max_payload_size (length payload) ≡ false = ground arith in
    rw (fits, send)
      (subst
        (λ (caption : Bytes).
          ((attempts c net payload caption max_retries 1 []).1 ≡ none)
          × (length (attempts c net payload caption max_retries 1 []).0 ≡ before + 1))
        (sym (take-all max_caption_length opts.caption short))
        (attempts_delivers c net payload opts.caption 3 1 before [] (omega arith) alive failed
          accepted'))
