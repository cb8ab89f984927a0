-- ===== src/Mail/Imap/Reconnect.antt =====
-- withReconnect of internal/mail/client.go: what it does in which state of the connection, and what it
-- returns.
use emailer.Prelude.{
  ℕ, ◌+◌, ◌≤◌, ◌≡◌, refl, ap, ◌⊎◌, inl, inr, true, false, Bool, not, List, [], ◌∷◌, Option, none,
  some, arith, Bool-cases, Option-cases,
}
use emailer.Prelude.Bytes.{Bytes}
use emailer.Mail.Imap.{
  ClientError, is_connection_error, Reconnected, done, connect_failed, reconnect_failed,
  operation_failed, Event, ran, reconnected, Traced, after_event, retried, attempt, with_reconnect,
}

abbrev pub error_of : Reconnected → Option ClientError
error_of done = none
error_of (connect_failed e) = some e
error_of (operation_failed e) = some e
error_of (reconnect_failed e original) = some e

abbrev pub answer_of : Event → Option ClientError
answer_of (ran answer) = answer
answer_of (reconnected answer) = answer

abbrev pub last_answer : List Event → Option (Option ClientError)
last_answer [] = none
last_answer (x ∷ []) = some (answer_of x)
last_answer (x ∷ y ∷ events) = last_answer (y ∷ events)

abbrev pub runs : List Event → ℕ
runs [] = 0
runs (ran answer ∷ events) = runs events + 1
runs (reconnected answer ∷ events) = runs events

module _ (tables : Bytes → Bytes) where
  -- The operation runs only on a connection, and a reconnect is only made without one. A connection
  -- error of the operation ends the connection, a reconnect that succeeds makes one, and nothing
  -- follows a run that succeeds or a reconnect that fails.
  abbrev pub IsOrderly : Bool → List Event → Type 0
  IsOrderly connected [] = Unit
  IsOrderly connected (ran none ∷ events) = (connected ≡ true) × (events ≡ [])
  IsOrderly connected (ran (some e) ∷ events) =
      (connected ≡ true) × IsOrderly (not (is_connection_error tables e)) events
  IsOrderly connected (reconnected none ∷ events) = (connected ≡ false) × IsOrderly true events
  IsOrderly connected (reconnected (some e) ∷ events) = (connected ≡ false) × (events ≡ [])

  -- Is the last event a connection error of the operation?
  abbrev pub ends_lost : List Event → Bool
  ends_lost [] = false
  ends_lost (ran (some e) ∷ []) = is_connection_error tables e
  ends_lost (ran none ∷ []) = false
  ends_lost (reconnected answer ∷ []) = false
  ends_lost (x ∷ y ∷ events) = ends_lost (y ∷ events)

  -- What holds of a result and its events, from a state of the connection on.
  abbrev pub IsSound : Bool → Traced → Type 0
  IsSound connected r =
      IsOrderly connected r.1
      × (last_answer r.1 ≡ some (error_of r.0))
      × (runs r.1 ≤ 2)
      × ((runs r.1 ≡ 2) ⊎ (ends_lost r.1 ≡ false))

  -- The results and events from the first run of the operation on.
  data Leads : Traced → Type 0 where
    at_once : Leads (done, ran none ∷ [])
    refused :
        {e : ClientError}
        → is_connection_error tables e ≡ false
        → Leads (operation_failed e, ran (some e) ∷ [])
    stays_lost :
        {e r : ClientError}
        → is_connection_error tables e ≡ true
        → Leads (reconnect_failed r e, ran (some e) ∷ reconnected (some r) ∷ [])
    again :
        {e : ClientError}
        → is_connection_error tables e ≡ true
        → Leads (done, ran (some e) ∷ reconnected none ∷ ran none ∷ [])
    again_failed :
        {e e' : ClientError}
        → is_connection_error tables e ≡ true
        → Leads (operation_failed e', ran (some e) ∷ reconnected none ∷ ran (some e') ∷ [])

  Leads-IsSound :
      {r : Traced} → Leads r → IsSound true r × IsSound false (after_event (reconnected none) r)
  Leads-IsSound at_once = (
    ((refl, refl), refl, omega arith, inr refl),
    ((refl, (refl, refl)), refl, omega arith, inr refl),
  )
  Leads-IsSound (refused other) = (
    ((refl, tt), refl, omega arith, inr other),
    ((refl, (refl, tt)), refl, omega arith, inr other),
  )
  Leads-IsSound (stays_lost lost) = (
    ((refl, (ap not lost, refl)), refl, omega arith, inr refl),
    ((refl, (refl, (ap not lost, refl))), refl, omega arith, inr refl),
  )
  Leads-IsSound (again lost) = (
    ((refl, (ap not lost, (refl, refl))), refl, omega arith, inr refl),
    ((refl, (refl, (ap not lost, (refl, refl)))), refl, omega arith, inr refl),
  )
  Leads-IsSound (again_failed lost) = (
    ((refl, (ap not lost, (refl, tt))), refl, omega arith, inl refl),
    ((refl, (refl, (ap not lost, (refl, tt)))), refl, omega arith, inl refl),
  )

module _ (tables : Bytes → Bytes) (op reconnect : ℕ → Option ClientError) where
  retried-Leads :
      (n : ℕ) (e : ClientError)
      → Leads tables (after_event (ran (some e)) (retried tables op reconnect n e))
  unfolding retried
  retried-Leads n e = elim (Bool-cases (is_connection_error tables e)) [
    | inr other ↦ rw (other, retried) (refused other)
    | inl lost ↦
        rw (lost, retried)
          (elim (Option-cases (reconnect n)) [
            | inr (r, c) ↦ rw (c, retried) (stays_lost lost)
            | inl c ↦
                rw (c, retried)
                  (elim (Option-cases (op 1)) [
                    | inr (e', s) ↦ rw (s, retried) (again_failed lost)
                    | inl s ↦ rw (s, retried) (again lost)
                  ])
          ])
  ]

  attempt-Leads : (n : ℕ) → Leads tables (attempt tables op reconnect n)
  unfolding attempt
  attempt-Leads n = elim (Option-cases (op 0)) [
    | inl first ↦ rw (first, attempt) at_once
    | inr (e, first) ↦ rw (first, attempt) (retried-Leads n e)
  ]

  -- withReconnect runs its operation only on a connection and reconnects only without one, where a
  -- connection error of the operation ends the connection. It runs the operation at most twice, and
  -- it gives up after a connection error of the operation only if that was the second run. It
  -- returns nil exactly if the last event succeeded, and else the error of that event.
  pub with_reconnect-IsSound :
      (connected : Bool) → IsSound tables connected (with_reconnect tables op reconnect connected)
  unfolding with_reconnect
  with_reconnect-IsSound true = (Leads-IsSound tables (attempt-Leads 0)).0
  with_reconnect-IsSound false = elim (Option-cases (reconnect 0)) [
    | inr (r, c) ↦ rw (c, with_reconnect) ((refl, refl), refl, omega arith, inr refl)
    | inl c ↦ rw (c, with_reconnect) ((Leads-IsSound tables (attempt-Leads 1)).1)
  ]
