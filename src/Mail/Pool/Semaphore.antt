-- ===== src/Mail/Pool/Semaphore.antt =====
-- internal/mail/pool.go: `BoundedSemaphore`, a buffered channel, with one value in it for each slot that is taken.
use emailer.Prelude.{
  ℕ, ◌+◌, ◌-◌, ◌≤◌, ◌<◌, ◌≡◌, ◌↔◌, refl, Bool, false, ◌&&◌, Option, none, some, ltb, nat_beq, arith,
  if◌then◌else◌,
}
use emailer.Prelude.Int.{ℤ, pos, leb_ℤ, pos_part}

pub record Semaphore : Type 0 where
  pub capacity : ℕ
  pub buffered : ℕ

unfoldable pub new_bounded_semaphore : ℤ → Semaphore
new_bounded_semaphore n = record {
  capacity = if leb_ℤ n (pos 0) then 1 else pos_part n;
  buffered = 0;
}

pub data Outcome : Type 0 where
  acquired : Semaphore → Outcome
  -- the context's error
  refused : Outcome
  -- neither case of the `select` is ready
  blocked : Outcome

-- `done_before`: the context is done at the first check; `done_now`: at the `select`; `pick`: the
-- case that the `select` takes when both are ready.
unfoldable pub acquire : Bool → Bool → Bool → Semaphore → Outcome
acquire done_before done_now pick s =
    let room = ltb s.buffered s.capacity in
    let taken = acquired (record s { buffered = s.buffered + 1 }) in
    if done_before
    then refused
    else if room && done_now
    then (if pick then taken else refused)
    else if room
    then taken
    else if done_now
    then refused
    else blocked

-- `none` where the receive blocks, since nothing is buffered.
unfoldable pub release : Semaphore → Option Semaphore
release s = if nat_beq s.buffered 0 then none else some (record s { buffered = s.buffered - 1 })

-- A semaphore with the number of goroutines that hold a slot: those for which Acquire returned nil
-- and that have not called Release since.
pub record Shared : Type 0 where
  pub semaphore : Semaphore
  pub holders : ℕ

-- One step by any goroutine: a call of Acquire that returns nil, or one of Release by a holder.
-- A call of Acquire that returns an error leaves everything as it is.
pub data Step (s : Shared) : Shared → Type 0 where
  acquires :
      (done_before done_now pick : Bool) {t : Semaphore}
      → acquire done_before done_now pick s.semaphore ≡ acquired t
      → Step s (record { semaphore = t; holders = s.holders + 1 })
  releases :
      {t : Semaphore}
      → 0 < s.holders
      → release s.semaphore ≡ some t
      → Step s (record { semaphore = t; holders = s.holders - 1 })

pub data Reach (s : Shared) : Shared → Type 0 where
  here : Reach s s
  next : {t u : Shared} → Reach s t → Step t u → Reach s u

abbrev pub made_for : ℤ → Shared
made_for n = record { semaphore = new_bounded_semaphore n; holders = 0 }

-- The channel has one value for each holder.
record IsCounted (cap : ℕ) (s : Shared) : Type 0 where
  same : s.semaphore.capacity ≡ cap
  counted : s.semaphore.buffered ≡ s.holders
  within : s.holders ≤ cap

Step-IsCounted : {cap : ℕ} {s t : Shared} → Step s t → IsCounted cap s → IsCounted cap t
unfolding acquire release
Step-IsCounted (acquires a b c e) h = ground arith
Step-IsCounted (releases some' e) h = ground arith

Reach-IsCounted : {cap : ℕ} {s t : Shared} → Reach s t → IsCounted cap s → IsCounted cap t
Reach-IsCounted here h = h
Reach-IsCounted (next r st) h = Step-IsCounted st (Reach-IsCounted r h)

abbrev pub slots : ℤ → ℕ
slots n = if leb_ℤ n (pos 0) then 1 else pos_part n

made_for-IsCounted : (n : ℤ) → IsCounted (slots n) (made_for n)
unfolding new_bounded_semaphore
made_for-IsCounted n = record { same = refl; counted = refl; within = omega arith }

blocked_lem :
    (cap : ℕ) (s : Shared) (pick : Bool)
    → IsCounted cap s
    → (acquire false false pick s.semaphore ≡ blocked) ↔ (s.holders ≡ cap)
unfolding acquire
blocked_lem cap s pick h = ground arith

release_lem :
    (cap : ℕ) (s : Shared) → IsCounted cap s → (release s.semaphore ≡ none) ↔ (s.holders ≡ 0)
unfolding release
release_lem cap s h = ground arith

-- Whatever the interleaving of acquires and releases, a semaphore made for `n` slots, or for one
-- where `n` is not positive, has at most that many holders. With a context that is not done, Acquire
-- waits exactly when all slots have holders, so that none is lost; and Release waits exactly when
-- there is no holder.
pub holders-slots :
    (n : ℤ) {s : Shared} (pick : Bool)
    → Reach (made_for n) s
    → (s.holders ≤ slots n)
      × ((acquire false false pick s.semaphore ≡ blocked) ↔ (s.holders ≡ slots n))
      × ((release s.semaphore ≡ none) ↔ (s.holders ≡ 0))
holders-slots n {s} pick r =
    let counted' = Reach-IsCounted r (made_for-IsCounted n) in
    (counted'.within, blocked_lem (slots n) s pick counted', release_lem (slots n) s counted')
