-- ===== src/Orchestrator/Stats/Totals.antt =====
-- Sums over the maps of the digest statistics.
use emailer.Prelude.{
  ℕ, ◌+◌, ◌≡◌, inl, inr, List, [], ◌∷◌, Option, none, some, arith, or_else, Bool-cases,
  Option-cases, ◌==◌,
}
use emailer.Prelude.Bytes.{Bytes, bytes_eq}
use emailer.Prelude.Dict.{Dict, get, put}
use emailer.Mail.Types.{key_eq}
use emailer.Digest.{AccountStats}
use emailer.Orchestrator.Stats.{Counts, count_up, fresh_account, with_account}

-- The sum of a number over the values of a map, and over a list.
unfoldable pub total : {V : Type 0} → (V → ℕ) → Dict Bytes V → ℕ
total f [] = 0
total f ((k, v) ∷ d) = f v + total f d

unfoldable pub sum_of : {A : Type 0} → (A → ℕ) → List A → ℕ
sum_of f [] = 0
sum_of f (x ∷ xs) = f x + sum_of f xs

abbrev at_key : {V : Type 0} → (V → ℕ) → Option V → ℕ
at_key f none = 0
at_key f (some v) = f v

pub total-put :
    {V : Type 0} (f : V → ℕ) (k : Bytes) (v : V) (d : Dict Bytes V)
    → total f (put k v d) + at_key f (get k d) ≡ total f d + f v
unfolding total put get
total-put f k v [] = omega arith
total-put f k v ((j, w) ∷ d) = elim (Bool-cases (j == k)) [
  | inl same ↦ rw same (omega arith)
  | inr other ↦ rw other (omega (arith, total-put f k v d))
]

pub total-count_up :
    (k : Bytes) (counts : Counts) → total (λ n. n) (count_up k counts) ≡ total (λ n. n) counts + 1
unfolding count_up
total-count_up k counts =
    let put_lem = total-put {V = ℕ} (λ n. n) k (or_else (get k counts) 0 + 1) counts in
    elim (Option-cases (get k counts)) [
      | inl e ↦ rw e (omega (arith, rw e at put_lem))
      | inr (n, e) ↦ rw e (omega (arith, rw e at put_lem))
    ]

-- A change that adds `n` to the number of an account adds `n` to the sum.
pub total-with_account :
    (f : AccountStats → ℕ) (n : ℕ) (label : Bytes) (change : AccountStats → AccountStats)
    (accounts : Dict Bytes AccountStats)
    → ((a : AccountStats) → f (change a) ≡ f a + n)
    → f (fresh_account label) ≡ 0
    → total f (with_account label change accounts) ≡ total f accounts + n
unfolding with_account
total-with_account f n label change accounts adds zero_first =
    let old : AccountStats = or_else (get label accounts) (fresh_account label) in
    let put_lem = total-put {V = AccountStats} f label (change old) accounts in
    let adds_lem = adds old in
    elim (Option-cases (get label accounts)) [
      | inl e ↦ rw e (omega (arith, rw e at put_lem, rw e at adds_lem, zero_first))
      | inr (a, e) ↦ rw e (omega (arith, rw e at put_lem, rw e at adds_lem))
    ]
