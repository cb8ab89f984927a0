-- ===== src/Examples/Mail.antt =====
-- Examples for internal/mail.
use emailer.Prelude.{
  ◌↔◌, ℕ, zero, suc, ◌<◌, ◌≤◌, ◌≡◌, ◌≢◌, refl, true, false, [], ◌∷◌, none, some, arith, get_elem?,
  length, contains, nat_eq,
}
use emailer.Prelude.Bytes.{codes, bytes_eq}
use emailer.Prelude.Int.{pos}
use emailer.Mail.Types.{MessageKey, FetchOptions, Classification}
use emailer.Mail.Key.{key_text}
use emailer.Mail.Key.Injective.{key_text-injective}
use emailer.Mail.Pool.{fetch_all, fetch_account}
use emailer.Mail.Pool.AnyOrder.{fetch_all_any_order}
use emailer.Mail.Pool.Semaphore.{
  Semaphore, new_bounded_semaphore, acquire, release, blocked, Reach, made_for, here, next,
  acquires, releases, holders-slots,
}
use emailer.Orchestrator.Classify.{make_failed_classification}
use emailer.Examples.{account, accounts, ingesters}

abbrev first_key : MessageKey
first_key = record { account_label = codes "work/inbox"; uid = 12 }

abbrev second_key : MessageKey
second_key = record { account_label = codes "work"; uid = 4294967295 }

key_text-injective_example :
    (key_text first_key ≢ none)
    × (key_text first_key ≡ key_text second_key → first_key ≡ second_key)
key_text-injective_example = key_text-injective first_key second_key (omega arith) (omega arith)

abbrev opts : FetchOptions
opts = record { since = pos 0; fetch_unread_only = true; folders = []; batch_size = pos 10 }

both_named : (i : ℕ) → i < length accounts → contains i (1 ∷ 0 ∷ []) ≡ true
unfolding contains
both_named zero h = refl
both_named (suc zero) h = refl
both_named (suc (suc i)) h = absurd (omega arith)

fetch_all_any_order_example :
    (length (fetch_all (λ i. false) ingesters opts accounts (1 ∷ 0 ∷ [])) ≡ 2)
    × (get_elem? (fetch_all (λ i. false) ingesters opts accounts (1 ∷ 0 ∷ [])) 1
        ≡ some (fetch_account false ingesters opts (account (codes "work"))))
fetch_all_any_order_example =
    fetch_all_any_order (λ i. false) ingesters opts accounts (1 ∷ 0 ∷ []) both_named 1
      (account (codes "work")) refl

abbrev buffering : ℕ → Semaphore
buffering n = record { capacity = 2; buffered = n }

-- Two acquires, a release and an acquire.
fill : Reach (made_for (pos 2)) (record { semaphore = buffering 2; holders = 2 })
unfolding new_bounded_semaphore acquire release
fill =
    next
      (next
        (next (next here (acquires false false true {t = buffering 1} refl))
          (acquires false true true {t = buffering 2} refl))
        (releases {t = buffering 1} (omega arith) refl))
      (acquires false false true refl)

holders-slots_example :
    (2 ≤ 2)
    × ((acquire false false true (buffering 2) ≡ blocked) ↔ (◌≡◌ {A = ℕ} 2 2))
    × ((release (buffering 2) ≡ none) ↔ (◌≡◌ {A = ℕ} 2 0))
holders-slots_example = holders-slots (pos 2) true fill

abbrev sample : Classification
sample = record (make_failed_classification first_key) { label = codes "Urgent" }
