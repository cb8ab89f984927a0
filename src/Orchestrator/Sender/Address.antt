-- ===== src/Orchestrator/Sender/Address.antt =====
-- What `parseSender` accepts.
use native.Mathlib.Numerals.{add-one}
use emailer.Prelude.{
  ℕ, zero, suc, ◌-◌, ◌<◌, ◌≡◌, ◌≢◌, refl, ap, ◌⊎◌, inl, inr, false, ◌&&◌, [], ◌∷◌, ◌++◌, Option,
  none, some, arith, length, take, drop, ltb, ◌==◌, nat_eq, Bool-cases, Option-cases, contains,
  if-keeps,
}
use emailer.Prelude.Bytes.{Bytes, bytes_eq, last_index, has_prefix, to_lower}
use emailer.Orchestrator.Sender.{extract_address, split_at, parse_sender}

has_prefix-at :
    (s : Bytes) → has_prefix s (b'@' ∷ []) ≡ (elim s [ [] ↦ false | c ∷ rest ↦ (c == b'@') ])
unfolding has_prefix
has_prefix-at [] = refl
has_prefix-at (c ∷ []) = ground arith
has_prefix-at (c ∷ d ∷ s) = ground arith

-- Around the last "@" a text is what stands before it and what stands after it, which has none.
record SplitsAt (s : Bytes) (i : ℕ) : Type 0 where
  joins : take i s ++ (b'@' ∷ drop (suc i) s) ≡ s
  last : contains b'@' (drop (suc i) s) ≡ false
  inside : i < length s

last_index-none : (s : Bytes) → last_index s (b'@' ∷ []) ≡ none → contains b'@' s ≡ false
unfolding last_index contains
last_index-none [] e = refl
last_index-none (c ∷ s) e = ground (arith, has_prefix-at (c ∷ s), last_index-none s)

last_index-SplitsAt : (s : Bytes) (i : ℕ) → last_index s (b'@' ∷ []) ≡ some i → SplitsAt s i
unfolding last_index
last_index-SplitsAt [] i e = absurd (ground (arith, has_prefix-at []))
last_index-SplitsAt (c ∷ s) i e = elim (Option-cases (last_index s (b'@' ∷ []))) [
  | inl n ↦
      let (z, at) : (i ≡ 0) × (c ≡ b'@') =
        (ground (arith, has_prefix-at (c ∷ s)), ground (arith, has_prefix-at (c ∷ s))) in
      rw (z, at) (record { joins = refl; last = last_index-none s n; inside = omega arith })
  | inr (j, p) ↦
      let k : suc j ≡ i = ground arith in
      let h : SplitsAt s j = last_index-SplitsAt s j p in
      rw (← k)
        (record { joins = ap (◌∷◌ c) h.joins; last = h.last; inside = omega (arith, h.inside) })
]

-- The form of a sender and its domain.
pub record IsAddress (tables : Bytes → Bytes) (sender domain : Bytes) : Type 0 where
  pub local_part : Bytes
  pub host : Bytes
  pub joins : local_part ++ (b'@' ∷ host) ≡ sender
  pub local_ne_nil : local_part ≢ []
  pub host_ne_nil : host ≢ []
  pub one_at : contains b'@' host ≡ false
  pub lowered : to_lower tables host ≡ domain

take-ne-nil : (i : ℕ) (s : Bytes) → 0 < i → 0 < length s → take i s ≢ []
take-ne-nil zero s h k = absurd (omega arith)
take-ne-nil (suc i) [] h k = absurd (omega arith)
take-ne-nil (suc i) (c ∷ s) h k = λ e. cc

drop-ne-nil : (i : ℕ) (s : Bytes) → i < length s → drop i s ≢ []
drop-ne-nil zero [] h = absurd (omega arith)
drop-ne-nil zero (c ∷ s) h = λ e. cc
drop-ne-nil (suc i) [] h = absurd (omega arith)
drop-ne-nil (suc i) (c ∷ s) h = drop-ne-nil i s (omega arith)

split_at-IsAddress :
    (tables : Bytes → Bytes) (addr : Bytes) (i : ℕ)
    → SplitsAt addr i
    → ((split_at tables addr (some i)) ≡ ([], []))
      ⊎ IsAddress tables (split_at tables addr (some i)).0 (split_at tables addr (some i)).1
split_at-IsAddress tables addr i h = elim (Bool-cases (ltb 0 i && ltb i (length addr - 1))) [
  | inr out ↦ inl (rw out)
  | inl within ↦ rw within (
      inr (record {
        local_part = take i addr;
        host = drop (suc i) addr;
        joins = h.joins;
        local_ne_nil = take-ne-nil i addr (ground arith) (ground arith);
        host_ne_nil = drop-ne-nil (suc i) addr (ground arith);
        one_at = h.last;
        lowered = rw add-one;
      }))
]

-- What a reported pair is.
abbrev pub Reported : (Bytes → Bytes) → Bytes → Bytes × Bytes → Type 0
Reported tables addr r = (r ≡ ([], [])) ⊎ (IsAddress tables r.0 r.1 × (r.0 ≡ addr))

split_at-sender :
    (tables : Bytes → Bytes) (addr : Bytes) (i : ℕ)
    → (split_at tables addr (some i) ≡ ([], [])) ⊎ ((split_at tables addr (some i)).0 ≡ addr)
split_at-sender tables addr i = elim (Bool-cases (ltb 0 i && ltb i (length addr - 1))) [
  | inr out ↦ inl (rw out)
  | inl within ↦ inr (rw within)
]

split_at-Reported :
    (tables : Bytes → Bytes) (addr : Bytes) (o : Option ℕ)
    → last_index addr (b'@' ∷ []) ≡ o
    → Reported tables addr (split_at tables addr o)
split_at-Reported tables addr none e = inl refl
split_at-Reported tables addr (some i) e =
    elim (split_at-IsAddress tables addr i (last_index-SplitsAt addr i e)) [
      | inl nothing ↦ inl nothing
      | inr address ↦ elim (split_at-sender tables addr i) [
        | inl nothing ↦ inl nothing
        | inr same ↦ inr (address, same)
      ]
    ]

-- For every From header, `parseSender` reports neither a sender nor a domain, or the extracted
-- address, which then has the form local part, "@", host, with both parts non-empty and no "@" in
-- the host, and the host in lower case as the domain.
pub parse_sender-Reported :
    (tables : Bytes → Bytes) (from : Bytes)
    → Reported tables (extract_address from) (parse_sender tables from)
unfolding parse_sender
parse_sender-Reported tables from =
    let addr : Bytes = extract_address from in
    if-keeps (Reported tables addr) (addr == []) ([], [])
      (split_at tables addr (last_index addr (b'@' ∷ []))) (inl refl)
      (split_at-Reported tables addr (last_index addr (b'@' ∷ [])) refl)
