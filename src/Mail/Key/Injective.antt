-- ===== src/Mail/Key/Injective.antt =====
-- The text of a key tells keys apart.
use emailer.Prelude.{◌^◌, ◌<◌, ◌≡◌, refl, sym, ap, ◌∙◌, [], ◌∷◌, ◌++◌, none, some, arith, All, ◌≢◌}
use emailer.Prelude.Bytes.{Bytes}
use emailer.Mail.Types.{MessageKey}
use emailer.Mail.Key.{itoa, key_text, value, NotSlash, Prints, itoa-Prints}

slash_inside : (l s : Bytes) → All NotSlash (l ++ (b'/' ∷ s)) → ⊥
slash_inside [] s (h, t) = h refl
slash_inside (c ∷ l) s (h, t) = slash_inside l s t

split_at_slash :
    (l k s t : Bytes)
    → l ++ (b'/' ∷ s) ≡ k ++ (b'/' ∷ t)
    → All NotSlash s
    → All NotSlash t
    → (l ≡ k) × (s ≡ t)
split_at_slash [] [] s t e a b = (refl, cc)
split_at_slash [] (c ∷ k) s t e a b =
    let tail : s ≡ k ++ (b'/' ∷ t) = cc in absurd (slash_inside k t (rw tail at a))
split_at_slash (c ∷ l) [] s t e a b =
    let tail : t ≡ l ++ (b'/' ∷ s) = cc in absurd (slash_inside l s (rw tail at b))
split_at_slash (c ∷ l) (d ∷ k) s t e a b = let (p, q) = split_at_slash l k s t (cc) a b in (cc, q)

key_text-itoa :
    (k : MessageKey) (s : Bytes)
    → itoa k.uid ≡ some s
    → key_text k ≡ some (k.account_label ++ (b'/' ∷ s))
unfolding key_text
key_text-itoa k s e = rw (e, key_text)

key-eq_of_parts : (a b : MessageKey) → a.account_label ≡ b.account_label → a.uid ≡ b.uid → a ≡ b
key-eq_of_parts a b p q = ground arith

same_text :
    (a b : MessageKey) (s t : Bytes)
    → itoa a.uid ≡ some s
    → itoa b.uid ≡ some t
    → Prints a.uid s
    → Prints b.uid t
    → key_text a ≡ key_text b
    → a ≡ b
same_text a b s t es et ps pt e =
    let joined : a.account_label ++ (b'/' ∷ s) ≡ b.account_label ++ (b'/' ∷ t) =
      cc (key_text-itoa a s es, key_text-itoa b t et, e) in
    let (p, q) =
      split_at_slash a.account_label b.account_label s t joined ps.no_slash pt.no_slash in
    key-eq_of_parts a b p (sym ps.reads ∙ ap (value 0) q ∙ pt.reads)

-- Keys whose uids fit in 32 bits have a text (the fixed buffer of `itoa` never overflows), and two
-- such keys with the same text are the same key, slashes in the account labels included.
pub key_text-injective :
    (a b : MessageKey)
    → a.uid < 2 ^ 32
    → b.uid < 2 ^ 32
    → (key_text a ≢ none) × (key_text a ≡ key_text b → a ≡ b)
key_text-injective a b ha hb =
    let (s, es, ps) = itoa-Prints a.uid ha in
    let (t, et, pt) = itoa-Prints b.uid hb in
    (λ e. cc (key_text-itoa a s es, e), λ e. same_text a b s t es et ps pt e)
