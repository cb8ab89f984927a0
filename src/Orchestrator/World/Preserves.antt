-- ===== src/Orchestrator/World/Preserves.antt =====
-- Actions that leave a view of the world as it was, one rule for each way to build an action.
use emailer.Prelude.{◌≡◌, refl, ◌∙◌, Bool, true, false, List, [], ◌∷◌, if◌then◌else◌}
use emailer.Orchestrator.World.{
  Pipeline, World, Act, Effect, classified, flagged, sent, ◌>>=◌, pure, on_store, ask_store, now,
}

pub record Preserves {S A X : Type 0} (view : World S → X) (m : Act S A) : Type 0 where
  pub at : (w : World S) → view (m w).1 ≡ view w

module _ {S A X : Type 0} {view : World S → X} where
  pub Preserves-pure : (a : A) → Preserves view (pure a)
  Preserves-pure a = record { at = λ w. refl }

  pub Preserves-if :
      (b : Bool) (m n : Act S A)
      → Preserves view m
      → Preserves view n
      → Preserves view (if b then m else n)
  Preserves-if true m n p q = p
  Preserves-if false m n p q = q

  pub Preserves-bind :
      {B : Type 0} (m : Act S A) (f : A → Act S B)
      → Preserves view m
      → ((a : A) → Preserves view (f a))
      → Preserves view (m >>= f)
  Preserves-bind m f p q = record { at = λ w. (q (m w).0).at (m w).1 ∙ p.at w }

-- The effects that reach a mailbox or the notification channel, the latest first.
unfoldable pub deliveries : List Effect → List Effect
deliveries [] = []
deliveries (classified request ∷ es) = deliveries es
deliveries (flagged label flags ∷ es) = flagged label flags ∷ deliveries es
deliveries (sent digest ∷ es) = sent digest ∷ deliveries es

module _ {S : Type 0} where
  abbrev pub delivered : World S → List Effect
  delivered w = deliveries w.trace

  pub delivered-on_store : {A : Type 0} (f : S → A × S) → Preserves delivered (on_store f)
  delivered-on_store f = record { at = λ w. refl }

  pub delivered-ask_store : {A : Type 0} (f : S → A) → Preserves delivered (ask_store f)
  delivered-ask_store f = record { at = λ w. refl }

  pub delivered-now : (p : Pipeline S) → Preserves delivered (now p)
  delivered-now p = record { at = λ w. refl }
