-- ===== src/Llm/Registry.antt =====
-- internal/llm/llm.go: `ProviderRegistry`, over the type of its factories. The channel registry of
-- internal/notify/notify.go is the same code.
use emailer.Prelude.{
  ◌≡◌, true, false, List, [], Option, none, some, arith, if◌then◌else◌, ◌==◌, is_some, map,
}
use emailer.Prelude.Bytes.{Bytes, bytes_eq}
use emailer.Prelude.Dict.{Dict, get, put, get-put}

module _ {F : Type 0} where
  unfoldable pub new_registry : Dict Bytes F
  new_registry = []

  -- `none` is the panic on a name that is registered.
  unfoldable pub register : Bytes → F → Dict Bytes F → Option (Dict Bytes F)
  register name factory factories =
      if is_some (get name factories) then none else some (put name factory factories)

  -- `none` is the nil factory.
  unfoldable pub lookup : Bytes → Dict Bytes F → Option F
  lookup = get

  -- Registered: the names, in the order of this representation.
  unfoldable pub registered : Dict Bytes F → List Bytes
  registered factories = map (λ (e : Bytes × F). e.0) factories

  -- Registering panics exactly on a name that can be looked up, and otherwise the new registry
  -- looks the name up as the new factory and every other name as before.
  pub lookup-register :
      (name other : Bytes) (factory : F) (factories : Dict Bytes F)
      → (is_some (register name factory factories)
          ≡ (if is_some (lookup name factories) then false else true))
        × (lookup other (put name factory factories)
            ≡ (if name == other then some factory else lookup other factories))
  unfolding register lookup
  lookup-register name other factory factories =
      (ground arith, get-put name other factory factories)
