-- ===== src/Object/Registry.antt =====
-- object/registry.go: the registry of backends. A factory is a function from a configuration; none is
-- nil. The mutex makes a call one step.
use omnistorage_core.Base.{
  ◌≡◌, refl, ◌∙◌, ==-refl, Bool, true, false, Option, none, some, List, Result, err, list_eq,
  nat_eq, contains,
}
use omnistorage_core.Base.Dict
use omnistorage_core.Base.Dict.{
  Dict, NodupKeys, keys-Distinct, contains-keys, lookup-insert, lookup-erase,
}
use omnistorage_core.Base.Sort.{Ascending, sort-Ascending, contains-sort}
use omnistorage_core.Base.Text.{Text, text_lt, text_lt-IsStrictOrder, sort_texts}
use omnistorage_core.Object.{Error}

-- `BackendFactory`
abbrev pub Factory : Type 0 → Type 0
Factory B = Dict Text Text → Result Error B

module _ {B : Type 0} where
  -- `Register`; none is a panic
  unfoldable pub register :
      Text → Option (Factory B) → Dict Text (Factory B) → Option (Dict Text (Factory B))
  register name none d = none
  register name (some factory) d = elim (Dict.lookup name d) [
    | some _ ↦ none
    | none ↦ some (Dict.insert name factory d)
  ]

  -- `Open`
  unfoldable pub open_backend : Text → Dict Text Text → Dict Text (Factory B) → Result Error B
  open_backend name config d = elim (Dict.lookup name d) [
    | none ↦ err Error.unknown_backend
    | some factory ↦ factory config
  ]

  -- `Backends`
  unfoldable pub backends : Dict Text (Factory B) → List Text
  backends d = sort_texts (Dict.keys d)

  -- `IsRegistered`
  unfoldable pub is_registered : Text → Dict Text (Factory B) → Bool
  is_registered name d = Dict.is_some (Dict.lookup name d)

  -- `Unregister`
  unfoldable pub unregister : Text → Dict Text (Factory B) → Dict Text (Factory B) × Bool
  unregister name d = elim (Dict.lookup name d) [
    | some _ ↦ (Dict.erase name d, true)
    | none ↦ (d, false)
  ]

  -- On a registry that lists no name twice, `Backends` returns, strictly ascending, exactly the names that
  -- are registered.
  pub backends_lem :
      (d : Dict Text (Factory B))
      → NodupKeys d
      → Ascending text_lt (backends d)
        × ((name : Text) → contains (backends d) name ≡ is_registered name d)
  unfolding backends is_registered
  backends_lem d u = (
    sort-Ascending text_lt text_lt-IsStrictOrder (Dict.keys d) (keys-Distinct d u),
    λ name. contains-sort text_lt name (Dict.keys d) ∙ contains-keys d name,
  )

  -- A name is registered once: a second `Register` panics, until `Unregister` has taken the name away.
  pub register_again :
      (name : Text) (factory other : Factory B) (d : Dict Text (Factory B))
      → Dict.lookup name d ≡ none
      → let d' = Dict.insert name factory d in
        (register name (some factory) d ≡ some d')
        × (register name (some other) d' ≡ none)
        × ((unregister name d').1 ≡ true)
        × (Dict.lookup name (unregister name d').0 ≡ none)
  unfolding register unregister
  register_again name factory other d fresh =
      let found : Dict.lookup name (Dict.insert name factory d) ≡ some factory =
        lookup-insert name name factory d ∙ rw (==-refl name) refl in
      let gone : Dict.lookup name (Dict.erase name (Dict.insert name factory d)) ≡ none =
        lookup-erase name name (Dict.insert name factory d) ∙ rw (==-refl name) refl in
      (
        rw (register, fresh) refl,
        rw (register, found) refl,
        rw (unregister, found) refl,
        rw (unregister, found) gone,
      )
