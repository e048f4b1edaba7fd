-- ===== src/Base/Dict.antt =====
-- Go's maps as association lists in some order. Proofs elsewhere go by the laws; only tests
-- unfold the operations.
use mathlib.Core.List.{List, [], ◌∷◌}
use mathlib.Core.Option.{Option, none, some}
use mathlib.Core.Path.{◌≡◌, refl}
use native.Mathlib.Omega.{arith}
use mathlib.Core.Bool.{Bool, true, false}
use Prim.Native.Nat.{◌≤◌, ◌<◌}
use mathlib.Core.Logic.{◌≢◌}
use omnistorage_core.Base.Equality.{Eq, ◌==◌, ==-refl, contains}
use omnistorage_core.Base.Lists.{length}
use omnistorage_core.Base.Sort.{Distinct}
use omnistorage_core.Base.Tests.{if◌then◌else◌}

abbrev pub Dict {ℓ κ} : Type ℓ → Type κ → Type (ℓ ⊔ κ)
Dict K V = List (K × V)

unfoldable pub keys {ℓ κ} : {K : Type ℓ} {V : Type κ} → Dict K V → List K
keys [] = []
keys ((k, _) ∷ d) = k ∷ keys d

module _ {ℓ κ} {K : Type ℓ} {V : Type κ} ⦃e : Eq K⦄ where
  -- `v, ok := d[k]`
  unfoldable pub lookup : K → Dict K V → Option V
  lookup k [] = none
  lookup k ((j, v) ∷ d) = if k == j then some v else lookup k d

  -- `d[k] = v`
  unfoldable pub insert : K → V → Dict K V → Dict K V
  insert k v [] = (k, v) ∷ []
  insert k v ((j, w) ∷ d) = if k == j then (k, v) ∷ d else (j, w) ∷ insert k v d

  -- `delete(d, k)`
  unfoldable pub erase : K → Dict K V → Dict K V
  erase k [] = []
  erase k ((j, w) ∷ d) = let rest = erase k d in if k == j then rest else (j, w) ∷ rest

  -- A loop over the map that keeps the entries which pass a test.
  unfoldable pub retain : (K → V → Bool) → Dict K V → Dict K V
  retain p [] = []
  retain p ((j, w) ∷ d) = let rest = retain p d in if p j w then (j, w) ∷ rest else rest

  -- No key is listed twice, as in a real map.
  abbrev pub NodupKeys : Dict K V → Type κ
  NodupKeys [] = Unit
  NodupKeys ((k, _) ∷ d) = (lookup k d ≡ none) × NodupKeys d

  pub lookup-nil : (k : K) → lookup k [] ≡ none
  unfolding lookup
  lookup-nil k = refl

  pub lookup-cons :
      (j k : K) (v : V) (d : Dict K V)
      → lookup j ((k, v) ∷ d) ≡ (if j == k then some v else lookup j d)
  unfolding lookup
  lookup-cons j k v d = refl

  pub lookup-insert :
      (j k : K) (v : V) (d : Dict K V)
      → lookup j (insert k v d) ≡ (if j == k then some v else lookup j d)
  unfolding insert lookup
  lookup-insert j k v [] = refl
  lookup-insert j k v (_ ∷ d) = ground (arith, lookup-insert j k v d)

  pub lookup-erase :
      (j k : K) (d : Dict K V) → lookup j (erase k d) ≡ (if j == k then none else lookup j d)
  unfolding erase lookup
  lookup-erase j k [] = ground arith
  lookup-erase j k (_ ∷ d) = ground (arith, lookup-erase j k d)

  -- Erasing a key that is not there changes nothing.
  pub erase_absent : (k : K) (d : Dict K V) → lookup k d ≡ none → erase k d ≡ d
  unfolding erase lookup
  erase_absent k [] h = refl
  erase_absent k ((j, v) ∷ d) h = ground (arith, erase_absent k d)

  pub insert-NodupKeys : (k : K) (v : V) (d : Dict K V) → NodupKeys d → NodupKeys (insert k v d)
  unfolding insert
  insert-NodupKeys k v [] _ = (lookup-nil k, tt)
  insert-NodupKeys k v ((j, _) ∷ d) (fresh, u) =
      ground (arith, insert-NodupKeys k v d u, lookup-insert j k v d)

  pub erase-NodupKeys : (k : K) (d : Dict K V) → NodupKeys d → NodupKeys (erase k d)
  unfolding erase
  erase-NodupKeys k [] u = u
  erase-NodupKeys k ((j, _) ∷ d) (fresh, u) =
      ground (arith, erase-NodupKeys k d u, lookup-erase j k d)

  -- Where no key is listed twice, a filtered map holds exactly the entries that pass.
  pub lookup-retain :
      (p : K → V → Bool) (j : K) (d : Dict K V)
      → NodupKeys d
      → lookup j (retain p d)
        ≡ elim (lookup j d) [ none ↦ none | some v ↦ if p j v then some v else none ]
  unfolding retain lookup
  lookup-retain p j [] _ = refl
  lookup-retain p j ((k, v) ∷ d) (fresh, u) = ground (arith, lookup-retain p j d u)

  pub retain-NodupKeys : (p : K → V → Bool) (d : Dict K V) → NodupKeys d → NodupKeys (retain p d)
  unfolding retain
  retain-NodupKeys p [] u = u
  retain-NodupKeys p ((k, v) ∷ d) (fresh, u) =
      ground (arith, retain-NodupKeys p d u, lookup-retain p k d u)

abbrev pub is_some {ℓ} : {A : Type ℓ} → Option A → Bool
is_some none = false
is_some (some a) = true

module _ {ℓ κ} {K : Type ℓ} {V : Type κ} ⦃e : Eq K⦄ where
  -- The listed keys are exactly the ones that a lookup finds.
  pub contains-keys : (d : Dict K V) (k : K) → contains (keys d) k ≡ is_some (lookup k d)
  unfolding keys lookup
  contains-keys [] k = refl
  contains-keys (_ ∷ d) k = ground (arith, contains-keys d k)

  pub keys-Distinct : (d : Dict K V) → NodupKeys d → Distinct (keys d)
  unfolding keys
  keys-Distinct [] _ = tt
  keys-Distinct ((k, _) ∷ d) (fresh, u) = (rw (contains-keys, fresh), keys-Distinct d u)

  length-erase-le : (k : K) (d : Dict K V) → length (erase k d) ≤ length d
  unfolding erase
  length-erase-le k [] = omega arith
  length-erase-le k (_ ∷ d) = ground (arith, length-erase-le k d)

  length-erase : (k : K) (d : Dict K V) → lookup k d ≢ none → length (erase k d) < length d
  unfolding erase lookup
  length-erase k [] h = absurd (h refl)
  length-erase k (_ ∷ d) h = ground (arith, length-erase k d, length-erase-le k d)

  some_at : (k : K) (v : V) (d : Dict K V) → lookup k ((k, v) ∷ d) ≢ none
  unfolding lookup
  some_at k v d h = ground (arith, ==-refl k)

  -- A map whose keys are all in another one has no more entries.
  pub length-le :
      (d d' : Dict K V)
      → NodupKeys d
      → ((k : K) → lookup k d' ≡ none → lookup k d ≡ none)
      → length d ≤ length d'
  length-le [] d' u h = omega arith
  length-le ((k, v) ∷ d) d' (fresh, u) h =
      let there : lookup k d' ≢ none = λ gone. some_at k v d (h k gone) in
      let rest =
        length-le d (erase k d') u
          (λ j gone. ground (arith, fresh, gone, lookup-erase j k d', h j, lookup-cons j k v d)) in
      let shorter = length-erase k d' there in omega arith
