-- ===== src/Base/Equality.antt =====
-- Go's `==` for every type whose equality can be decided.
use Prim.Native.Nat.{ℕ}
use mathlib.Core.Bool.{Bool, true, false, ◌||◌}
use mathlib.Core.List.{List, [], ◌∷◌}
use mathlib.Core.Logic.{ite, ◌≢◌}
use mathlib.Core.Path.{◌≡◌, refl, ap₂}
use native.Mathlib.Decide.{ℕ_discrete}
use native.Mathlib.Omega.{arith}

pub record Eq {ℓ} (A : Type ℓ) : Type ℓ where
  pub dec : Discrete A

module _ {ℓ} {A : Type ℓ} ⦃e : Eq A⦄ where
  infix 50 ◌==◌
  abbrev pub ◌==◌ : A → A → Bool
  a == b = ite (e.dec a b) true false

  abbrev pub contains : List A → A → Bool
  contains [] a = false
  contains (x ∷ xs) a = a == x || contains xs a

  pub ==-true : (a b : A) → (a == b) ≡ true → a ≡ b
  ==-true a b h = ground arith

  pub ==-refl : (a : A) → (a == a) ≡ true
  ==-refl a = ground arith

  pub ==-false : (a b : A) → a ≢ b → (a == b) ≡ false
  ==-false a b h = ground arith

  list_cons_dec : (x y : A) (xs ys : List A) → Dec (xs ≡ ys) → Dec (x ∷ xs ≡ y ∷ ys)
  list_cons_dec x y xs ys (no n) = no (λ p. n (cc))
  list_cons_dec x y xs ys (yes p) = elim (e.dec x y) [
    | yes q ↦ yes (ap₂ ◌∷◌ q p)
    | no n ↦ no (λ q. n (cc))
  ]

  list_dec : Discrete (List A)
  unfolding list_cons_dec
  list_dec [] [] = yes refl
  list_dec [] (y ∷ ys) = no (λ p. cc)
  list_dec (x ∷ xs) [] = no (λ p. cc)
  list_dec (x ∷ xs) (y ∷ ys) = list_cons_dec x y xs ys (list_dec xs ys)

  instance unfoldable pub list_eq : Eq (List A)
  unfolding list_dec
  list_eq = record { dec = list_dec }

-- Shut in proofs, where a split on `a == b` yields the equation or its negation.
instance unfoldable pub nat_eq : Eq ℕ
unfolding ℕ_discrete
nat_eq = record { dec = ℕ_discrete }
