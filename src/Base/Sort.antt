-- ===== src/Base/Sort.antt =====
-- Sorting by a strict order given as a Boolean test, as sort.Strings does. A strictly ascending
-- list is determined by its members, so the order in which a map is walked does not matter.
use mathlib.Core.Bool.{Bool, true, false, ◌||◌}
use mathlib.Core.List.{List, [], ◌∷◌}
use mathlib.Core.Logic.{inl, inr}
use mathlib.Core.Path.{◌≡◌, refl, ap₂, ◌∙◌}
use native.Mathlib.Omega.{arith}
use omnistorage_core.Base.Equality.{Eq, ◌==◌, contains}
use omnistorage_core.Base.Lists.{All}
use omnistorage_core.Base.Tests.{if◌then◌else◌, Bool-cases}

pub record IsStrictOrder {ℓ} {A : Type ℓ} (lt : A → A → Bool) : Type ℓ where
  pub asym : (a b : A) → lt a b ≡ true → lt b a ≡ false
  pub trans : (a b c : A) → lt a b ≡ true → lt b c ≡ true → lt a c ≡ true
  pub total : (a b : A) → lt a b ≡ false → lt b a ≡ false → a ≡ b

module _ {ℓ} {A : Type ℓ} (lt : A → A → Bool) where
  unfoldable pub insert_sorted : A → List A → List A
  insert_sorted x [] = x ∷ []
  insert_sorted x (y ∷ ys) = if lt y x then y ∷ insert_sorted x ys else x ∷ y ∷ ys

  unfoldable pub sort : List A → List A
  unfolding insert_sorted
  sort [] = []
  sort (x ∷ xs) = insert_sorted x (sort xs)

  abbrev pub Ascending : List A → Type 0
  Ascending [] = Unit
  Ascending (x ∷ xs) = All (λ y. lt x y ≡ true) xs × Ascending xs

abbrev pub Distinct {ℓ} : {A : Type ℓ} ⦃e : Eq A⦄ → List A → Type 0
Distinct [] = Unit
Distinct (x ∷ xs) = (contains xs x ≡ false) × Distinct xs

module _ {ℓ} {A : Type ℓ} ⦃e : Eq A⦄ (lt : A → A → Bool) where
  contains-insert_sorted :
      (x a : A) (xs : List A) → contains (insert_sorted lt x xs) a ≡ (a == x || contains xs a)
  unfolding insert_sorted
  contains-insert_sorted x a [] = refl
  contains-insert_sorted x a (y ∷ ys) = ground (arith, contains-insert_sorted x a ys)

  pub contains-sort : (a : A) (xs : List A) → contains (sort lt xs) a ≡ contains xs a
  unfolding sort
  contains-sort a [] = refl
  contains-sort a (x ∷ xs) =
      ground (arith, contains-insert_sorted x a (sort lt xs), contains-sort a xs)

  module _ (o : IsStrictOrder lt) where
    All-insert_sorted :
        (z x : A) (xs : List A)
        → lt z x ≡ true
        → All (λ y. lt z y ≡ true) xs
        → All (λ y. lt z y ≡ true) (insert_sorted lt x xs)
    unfolding insert_sorted
    All-insert_sorted z x [] h _ = (h, tt)
    All-insert_sorted z x (y ∷ ys) h (k, ks) = ground (arith, All-insert_sorted z x ys h ks)

    All-trans :
        (x y : A) (ys : List A)
        → lt x y ≡ true
        → All (λ z. lt y z ≡ true) ys
        → All (λ z. lt x z ≡ true) ys
    All-trans x y [] h _ = tt
    All-trans x y (z ∷ ys) h (k, ks) = (o.trans x y z h k, All-trans x y ys h ks)

    insert_sorted-Ascending :
        (x : A) (xs : List A)
        → contains xs x ≡ false
        → Ascending lt xs
        → Ascending lt (insert_sorted lt x xs)
    unfolding insert_sorted
    insert_sorted-Ascending x [] _ _ = (tt, tt)
    insert_sorted-Ascending x (y ∷ ys) fresh (h, hs) = elim (Bool-cases (lt y x)) [
      | inl e ↦ rw e (All-insert_sorted y x ys e h, insert_sorted-Ascending x ys (ground arith) hs)
      | inr e ↦
          let k : lt x y ≡ true = ground (arith, o.total x y) in
          rw e ((k, All-trans x y ys k h), (h, hs))
    ]

    pub sort-Ascending : (xs : List A) → Distinct xs → Ascending lt (sort lt xs)
    unfolding sort
    sort-Ascending [] _ = tt
    sort-Ascending (x ∷ xs) (fresh, d) =
        insert_sorted-Ascending x (sort lt xs) (contains-sort x xs ∙ fresh) (sort-Ascending xs d)

    irrefl_of_All : (x : A) (xs : List A) → All (λ y. lt x y ≡ true) xs → contains xs x ≡ false
    irrefl_of_All x [] _ = refl
    irrefl_of_All x (y ∷ ys) (h, hs) = ground (arith, irrefl_of_All x ys hs, o.asym x y h)

    lt_of_contains :
        (x a : A) (xs : List A) → All (λ y. lt x y ≡ true) xs → contains xs a ≡ true → lt x a ≡ true
    lt_of_contains x a [] _ h = cc
    lt_of_contains x a (y ∷ ys) (k, ks) h = ground (arith, lt_of_contains x a ys ks)

    same_head :
        (x y : A) (xs ys : List A)
        → All (λ z. lt x z ≡ true) xs
        → All (λ z. lt y z ≡ true) ys
        → ((a : A) → contains (x ∷ xs) a ≡ contains (y ∷ ys) a)
        → x ≡ y
    same_head x y xs ys p q h =
        ground (arith, h x, h y, lt_of_contains y x ys q, lt_of_contains x y xs p, o.asym x y)

    same_tail :
        (x y : A) (xs ys : List A)
        → x ≡ y
        → All (λ z. lt x z ≡ true) xs
        → All (λ z. lt y z ≡ true) ys
        → ((a : A) → contains (x ∷ xs) a ≡ contains (y ∷ ys) a)
        → (a : A) → contains xs a ≡ contains ys a
    same_tail x y xs ys e p q h a = ground (arith, h a, irrefl_of_All x xs p, irrefl_of_All y ys q)

    -- Two ascending lists with the same members are equal.
    pub Ascending-unique :
        (xs ys : List A)
        → Ascending lt xs
        → Ascending lt ys
        → ((a : A) → contains xs a ≡ contains ys a)
        → xs ≡ ys
    Ascending-unique [] [] _ _ _ = refl
    Ascending-unique [] (y ∷ ys) _ _ h = ground (arith, h y)
    Ascending-unique (x ∷ xs) [] _ _ h = ground (arith, h x)
    Ascending-unique (x ∷ xs) (y ∷ ys) (p, ps) (q, qs) h =
        let e = same_head x y xs ys p q h in
        ap₂ ◌∷◌ e (Ascending-unique xs ys ps qs (same_tail x y xs ys e p q h))
