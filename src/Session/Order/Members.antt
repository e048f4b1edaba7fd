-- ===== src/Session/Order/Members.antt =====
-- What the sorting loop of `ListByUserID` keeps (session/backend/memory/memory.go).
use omnistorage_core.Base.{
  ℕ, zero, suc, ◌≡◌, refl, ◌∙◌, inl, inr, ◌||◌, List, [], ◌∷◌, arith, ltb, Bool-cases, ◌==◌,
  contains, list_eq, nat_eq, length, All,
}
use omnistorage_core.Base.Sort.{Distinct}
use omnistorage_core.Base.Text.{Text}
use omnistorage_core.Session.{Session}
use omnistorage_core.Session.Order.{pass, rounds, sort_by_created}

module _ {D : Type 0} where
  -- the IDs of a list of sessions
  abbrev pub session_ids : List (Session D) → List Text
  session_ids [] = []
  session_ids (x ∷ xs) = x.id ∷ session_ids xs

  contains-pass :
      (x : Session D) (ys : List (Session D)) (j : Text)
      → (j == (pass x ys).0.id || contains (session_ids (pass x ys).1) j)
        ≡ (j == x.id || contains (session_ids ys) j)
  unfolding pass
  contains-pass x [] j = refl
  contains-pass x (y ∷ ys) j = ground (arith, contains-pass x ys j, contains-pass y ys j)

  pass-Distinct :
      (x : Session D) (ys : List (Session D))
      → Distinct (session_ids (x ∷ ys))
      → Distinct (session_ids ((pass x ys).0 ∷ (pass x ys).1))
  unfolding pass
  pass-Distinct x [] d = d
  pass-Distinct x (y ∷ ys) (f, (g, d)) = elim (Bool-cases (ltb y.created_at x.created_at)) [
    | inl e ↦
        let k = contains-pass y ys x.id in
        let (a, b) = pass-Distinct y ys (g, d) in rw e (ground arith, (ground arith, b))
    | inr e ↦
        let k = contains-pass x ys y.id in
        let (a, b) = pass-Distinct x ys (ground arith, d) in rw e (ground arith, (ground arith, b))
  ]

  contains-rounds :
      (n : ℕ) (xs : List (Session D)) (j : Text)
      → contains (session_ids (rounds n xs)) j ≡ contains (session_ids xs) j
  unfolding rounds
  contains-rounds zero xs j = refl
  contains-rounds (suc n) [] j = refl
  contains-rounds (suc n) (x ∷ xs) j =
      ground (arith, contains-rounds n (pass x xs).1 j, contains-pass x xs j)

  rounds-Distinct :
      (n : ℕ) (xs : List (Session D))
      → Distinct (session_ids xs)
      → Distinct (session_ids (rounds n xs))
  unfolding rounds
  rounds-Distinct zero xs d = d
  rounds-Distinct (suc n) [] d = tt
  rounds-Distinct (suc n) (x ∷ xs) d =
      let (a, b) = pass-Distinct x xs d in
      (contains-rounds n (pass x xs).1 (pass x xs).0.id ∙ a, rounds-Distinct n (pass x xs).1 b)

  module _ (P : Session D → Type 0) where
    pass-All_of :
        (x : Session D) (ys : List (Session D))
        → P x
        → All P ys
        → P (pass x ys).0 × All P (pass x ys).1
    unfolding pass
    pass-All_of x [] h _ = (h, tt)
    pass-All_of x (y ∷ ys) h (k, ks) = elim (Bool-cases (ltb y.created_at x.created_at)) [
      | inl e ↦ let (a, b) = pass-All_of y ys k ks in rw e (a, (h, b))
      | inr e ↦ let (a, b) = pass-All_of x ys h ks in rw e (a, (k, b))
    ]

    rounds-All_of : (n : ℕ) (xs : List (Session D)) → All P xs → All P (rounds n xs)
    unfolding rounds
    rounds-All_of zero xs h = h
    rounds-All_of (suc n) [] h = tt
    rounds-All_of (suc n) (x ∷ xs) (h, hs) =
        let (a, b) = pass-All_of x xs h hs in (a, rounds-All_of n (pass x xs).1 b)

    pub sort_by_created-All : (xs : List (Session D)) → All P xs → All P (sort_by_created xs)
    unfolding sort_by_created
    sort_by_created-All xs h = rounds-All_of (length xs) xs h

  pub contains-sort_by_created :
      (xs : List (Session D)) (j : Text)
      → contains (session_ids (sort_by_created xs)) j ≡ contains (session_ids xs) j
  unfolding sort_by_created
  contains-sort_by_created xs j = contains-rounds (length xs) xs j

  pub sort_by_created-Distinct :
      (xs : List (Session D))
      → Distinct (session_ids xs)
      → Distinct (session_ids (sort_by_created xs))
  unfolding sort_by_created
  sort_by_created-Distinct xs d = rounds-Distinct (length xs) xs d
