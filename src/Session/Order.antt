-- ===== src/Session/Order.antt =====
-- The loop at the end of `ListByUserID` of both session backends (session/backend/memory/memory.go
-- and session/backend/kvs/kvs.go), which sorts sessions by creation time, oldest first.
pub mod Members
use mathlib.Core.List.{Perm}
use mathlib.Core.List.Perm
use omnistorage_core.Base.{
  ℕ, zero, suc, ◌≤◌, ◌≡◌, refl, List, [], ◌∷◌, arith, ltb, length, All, Bool-cases, if◌then◌else◌,
  inl, inr,
}
use omnistorage_core.Session.{Session}

module _ {D : Type 0} where
  -- One round `i` of the outer loop: `x` stands at `i` and the list behind it. The inner loop swaps
  -- whenever position `j` holds an older session. The result is what stands at `i` after it, and
  -- what stands behind.
  unfoldable pub pass : Session D → List (Session D) → Session D × List (Session D)
  pass x [] = (x, [])
  pass x (y ∷ ys) =
      if ltb y.created_at x.created_at
      then (let (m, r) = pass y ys in (m, x ∷ r))
      else (let (m, r) = pass x ys in (m, y ∷ r))

  -- The outer loop, on fuel for the positions that are left.
  unfoldable pub rounds : ℕ → List (Session D) → List (Session D)
  rounds zero xs = xs
  rounds (suc n) [] = []
  rounds (suc n) (x ∷ xs) = let (m, r) = pass x xs in m ∷ rounds n r

  unfoldable pub sort_by_created : List (Session D) → List (Session D)
  sort_by_created xs = rounds (length xs) xs

  -- Each session is no newer than all behind it.
  abbrev pub IsOldestFirst : List (Session D) → Type 0
  IsOldestFirst [] = Unit
  IsOldestFirst (x ∷ xs) = All (λ y. x.created_at ≤ y.created_at) xs × IsOldestFirst xs

  length-pass : (x : Session D) (ys : List (Session D)) → length (pass x ys).1 ≡ length ys
  unfolding pass
  length-pass x [] = refl
  length-pass x (y ∷ ys) = ground (arith, length-pass x ys, length-pass y ys)

  pass-perm :
      (x : Session D) (ys : List (Session D)) → Perm (x ∷ ys) ((pass x ys).0 ∷ (pass x ys).1)
  unfolding pass
  pass-perm x [] = Perm.refl _
  pass-perm x (y ∷ ys) = elim (Bool-cases (ltb y.created_at x.created_at)) [
    | inl e ↦ rw e (Perm.trans (Perm.cons x (pass-perm y ys)) (Perm.swap _ _ _))
    | inr e ↦
        rw e (
          Perm.trans (Perm.swap _ _ _)
            (Perm.trans (Perm.cons y (pass-perm x ys)) (Perm.swap _ _ _)))
  ]

  pass-le :
      (x : Session D) (ys : List (Session D))
      → ((pass x ys).0.created_at ≤ x.created_at)
        × All (λ y. (pass x ys).0.created_at ≤ y.created_at) (pass x ys).1
  unfolding pass
  pass-le x [] = (omega arith, tt)
  pass-le x (y ∷ ys) = elim (Bool-cases (ltb y.created_at x.created_at)) [
    | inl e ↦ let (m, ms) = pass-le y ys in rw e (ground arith, (ground arith, ms))
    | inr e ↦ let (m, ms) = pass-le x ys in rw e (m, (ground arith, ms))
  ]

  rounds-perm : (n : ℕ) (xs : List (Session D)) → Perm xs (rounds n xs)
  unfolding rounds
  rounds-perm zero xs = Perm.refl xs
  rounds-perm (suc n) [] = Perm.refl []
  rounds-perm (suc n) (x ∷ xs) =
      Perm.trans (pass-perm x xs) (Perm.cons _ (rounds-perm n (pass x xs).1))

  All-cons :
      (b : ℕ) (x : Session D) (xs : List (Session D))
      → b ≤ x.created_at
      → All (λ y. b ≤ y.created_at) xs
      → All (λ y. b ≤ y.created_at) (x ∷ xs)
  All-cons b x xs h hs = (h, hs)

  pass-All :
      (b : ℕ) (x : Session D) (ys : List (Session D))
      → b ≤ x.created_at
      → All (λ y. b ≤ y.created_at) ys
      → (b ≤ (pass x ys).0.created_at) × All (λ y. b ≤ y.created_at) (pass x ys).1
  unfolding pass
  pass-All b x [] h _ = (h, tt)
  pass-All b x (y ∷ ys) h (k, ks) = ground (arith, pass-All b x ys h ks, pass-All b y ys k ks)

  -- A bound below all members of a list is below all members of the list after the rounds.
  rounds-All :
      (b n : ℕ) (xs : List (Session D))
      → All (λ y. b ≤ y.created_at) xs
      → All (λ y. b ≤ y.created_at) (rounds n xs)
  unfolding rounds
  rounds-All b zero xs h = h
  rounds-All b (suc n) [] h = tt
  rounds-All b (suc n) (x ∷ xs) (h, hs) =
      let (k, ks) = pass-All b x xs h hs in (k, rounds-All b n (pass x xs).1 ks)

  rounds-IsOldestFirst :
      (n : ℕ) (xs : List (Session D)) → length xs ≤ n → IsOldestFirst (rounds n xs)
  unfolding rounds
  rounds-IsOldestFirst zero [] h = tt
  rounds-IsOldestFirst zero (x ∷ xs) h = absurd (omega arith)
  rounds-IsOldestFirst (suc n) [] h = tt
  rounds-IsOldestFirst (suc n) (x ∷ xs) h = (
    rounds-All _ n (pass x xs).1 (pass-le x xs).1,
    rounds-IsOldestFirst n (pass x xs).1 (omega (arith, length-pass x xs)),
  )

  -- The loop puts the oldest session first, and keeps each session as often as it was there.
  pub sort_by_created_lem :
      (xs : List (Session D)) → IsOldestFirst (sort_by_created xs) × Perm xs (sort_by_created xs)
  unfolding sort_by_created
  sort_by_created_lem xs =
      (rounds-IsOldestFirst (length xs) xs (omega arith), rounds-perm (length xs) xs)
