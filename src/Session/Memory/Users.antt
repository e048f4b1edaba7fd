-- ===== src/Session/Memory/Users.antt =====
-- `ListByUserID` and `DeleteByUserID` of the in-memory session store
-- (session/backend/memory/memory.go) against the stored sessions.
use omnistorage_core.Base.{
  ℕ, ◌+◌, ◌≡◌, refl, ◌∙◌, inl, inr, true, false, ◌&&◌, none, some, List, [], ◌∷◌, arith,
  if◌then◌else◌, Option-cases, contains, list_eq, nat_eq, length, All, ok, err,
}
use mathlib.Core.Option
use omnistorage_core.Base.Dict
use omnistorage_core.Base.Dict.{Dict, NodupKeys}
use omnistorage_core.Base.Sort.{Distinct}
use omnistorage_core.Base.Text.{Text}
use omnistorage_core.Session.{Session, sentinel, Sentinel}
use omnistorage_core.Session.Order.{rounds, sort_by_created, IsOldestFirst, sort_by_created_lem}
use omnistorage_core.Session.Order.Members.{
  session_ids, sort_by_created-All, contains-sort_by_created, sort_by_created-Distinct,
}
use omnistorage_core.Session.Memory.{Store, erase_all, collect, list_by_user_id, delete_by_user_id}
use omnistorage_core.Session.Memory.Index.{ids_of}
use omnistorage_core.Session.Memory.Invariant.{owned, IsIndexed}
use omnistorage_core.Session.Memory.Calls.{lookup-erase_all}

module _ {D : Type 0} where
  sort_nil : sort_by_created {D = D} [] ≡ []
  unfolding sort_by_created rounds
  sort_nil = refl

  -- The IDs of the collected sessions are the listed IDs that are stored.
  contains-collect :
      (ids : List Text) (d : Dict Text (Session D)) (j : Text)
      → ((id : Text)
          → Option.map (λ (x : Session D). x.id) (Dict.lookup id d)
            ≡ Option.map (λ _. id) (Dict.lookup id d))
      → contains (session_ids (collect ids d)) j
        ≡ (contains ids j && Dict.is_some (Dict.lookup j d))
  unfolding collect
  contains-collect [] d j keyed = refl
  contains-collect (id ∷ ids) d j keyed = ground (arith, contains-collect ids d j keyed, keyed id)

  collect-Distinct :
      (ids : List Text) (d : Dict Text (Session D))
      → ((id : Text)
          → Option.map (λ (x : Session D). x.id) (Dict.lookup id d)
            ≡ Option.map (λ _. id) (Dict.lookup id d))
      → Distinct ids
      → Distinct (session_ids (collect ids d))
  unfolding collect
  collect-Distinct [] d keyed _ = tt
  collect-Distinct (id ∷ ids) d keyed (f, u) =
      ground (arith, collect-Distinct ids d keyed u, contains-collect ids d id keyed, keyed id)

  collect-All :
      (ids : List Text) (d : Dict Text (Session D))
      → ((id : Text)
          → Option.map (λ (x : Session D). x.id) (Dict.lookup id d)
            ≡ Option.map (λ _. id) (Dict.lookup id d))
      → All (λ (x : Session D). Dict.lookup x.id d ≡ some x) (collect ids d)
  unfolding collect
  collect-All [] d keyed = tt
  collect-All (id ∷ ids) d keyed = elim (Option-cases (Dict.lookup id d)) [
    | inl gone ↦ rw (gone, collect) (collect-All ids d keyed)
    | inr (sess, stored) ↦ rw (stored, collect) (head sess stored, collect-All ids d keyed)
  ]
    where
      head : (sess : Session D) → Dict.lookup id d ≡ some sess → Dict.lookup sess.id d ≡ some sess
      head sess stored = ground (arith, keyed id)

  erase_absent :
      (id : Text) (d : Dict Text (Session D)) → Dict.lookup id d ≡ none → Dict.erase id d ≡ d
  unfolding Dict.erase Dict.lookup
  erase_absent id [] h = refl
  erase_absent id ((j, x) ∷ d) h = ground (arith, erase_absent id d)

  length-erase :
      (id : Text) (d : Dict Text (Session D))
      → NodupKeys d
      → Dict.is_some (Dict.lookup id d) ≡ true
      → length (Dict.erase id d) + 1 ≡ length d
  unfolding Dict.erase Dict.lookup
  length-erase id [] u h = cc
  length-erase id ((j, x) ∷ d) (f, u) h = ground (arith, length-erase id d u, erase_absent id d)

  length-erase_all :
      (ids : List Text) (d : Dict Text (Session D))
      → NodupKeys d
      → Distinct ids
      → ((id : Text) → contains ids id ≡ true → Dict.is_some (Dict.lookup id d) ≡ true)
      → length (erase_all ids d) + length ids ≡ length d
  unfolding erase_all
  length-erase_all [] d u h k = omega arith
  length-erase_all (id ∷ ids) d u (f, h) k =
      let still : (j : Text)
          → contains ids j ≡ true
          → Dict.is_some (Dict.lookup j (Dict.erase id d)) ≡ true =
        λ j m. ground (arith, k j, Dict.lookup-erase j id d) in
      omega (
        arith,
        length-erase id d u (k id (ground arith)),
        length-erase_all ids (Dict.erase id d) (Dict.erase-NodupKeys id d u) h still,
      )

  pub delete_result :
      (user : Text) (s : Store D)
      → s.is_closed ≡ false
      → ((delete_by_user_id none user s).1 ≡ ok (length (ids_of s.user_index user)))
        × ((delete_by_user_id none user s).0.sessions
            ≡ erase_all (ids_of s.user_index user) s.sessions)
  unfolding delete_by_user_id erase_all
  delete_result user s alive = elim (Option-cases (Dict.lookup user s.user_index)) [
    | inl gone ↦ ground arith
    | inr (ids, found) ↦ ground arith
  ]

module _ (uuid_string : Text → Text) {D : Type 0} (user : Text) (s : Store D)
    (v : IsIndexed uuid_string s) where
  list_result : list_by_user_id none user s ≡ (
      if s.is_closed
      then err (sentinel Sentinel.closed)
      else ok (sort_by_created (collect (ids_of s.user_index user) s.sessions)))
  unfolding list_by_user_id collect
  list_result = elim (Option-cases (Dict.lookup user s.user_index)) [
    | inl gone ↦ ground (arith, sort_nil {D = D})
    | inr (ids, found) ↦ ground arith
  ]

  -- On an open store whose invariant holds, `ListByUserID` returns the sessions stored for the
  -- user, each as it is stored, all of them, none twice, and oldest first.
  pub list_by_user_id_lem :
      s.is_closed ≡ false
      → (xs : List (Session D)) × (list_by_user_id none user s ≡ ok xs)
        × IsOldestFirst xs
        × All (λ x. Dict.lookup x.id s.sessions ≡ some x) xs
        × Distinct (session_ids xs)
        × ((id : Text) → contains (session_ids xs) id ≡ owned uuid_string s.sessions user id)
  list_by_user_id_lem alive =
      let ids = ids_of s.user_index user in
      let found = collect ids s.sessions in
      (
        sort_by_created found,
        list_result ∙ rw alive,
        (sort_by_created_lem found).0,
        sort_by_created-All _ found (collect-All ids s.sessions v.keyed),
        sort_by_created-Distinct found
            (collect-Distinct ids s.sessions v.keyed (v.ids_distinct user)),
        λ id.
            contains-sort_by_created found id
            ∙ contains-collect ids s.sessions id v.keyed
            ∙ ground (arith, v.agrees user id),
      )

  -- On an open store whose invariant holds, `DeleteByUserID` removes the sessions of the user, all
  -- of them and no others, and returns how many they were.
  pub delete_by_user_id_lem :
      s.is_closed ≡ false
      → let after = (delete_by_user_id none user s).0 in
        (n : ℕ) × ((delete_by_user_id none user s).1 ≡ ok n)
        × (length after.sessions + n ≡ length s.sessions)
        × ((id : Text)
            → Dict.lookup id after.sessions
              ≡ (if owned uuid_string s.sessions user id then none else Dict.lookup id s.sessions))
  delete_by_user_id_lem alive =
      let (result, left) = delete_result user s alive in
      let ids = ids_of s.user_index user in
      (
        length ids,
        result,
        rw left (
            length-erase_all ids s.sessions v.sessions_distinct (v.ids_distinct user)
              (λ id m. ground (arith, v.agrees user id))),
        λ id.
            rw left
              (ground (arith, lookup-erase_all uuid_string id ids s.sessions, v.agrees user id)),
      )
