-- ===== src/Session/Memory/Invariant.antt =====
-- The invariant of the in-memory session store (session/backend/memory/memory.go): the user index
-- lists exactly the stored sessions, under their users.
use omnistorage_core.Base.{
  ◌≡◌, refl, inl, inr, Bool, true, false, none, some, [], arith, Option-cases, ◌==◌, list_eq,
  nat_eq,
}
use mathlib.Core.Option
use omnistorage_core.Base.Dict
use omnistorage_core.Base.Dict.{Dict, NodupKeys}
use omnistorage_core.Base.Sort.{Distinct}
use omnistorage_core.Base.Text.{Text}
use omnistorage_core.Session
use omnistorage_core.Session.{Session, Error}
use omnistorage_core.Session.Memory
use omnistorage_core.Session.Memory.{
  Store, Ctx, with_ctx, add_id, remove_id, index_session, unindex_session, erase_all, remove_each,
}
use omnistorage_core.Session.Memory.Index.{
  ids_of, listed, listed-index_session, listed-unindex_session, add_id-Distinct, remove_id-Distinct,
  ids_of-index_session, ids_of-unindex_session,
}

module _ (uuid_string : Text → Text) {D : Type 0} where
  -- whether a session of the user is stored under the ID
  abbrev pub owned : Dict Text (Session D) → Text → Text → Bool
  owned d user id = elim (Dict.lookup id d) [
    | none ↦ false
    | some sess ↦ uuid_string sess.user_id == user
  ]

  -- whether the ID of a session is free, or taken by a session of the same user
  abbrev pub same_owner : Dict Text (Session D) → Session D → Bool
  same_owner d sess = elim (Dict.lookup sess.id d) [
    | none ↦ true
    | some old ↦ uuid_string old.user_id == uuid_string sess.user_id
  ]

  -- Maps list no key twice, the index lists no ID twice for a user, an ID is listed for exactly
  -- the user of the session stored under it, and a session is stored under its own ID.
  pub record IsIndexed (s : Store D) : Type 0 where
    pub sessions_distinct : NodupKeys s.sessions
    pub index_distinct : NodupKeys s.user_index
    pub ids_distinct : (user : Text) → Distinct (ids_of s.user_index user)
    pub agrees : (user id : Text) → listed s.user_index user id ≡ owned s.sessions user id
    pub keyed :
        (id : Text)
        → Option.map (λ (sess : Session D). sess.id) (Dict.lookup id s.sessions)
          ≡ Option.map (λ _. id) (Dict.lookup id s.sessions)

  pub empty-IsIndexed : (s : Store D) → s.sessions ≡ [] → s.user_index ≡ [] → IsIndexed s
  unfolding Dict.lookup
  empty-IsIndexed s p q = record {
    sessions_distinct = rw p tt;
    index_distinct = rw q tt;
    ids_distinct = λ user. rw q tt;
    agrees = λ user id. rw (p, q);
    keyed = λ id. rw p;
  }

  delete_session_absent :
      (id : Text) (s : Store D)
      → Dict.lookup id s.sessions ≡ none
      → Memory.delete_session uuid_string id s ≡ s
  unfolding Memory.delete_session
  delete_session_absent id s h = rw (h, Memory.delete_session)

  pub init-IsIndexed : (cfg : Session.Config) → IsIndexed (Memory.init cfg)
  init-IsIndexed cfg = empty-IsIndexed (Memory.init cfg) refl refl

  -- storing a session whose ID is free or belongs to the same user
  module _ (sess : Session D) (s : Store D) (v : IsIndexed s) where
    store_agrees :
        same_owner s.sessions sess ≡ true
        → (user id : Text)
        → listed (index_session (uuid_string sess.user_id) sess.id s.user_index) user id
          ≡ owned (Dict.insert sess.id sess s.sessions) user id
    store_agrees h user id = ground (
      arith,
      listed-index_session (uuid_string sess.user_id) user sess.id id s.user_index,
      Dict.lookup-insert id sess.id sess s.sessions,
      v.agrees user id,
    )

    store_ids :
        (user : Text)
        → Distinct (ids_of (index_session (uuid_string sess.user_id) sess.id s.user_index) user)
    store_ids user = ground (
      arith,
      ids_of-index_session (uuid_string sess.user_id) user sess.id s.user_index,
      add_id-Distinct (ids_of s.user_index (uuid_string sess.user_id)) sess.id
          (v.ids_distinct (uuid_string sess.user_id)),
      v.ids_distinct user,
    )

    store_keyed :
        (id : Text)
        → Option.map
            (λ (x : Session D). x.id)
            (Dict.lookup id (Dict.insert sess.id sess s.sessions))
          ≡ Option.map (λ _. id) (Dict.lookup id (Dict.insert sess.id sess s.sessions))
    store_keyed id = ground (arith, Dict.lookup-insert id sess.id sess s.sessions, v.keyed id)

    index_session-NodupKeys :
        NodupKeys (index_session (uuid_string sess.user_id) sess.id s.user_index)
    unfolding index_session
    index_session-NodupKeys = Dict.insert-NodupKeys _ _ s.user_index v.index_distinct

  pub store-IsIndexed :
      (sess : Session D) (s : Store D)
      → IsIndexed s
      → same_owner s.sessions sess ≡ true
      → IsIndexed (record s {
        sessions = Dict.insert sess.id sess s.sessions;
        user_index = index_session (uuid_string sess.user_id) sess.id s.user_index;
      })
  store-IsIndexed sess s v h = record {
    sessions_distinct = Dict.insert-NodupKeys sess.id sess s.sessions v.sessions_distinct;
    index_distinct = index_session-NodupKeys sess s v;
    ids_distinct = store_ids sess s v;
    agrees = store_agrees sess s v h;
    keyed = store_keyed sess s v;
  }

  -- removing the session that is stored under an ID
  module _ (id : Text) (s : Store D) (v : IsIndexed s) (sess : Session D)
      (stored : Dict.lookup id s.sessions ≡ some sess) where
    removed_agrees :
        (user j : Text)
        → listed (unindex_session (uuid_string sess.user_id) id s.user_index) user j
          ≡ owned (Dict.erase id s.sessions) user j
    removed_agrees user j = ground (
      arith,
      listed-unindex_session (uuid_string sess.user_id) user id j s.user_index,
      Dict.lookup-erase j id s.sessions,
      v.agrees user j,
    )

    removed_ids :
        (user : Text)
        → Distinct (ids_of (unindex_session (uuid_string sess.user_id) id s.user_index) user)
    removed_ids user = ground (
      arith,
      ids_of-unindex_session (uuid_string sess.user_id) user id s.user_index,
      remove_id-Distinct (ids_of s.user_index (uuid_string sess.user_id)) id
          (v.ids_distinct (uuid_string sess.user_id)),
      v.ids_distinct user,
    )

    removed_keyed :
        (j : Text)
        → Option.map (λ (x : Session D). x.id) (Dict.lookup j (Dict.erase id s.sessions))
          ≡ Option.map (λ _. j) (Dict.lookup j (Dict.erase id s.sessions))
    removed_keyed j = ground (arith, Dict.lookup-erase j id s.sessions, v.keyed j)

    unindex_session-NodupKeys :
        NodupKeys (unindex_session (uuid_string sess.user_id) id s.user_index)
    unfolding unindex_session
    unindex_session-NodupKeys = ground (
      arith,
      Dict.insert-NodupKeys (uuid_string sess.user_id)
          (remove_id id (ids_of s.user_index (uuid_string sess.user_id))) s.user_index
          v.index_distinct,
      Dict.erase-NodupKeys (uuid_string sess.user_id) s.user_index v.index_distinct,
      v.index_distinct,
    )

    delete_stored-IsIndexed : IsIndexed (Memory.delete_session uuid_string id s)
    unfolding Memory.delete_session
    delete_stored-IsIndexed =
        rw (stored, Memory.delete_session)
          (record {
            sessions_distinct = Dict.erase-NodupKeys id s.sessions v.sessions_distinct;
            index_distinct = unindex_session-NodupKeys;
            ids_distinct = removed_ids;
            agrees = removed_agrees;
            keyed = removed_keyed;
          })

  pub delete_session-IsIndexed :
      (id : Text) (s : Store D) → IsIndexed s → IsIndexed (Memory.delete_session uuid_string id s)
  delete_session-IsIndexed id s v = elim (Option-cases (Dict.lookup id s.sessions)) [
    | inl gone ↦ rw (delete_session_absent id s gone) v
    | inr (sess, stored) ↦ delete_stored-IsIndexed id s v sess stored
  ]

  -- replacing a stored session by one with the same ID and user
  module _ (id : Text) (new : Session D) (s : Store D) (v : IsIndexed s) where
    pub replace-IsIndexed :
        new.id ≡ id
        → ((user : Text) → owned s.sessions user id ≡ (uuid_string new.user_id == user))
        → IsIndexed (record s { sessions = Dict.insert id new s.sessions })
    replace-IsIndexed same h = record {
      sessions_distinct = Dict.insert-NodupKeys id new s.sessions v.sessions_distinct;
      index_distinct = v.index_distinct;
      ids_distinct = v.ids_distinct;
      agrees =
          λ user j. ground (arith, Dict.lookup-insert j id new s.sessions, v.agrees user j, h user);
      keyed = λ j. ground (arith, Dict.lookup-insert j id new s.sessions, v.keyed j);
    }
