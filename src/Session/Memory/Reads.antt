-- ===== src/Session/Memory/Reads.antt =====
-- What can be read from the in-memory session store (session/backend/memory/memory.go) after a
-- call, and where a call does something else than its documentation says.
use omnistorage_core.Base.{
  ℕ, ◌≡◌, refl, ◌≢◌, Bool, true, false, ◌&&◌, ◌||◌, Option, none, some, [], ◌∷◌, arith,
  if◌then◌else◌, ◌==◌, contains, list_eq, nat_eq, ok, err,
}
use omnistorage_core.Base.Dict
use omnistorage_core.Base.Dict.{Dict, NodupKeys}
use omnistorage_core.Base.Text.{Text}
use omnistorage_core.Session
use omnistorage_core.Session.{Session, Error, sentinel, Sentinel}
use omnistorage_core.Session.Memory
use omnistorage_core.Session.Memory.{
  Store, Ctx, with_ctx, erase_all, collect, list_by_user_id, delete_by_user_id, index_session,
  remove_each,
}
use omnistorage_core.Session.Memory.Index.{ids_of, listed-index_session}
use omnistorage_core.Session.Memory.Invariant.{IsIndexed}
use omnistorage_core.Session.Memory.Calls.{lookup-erase_all}
use omnistorage_core.Session.Memory.Users.{delete_result}

-- whether a session is there, and expired
abbrev pub is_lapsed : {D : Type 0} → ℕ → Option (Session D) → Bool
is_lapsed now none = false
is_lapsed now (some sess) = Session.is_expired now sess

-- whether an expired session is listed under the ID
abbrev any_lapsed : {D : Type 0} → ℕ → Text → Dict Text (Session D) → Bool
any_lapsed now id [] = false
any_lapsed now id ((j, sess) ∷ d) = (id == j && Session.is_expired now sess) || any_lapsed now id d

any_lapsed_fresh :
    {D : Type 0} (now : ℕ) (id : Text) (d : Dict Text (Session D))
    → Dict.lookup id d ≡ none
    → any_lapsed now id d ≡ false
unfolding Dict.lookup
any_lapsed_fresh now id [] h = refl
any_lapsed_fresh now id ((j, sess) ∷ d) h = ground (arith, any_lapsed_fresh now id d)

any_lapsed-lookup :
    {D : Type 0} (now : ℕ) (id : Text) (d : Dict Text (Session D))
    → NodupKeys d
    → any_lapsed now id d ≡ is_lapsed now (Dict.lookup id d)
unfolding Dict.lookup
any_lapsed-lookup now id [] u = refl
any_lapsed-lookup now id ((j, sess) ∷ d) (f, u) =
    ground (arith, any_lapsed-lookup now id d u, any_lapsed_fresh now id d)

module _ (uuid_string : Text → Text) {D : Type 0} where
  -- After a `Create` of a session with an ID on an open store, a `Get` of the session's ID returns the session until it
  -- expires, and the answer to a `Get` of any other ID is what it was.
  pub get-create :
      (now : ℕ) (sess : Session D) (id : Text) (s : Store D)
      → s.is_closed ≡ false
      → sess.id ≢ []
      → (Memory.get uuid_string none now id (Memory.create uuid_string none (some sess) s).0).1 ≡ (
          if id == sess.id
          then if Session.is_expired now sess then err (sentinel Sentinel.expired) else ok sess
          else (Memory.get uuid_string none now id s).1)
  unfolding Memory.get Memory.create
  get-create now sess id s alive named =
      ground (arith, Dict.lookup-insert id sess.id sess s.sessions)

  -- A `Get` on an open store that finds its session expired removes it; otherwise it removes none.
  pub lookup-get :
      (now : ℕ) (id other : Text) (s : Store D)
      → s.is_closed ≡ false
      → Dict.lookup other (Memory.get uuid_string none now id s).0.sessions ≡ (
          if other == id && is_lapsed now (Dict.lookup id s.sessions)
          then none
          else Dict.lookup other s.sessions)
  unfolding Memory.get Memory.delete_session
  lookup-get now id other s alive = ground (arith, Dict.lookup-erase other id s.sessions)

  lookup-delete_session :
      (id other : Text) (s : Store D)
      → Dict.lookup other (Memory.delete_session uuid_string id s).sessions
        ≡ (if other == id then none else Dict.lookup other s.sessions)
  unfolding Memory.delete_session
  lookup-delete_session id other s = ground (arith, Dict.lookup-erase other id s.sessions)

  lookup-remove_each :
      (now : ℕ) (entries : Dict Text (Session D)) (other : Text) (s : Store D)
      → Dict.lookup other (remove_each uuid_string now entries s).sessions
        ≡ (if any_lapsed now other entries then none else Dict.lookup other s.sessions)
  unfolding remove_each
  lookup-remove_each now [] other s = refl
  lookup-remove_each now ((id, sess) ∷ rest) other s = ground (
    arith,
    lookup-remove_each now rest other
        (if Session.is_expired now sess then Memory.delete_session uuid_string id s else s),
    lookup-delete_session id other s,
  )

  -- A cleanup tick on an open store that lists no ID twice removes exactly the expired sessions.
  pub lookup-remove_expired :
      (now : ℕ) (id : Text) (s : Store D)
      → s.is_closed ≡ false
      → NodupKeys s.sessions
      → Dict.lookup id (Memory.remove_expired uuid_string now s).sessions
        ≡ (if is_lapsed now (Dict.lookup id s.sessions) then none else Dict.lookup id s.sessions)
  unfolding Memory.remove_expired
  lookup-remove_expired now id s alive u =
      ground (arith, lookup-remove_each now s.sessions id s, any_lapsed-lookup now id s.sessions u)

  -- Once an open store has been closed, `Create`, `Update`, `Delete`, `DeleteByUserID`, `Touch` and
  -- `ListByUserID` fail with `ErrClosed`, but `Get` fails with `ErrNotFound`, whatever the ID. The
  -- session that is created or updated has an ID, and no context is cancelled.
  pub closed_replies :
      (now : ℕ) (sess : Session D) (id user : Text) (s : Store D)
      → s.is_closed ≡ false
      → sess.id ≢ []
      → let t = Memory.close s in
        ((Memory.get uuid_string none now id t).1 ≡ err (sentinel Sentinel.not_found))
        × ((Memory.create uuid_string none (some sess) t).1 ≡ err (sentinel Sentinel.closed))
        × ((Memory.update none now (some sess) t).1 ≡ err (sentinel Sentinel.closed))
        × ((Memory.delete uuid_string none id t).1 ≡ err (sentinel Sentinel.closed))
        × ((Memory.delete_by_user_id none user t).1 ≡ err (sentinel Sentinel.closed))
        × ((Memory.touch none now id t).1 ≡ err (sentinel Sentinel.closed))
        × (Memory.list_by_user_id none user t ≡ err (sentinel Sentinel.closed))
  unfolding Memory.close Memory.get Memory.create Memory.update Memory.delete
      Memory.delete_by_user_id Memory.touch Memory.list_by_user_id Dict.lookup
  closed_replies now sess id user s alive named = ground arith

  create_fields :
      (new : Session D) (s : Store D)
      → s.is_closed ≡ false
      → new.id ≢ []
      → let t = (Memory.create uuid_string none (some new) s).0 in
        (t.sessions ≡ Dict.insert new.id new s.sessions)
        × (t.user_index ≡ index_session (uuid_string new.user_id) new.id s.user_index)
        × (t.is_closed ≡ false)
  unfolding Memory.create
  create_fields new s alive named = ground arith

  -- On an open store whose invariant holds, a `Create` that takes over the ID of another user's session leaves the ID in that user's index:
  -- a `DeleteByUserID` of the old user then removes the new user's session.
  pub create_taken_over :
      (old new : Session D) (s : Store D)
      → s.is_closed ≡ false
      → new.id ≢ []
      → IsIndexed uuid_string s
      → Dict.lookup new.id s.sessions ≡ some old
      → uuid_string old.user_id ≢ uuid_string new.user_id
      → let t = (Memory.create uuid_string none (some new) s).0 in
        (Dict.lookup new.id t.sessions ≡ some new)
        × (Dict.lookup new.id (delete_by_user_id none (uuid_string old.user_id) t).0.sessions
            ≡ none)
  create_taken_over old new s alive named v stored other =
      let user = uuid_string old.user_id in
      let t = (Memory.create uuid_string none (some new) s).0 in
      let (sessions, index, open_t) = create_fields new s alive named in
      let still : contains (ids_of t.user_index user) new.id ≡ true = rw index (
        ground (
          arith,
          listed-index_session (uuid_string new.user_id) user new.id new.id s.user_index,
          v.agrees user new.id,
        )) in
      (
        rw sessions (ground (arith, Dict.lookup-insert new.id new.id new s.sessions)),
        rw (delete_result user t open_t).1 (
            ground
              (arith, lookup-erase_all uuid_string new.id (ids_of t.user_index user) t.sessions)),
      )
