-- ===== src/Session/Memory/Calls.antt =====
-- Calls of the in-memory session store (session/backend/memory/memory.go) keep its invariant.
use omnistorage_core.Base.{
  ℕ, ◌+◌, ◌≡◌, refl, inl, inr, Bool, true, Option, none, some, List, [], ◌∷◌, arith, if◌then◌else◌,
  Option-cases, contains, list_eq, nat_eq,
}
use omnistorage_core.Base.Dict
use omnistorage_core.Base.Dict.{Dict, NodupKeys}
use omnistorage_core.Base.Text.{Text}
use omnistorage_core.Session.{Session}
use omnistorage_core.Session.Memory
use omnistorage_core.Session.Memory.{Store, Ctx, with_ctx, erase_all, remove_each}
use omnistorage_core.Session.Memory.Index.{ids_of, listed}
use omnistorage_core.Session.Memory.Invariant.{
  same_owner, IsIndexed, store-IsIndexed, replace-IsIndexed, delete_session-IsIndexed,
  empty-IsIndexed, owned,
}

-- A call of a method, or a tick of the goroutine `cleanup`. `expire` is the second half of a `Get`
-- that found its session expired: it takes the mutex again, so that other calls may run before it.
pub data Call (D : Type 0) : Type 0 where
  create : Ctx → Option (Session D) → Call D
  get : Ctx → ℕ → Text → Call D
  update : Ctx → ℕ → Option (Session D) → Call D
  delete : Ctx → Text → Call D
  delete_by_user_id : Ctx → Text → Call D
  touch : Ctx → ℕ → Text → Call D
  close : Call D
  cleanup : ℕ → Call D
  expire : Text → Call D

module _ (uuid_string : Text → Text) {D : Type 0} where
  unfoldable pub after : Call D → Store D → Store D
  after (Call.create ctx sess) s = (Memory.create uuid_string ctx sess s).0
  after (Call.get ctx now id) s = (Memory.get uuid_string ctx now id s).0
  after (Call.update ctx now sess) s = (Memory.update ctx now sess s).0
  after (Call.delete ctx id) s = (Memory.delete uuid_string ctx id s).0
  after (Call.delete_by_user_id ctx user) s = (Memory.delete_by_user_id ctx user s).0
  after (Call.touch ctx now id) s = (Memory.touch ctx now id s).0
  after Call.close s = Memory.close s
  after (Call.cleanup now) s = Memory.remove_expired uuid_string now s
  after (Call.expire id) s = Memory.delete_session uuid_string id s

  -- Whether a call leaves every stored session with its user: a session that is created or updated
  -- has a free ID, or the user that the stored one has.
  abbrev pub keeps_owner : Call D → Store D → Bool
  keeps_owner (Call.create ctx (some sess)) s = same_owner uuid_string s.sessions sess
  keeps_owner (Call.update ctx now (some sess)) s = same_owner uuid_string s.sessions sess
  keeps_owner _ s = true

  create-IsIndexed :
      (ctx : Ctx) (sess : Session D) (s : Store D)
      → IsIndexed uuid_string s
      → same_owner uuid_string s.sessions sess ≡ true
      → IsIndexed uuid_string (Memory.create uuid_string ctx (some sess) s).0
  unfolding Memory.create
  create-IsIndexed (some e) sess s v h = v
  create-IsIndexed none sess s v h = ground (arith, v, store-IsIndexed uuid_string sess s v h)

  get-IsIndexed :
      (ctx : Ctx) (now : ℕ) (id : Text) (s : Store D)
      → IsIndexed uuid_string s
      → IsIndexed uuid_string (Memory.get uuid_string ctx now id s).0
  unfolding Memory.get
  get-IsIndexed (some e) now id s v = v
  get-IsIndexed none now id s v = ground (arith, v, delete_session-IsIndexed uuid_string id s v)

  update_stored :
      (now : ℕ) (sess old : Session D) (s : Store D)
      → IsIndexed uuid_string s
      → Dict.lookup sess.id s.sessions ≡ some old
      → same_owner uuid_string s.sessions sess ≡ true
      → IsIndexed uuid_string (record s {
        sessions = Dict.insert sess.id (record sess { updated_at = now }) s.sessions;
      })
  update_stored now sess old s v stored h =
      replace-IsIndexed uuid_string sess.id _ s v refl (λ user. ground arith)

  update-IsIndexed :
      (ctx : Ctx) (now : ℕ) (sess : Session D) (s : Store D)
      → IsIndexed uuid_string s
      → same_owner uuid_string s.sessions sess ≡ true
      → IsIndexed uuid_string (Memory.update ctx now (some sess) s).0
  unfolding Memory.update
  update-IsIndexed (some e) now sess s v h = v
  update-IsIndexed none now sess s v h = elim (Option-cases (Dict.lookup sess.id s.sessions)) [
    | inl gone ↦ ground (arith, v)
    | inr (old, stored) ↦ ground (arith, v, update_stored now sess old s v stored h)
  ]

  touch_stored :
      (now : ℕ) (id : Text) (old : Session D) (s : Store D)
      → IsIndexed uuid_string s
      → Dict.lookup id s.sessions ≡ some old
      → IsIndexed uuid_string (record s {
        sessions = Dict.insert id (record old { last_accessed_at = now }) s.sessions;
      })
  touch_stored now id old s v stored =
      replace-IsIndexed uuid_string id _ s v (ground (arith, v.keyed id)) (λ user. ground arith)

  touch-IsIndexed :
      (ctx : Ctx) (now : ℕ) (id : Text) (s : Store D)
      → IsIndexed uuid_string s
      → IsIndexed uuid_string (Memory.touch ctx now id s).0
  unfolding Memory.touch
  touch-IsIndexed (some e) now id s v = v
  touch-IsIndexed none now id s v = elim (Option-cases (Dict.lookup id s.sessions)) [
    | inl gone ↦ ground (arith, v)
    | inr (old, stored) ↦ ground (arith, v, touch_stored now id old s v stored)
  ]

  delete-IsIndexed :
      (ctx : Ctx) (id : Text) (s : Store D)
      → IsIndexed uuid_string s
      → IsIndexed uuid_string (Memory.delete uuid_string ctx id s).0
  unfolding Memory.delete
  delete-IsIndexed (some e) id s v = v
  delete-IsIndexed none id s v = ground (arith, v, delete_session-IsIndexed uuid_string id s v)

  close-IsIndexed : (s : Store D) → IsIndexed uuid_string s → IsIndexed uuid_string (Memory.close s)
  unfolding Memory.close
  close-IsIndexed s v = ground (
    arith,
    v,
    empty-IsIndexed uuid_string
        (record s {
          sessions = [];
          user_index = [];
          is_closed = true;
          stop_signals = s.stop_signals + 1;
        })
        refl refl,
  )

  remove_each-IsIndexed :
      (now : ℕ) (entries : Dict Text (Session D)) (s : Store D)
      → IsIndexed uuid_string s
      → IsIndexed uuid_string (remove_each uuid_string now entries s)
  unfolding remove_each
  remove_each-IsIndexed now [] s v = v
  remove_each-IsIndexed now ((id, sess) ∷ rest) s v =
      remove_each-IsIndexed now rest _
        (ground (arith, v, delete_session-IsIndexed uuid_string id s v))

  remove_expired-IsIndexed :
      (now : ℕ) (s : Store D)
      → IsIndexed uuid_string s
      → IsIndexed uuid_string (Memory.remove_expired uuid_string now s)
  unfolding Memory.remove_expired
  remove_expired-IsIndexed now s v = ground (arith, v, remove_each-IsIndexed now s.sessions s v)

  pub lookup-erase_all :
      (j : Text) (ids : List Text) (d : Dict Text (Session D))
      → Dict.lookup j (erase_all ids d) ≡ (if contains ids j then none else Dict.lookup j d)
  unfolding erase_all
  lookup-erase_all j [] d = refl
  lookup-erase_all j (id ∷ ids) d =
      ground (arith, lookup-erase_all j ids (Dict.erase id d), Dict.lookup-erase j id d)

  erase_all-NodupKeys :
      (ids : List Text) (d : Dict Text (Session D)) → NodupKeys d → NodupKeys (erase_all ids d)
  unfolding erase_all
  erase_all-NodupKeys [] d u = u
  erase_all-NodupKeys (id ∷ ids) d u = erase_all-NodupKeys ids _ (Dict.erase-NodupKeys id d u)

  module _ (user : Text) (s : Store D) (v : IsIndexed uuid_string s) where
    user_agrees :
        (other j : Text)
        → listed (Dict.erase user s.user_index) other j
          ≡ owned uuid_string (erase_all (ids_of s.user_index user) s.sessions) other j
    user_agrees other j = ground (
      arith,
      Dict.lookup-erase other user s.user_index,
      lookup-erase_all j (ids_of s.user_index user) s.sessions,
      v.agrees other j,
      v.agrees user j,
    )

    erase_user-IsIndexed : IsIndexed uuid_string (record s {
      sessions = erase_all (ids_of s.user_index user) s.sessions;
      user_index = Dict.erase user s.user_index;
    })
    erase_user-IsIndexed = record {
      sessions_distinct = erase_all-NodupKeys _ s.sessions v.sessions_distinct;
      index_distinct = Dict.erase-NodupKeys user s.user_index v.index_distinct;
      ids_distinct =
          λ other. ground (arith, Dict.lookup-erase other user s.user_index, v.ids_distinct other);
      agrees = user_agrees;
      keyed =
          λ j. ground (arith, lookup-erase_all j (ids_of s.user_index user) s.sessions, v.keyed j);
    }

  delete_by_user_id-IsIndexed :
      (ctx : Ctx) (user : Text) (s : Store D)
      → IsIndexed uuid_string s
      → IsIndexed uuid_string (Memory.delete_by_user_id ctx user s).0
  unfolding Memory.delete_by_user_id
  delete_by_user_id-IsIndexed (some e) user s v = v
  delete_by_user_id-IsIndexed none user s v = elim (Option-cases (Dict.lookup user s.user_index)) [
    | inl gone ↦ ground (arith, v)
    | inr (ids, found) ↦ ground (arith, v, rw found at (erase_user-IsIndexed user s v))
  ]

  -- Every call of the store, every cleanup tick and every late removal by a `Get` keeps the
  -- invariant: the index lists, for each user and once, exactly the IDs of the stored sessions of
  -- that user. A call of `Create` or `Update` is one whose session has a free ID or the user of the
  -- session stored under it.
  pub after-IsIndexed :
      (c : Call D) (s : Store D)
      → IsIndexed uuid_string s
      → keeps_owner c s ≡ true
      → IsIndexed uuid_string (after c s)
  unfolding after Memory.create Memory.update
  after-IsIndexed (Call.create ctx (some sess)) s v h = create-IsIndexed ctx sess s v h
  after-IsIndexed (Call.create (some e) none) s v h = v
  after-IsIndexed (Call.create none none) s v h = v
  after-IsIndexed (Call.get ctx now id) s v h = get-IsIndexed ctx now id s v
  after-IsIndexed (Call.update ctx now (some sess)) s v h = update-IsIndexed ctx now sess s v h
  after-IsIndexed (Call.update (some e) now none) s v h = v
  after-IsIndexed (Call.update none now none) s v h = v
  after-IsIndexed (Call.delete ctx id) s v h = delete-IsIndexed ctx id s v
  after-IsIndexed (Call.delete_by_user_id ctx user) s v h = delete_by_user_id-IsIndexed ctx user s v
  after-IsIndexed (Call.touch ctx now id) s v h = touch-IsIndexed ctx now id s v
  after-IsIndexed Call.close s v h = close-IsIndexed s v
  after-IsIndexed (Call.cleanup now) s v h = remove_expired-IsIndexed now s v
  after-IsIndexed (Call.expire id) s v h = delete_session-IsIndexed uuid_string id s v
