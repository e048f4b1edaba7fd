-- ===== src/Session/Kvs/Abstract.antt =====
-- What the session store of session/backend/kvs/kvs.go promises of single sessions: a map from IDs to
-- sessions, without indexes and without a key-value store.
use omnistorage_core.Base.{
  ℕ, not, Option, none, some, List, [], ◌∷◌, if◌then◌else◌, ◌==◌, list_eq, nat_eq, Result, ok, err,
}
use omnistorage_core.Base.Text.{Text}
use omnistorage_core.Session
use omnistorage_core.Session.{Session, Error, Sentinel, sentinel}
use omnistorage_core.Session.Ids.{valid_session_id}
use omnistorage_core.Session.Kvs.{Codec}

-- A call of a method, or a tick of the goroutine `cleanup`; the calls of other methods are left out.
pub data Call (D : Type 0) : Type 0 where
  create : ℕ → Option (Session D) → Call D
  get : ℕ → Text → Call D
  update : ℕ → Option (Session D) → Call D
  delete : Text → Call D
  touch : ℕ → Text → Call D
  cleanup : Call D

pub data Reply (D : Type 0) : Type 0 where
  done : Result Error (Unit {0}) → Reply D
  session : Result Error (Session D) → Reply D
  ticked : Reply D

abbrev pub Sessions : Type 0 → Type 0
Sessions D = Text → Option (Session D)

-- the map with another entry at an ID
abbrev pub change : {D : Type 0} → Text → Option (Session D) → Sessions D → Sessions D
change id o m j = if j == id then o else m j

module _ {D : Type 0} where
  unfoldable pub get_in : ℕ → Text → Sessions D → Sessions D × Result Error (Session D)
  get_in now id m =
      if not (valid_session_id id) then (m, err (sentinel Sentinel.not_found)) else elim (m id) [
        | none ↦ (m, err (sentinel Sentinel.not_found))
        | some x ↦
            if Session.is_expired now x
            then (change id none m, err (sentinel Sentinel.expired))
            else (m, ok x)
      ]

  unfoldable pub delete_in : Text → Sessions D → Sessions D
  delete_in id m = if valid_session_id id then change id none m else m

-- `read_back` is what becomes of a session on its way through JSON.
module _ {D : Type 0} (codec : Codec D) (read_back : Session D → Session D) where
  unfoldable pub put : {A : Type 0} → Session D → A → Sessions D → Sessions D × Result Error A
  put x a m = elim (codec.marshal x) [
    | err e ↦ (m, err (Error.wrapped e))
    | ok _ ↦ (change x.id (some (read_back x)) m, ok a)
  ]

  unfoldable pub create_in : Option (Session D) → Sessions D → Sessions D × Result Error (Unit {0})
  create_in none m = (m, err (sentinel Sentinel.invalid_session))
  create_in (some x) m =
      if valid_session_id x.id then put x tt m else (m, err (sentinel Sentinel.invalid_session))

  unfoldable pub update_in :
      ℕ → Option (Session D) → Sessions D → Sessions D × Result Error (Session D)
  update_in now none m = (m, err (sentinel Sentinel.invalid_session))
  update_in now (some x) m =
      if not (valid_session_id x.id)
      then (m, err (sentinel Sentinel.invalid_session))
      else elim (m x.id) [
        | none ↦ (m, err (sentinel Sentinel.not_found))
        | some _ ↦ put (record x { updated_at = now }) (record x { updated_at = now }) m
      ]

  unfoldable pub touch_in : ℕ → Text → Sessions D → Sessions D × Result Error (Session D)
  touch_in now id m =
      let (m', r) = get_in now id m in
      elim r [
        | err e ↦ (m', err e)
        | ok x ↦ update_in now (some (record x { last_accessed_at = now })) m'
      ]

  unfoldable pub answer : Call D → Sessions D → Sessions D × Reply D
  answer (Call.create now x) m = let (m', r) = create_in x m in (m', done r)
  answer (Call.get now id) m = let (m', r) = get_in now id m in (m', session r)
  answer (Call.update now x) m = let (m', r) = update_in now x m in (m', session r)
  answer (Call.delete id) m = (delete_in id m, done (ok tt))
  answer (Call.touch now id) m = let (m', r) = touch_in now id m in (m', session r)
  answer Call.cleanup m = (m, ticked)

  unfoldable pub replay : List (Call D) → Sessions D → List (Reply D)
  replay [] m = []
  replay (c ∷ cs) m = (answer c m).1 ∷ replay cs (answer c m).0
