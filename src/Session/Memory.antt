-- ===== src/Session/Memory.antt =====
-- session/backend/memory/memory.go: the in-memory session store. Methods take what `ctx.Err()`
-- and `time.Now()` return; `uuid_string` is the method `String` of the package uuid.
pub mod Index
pub mod Invariant
pub mod Calls
pub mod Users
pub mod Reads
use omnistorage_core.Base.{
  ℕ, ◌+◌, Bool, true, false, Option, none, some, List, [], ◌∷◌, ◌++◌, if◌then◌else◌, ◌==◌, contains,
  list_eq, nat_eq, length, Result, ok, err,
}
use mathlib.Core.Option
use omnistorage_core.Base.Dict
use omnistorage_core.Base.Dict.{Dict}
use omnistorage_core.Base.Text.{Text}
use omnistorage_core.Session
use omnistorage_core.Session.{Session, Config, Error, sentinel, Sentinel}
use omnistorage_core.Session.Order.{sort_by_created}

pub record Store (D : Type 0) : Type 0 where
  pub sessions : Dict Text (Session D)
  pub user_index : Dict Text (List Text)
  pub config : Config
  pub is_closed : Bool
  pub stop_signals : ℕ

-- `New`
abbrev pub init : {D : Type 0} → Config → Store D
init cfg = record {
  sessions = [];
  user_index = [];
  config = cfg;
  is_closed = false;
  stop_signals = 0;
}

abbrev Ctx : Type 0
Ctx = Option Error

-- `if err := ctx.Err(); err != nil { return err }`, with the state that is left alone
abbrev with_ctx {ℓ κ} :
    {S : Type ℓ} {A : Type κ} → Ctx → S → S × Result Error A → S × Result Error A
with_ctx none s run = run
with_ctx (some e) s run = (s, err e)

-- `delete(set, id)` on a set of IDs
unfoldable pub remove_id : Text → List Text → List Text
remove_id id [] = []
remove_id id (j ∷ ids) = let rest = remove_id id ids in if id == j then rest else j ∷ rest

-- `set[id] = struct{}{}`
unfoldable pub add_id : Text → List Text → List Text
add_id id ids = if contains ids id then ids else ids ++ (id ∷ [])

-- the part of `Create` that updates the user index
unfoldable pub index_session : Text → Text → Dict Text (List Text) → Dict Text (List Text)
index_session user id index =
    Dict.insert user (add_id id (Option.get_or (Dict.lookup user index) [])) index

-- the part of `deleteSessionLocked` that updates the user index
unfoldable pub unindex_session : Text → Text → Dict Text (List Text) → Dict Text (List Text)
unindex_session user id index = elim (Dict.lookup user index) [
  | none ↦ index
  | some ids ↦
      let left = remove_id id ids in
      if left == [] then Dict.erase user index else Dict.insert user left index
]

module _ {D : Type 0} where
  -- `Update`; a success carries the session as it leaves the caller's.
  unfoldable pub update :
      Ctx → ℕ → Option (Session D) → Store D → Store D × Result Error (Session D)
  update ctx now none s = with_ctx ctx s (s, err (sentinel Sentinel.invalid_session))
  update ctx now (some sess) s = with_ctx ctx s (
      if sess.id == []
      then (s, err (sentinel Sentinel.invalid_session))
      else if s.is_closed
      then (s, err (sentinel Sentinel.closed))
      else elim (Dict.lookup sess.id s.sessions) [
        | none ↦ (s, err (sentinel Sentinel.not_found))
        | some _ ↦
            let stamped = record sess { updated_at = now } in
            (record s { sessions = Dict.insert sess.id stamped s.sessions }, ok stamped)
      ])

  -- the loop of `DeleteByUserID`
  unfoldable pub erase_all : List Text → Dict Text (Session D) → Dict Text (Session D)
  erase_all [] d = d
  erase_all (id ∷ ids) d = erase_all ids (Dict.erase id d)

  unfoldable pub delete_by_user_id : Ctx → Text → Store D → Store D × Result Error ℕ
  delete_by_user_id ctx user s = with_ctx ctx s (
      if s.is_closed
      then (s, err (sentinel Sentinel.closed))
      else elim (Dict.lookup user s.user_index) [
        | none ↦ (s, ok 0)
        | some ids ↦ (
          record s {
            sessions = erase_all ids s.sessions;
            user_index = Dict.erase user s.user_index;
          },
          ok (length ids),
        )
      ])

  unfoldable pub touch : Ctx → ℕ → Text → Store D → Store D × Result Error (Unit {0})
  touch ctx now id s = with_ctx ctx s (
      if s.is_closed
      then (s, err (sentinel Sentinel.closed))
      else elim (Dict.lookup id s.sessions) [
        | none ↦ (s, err (sentinel Sentinel.not_found))
        | some sess ↦ (
          record s {
            sessions = Dict.insert id (record sess { last_accessed_at = now }) s.sessions;
          },
          ok tt,
        )
      ])

  -- `Close`, which always returns nil
  unfoldable pub close : Store D → Store D
  close s = if s.is_closed then s else record s {
    sessions = [];
    user_index = [];
    is_closed = true;
    stop_signals = s.stop_signals + 1;
  }

  -- the loop of `ListByUserID` that collects the sessions
  unfoldable pub collect : List Text → Dict Text (Session D) → List (Session D)
  collect [] d = []
  collect (id ∷ ids) d = elim (Dict.lookup id d) [
    | none ↦ collect ids d
    | some sess ↦ sess ∷ collect ids d
  ]

  unfoldable pub list_by_user_id : Ctx → Text → Store D → Result Error (List (Session D))
  list_by_user_id (some e) user s = err e
  list_by_user_id none user s =
      if s.is_closed then err (sentinel Sentinel.closed) else elim (Dict.lookup user s.user_index) [
        | none ↦ ok []
        | some ids ↦ ok (sort_by_created (collect ids s.sessions))
      ]

  -- `Len`
  unfoldable pub len : Store D → ℕ
  len s = length s.sessions

module _ (uuid_string : Text → Text) {D : Type 0} where
  unfoldable pub create : Ctx → Option (Session D) → Store D → Store D × Result Error (Unit {0})
  create ctx none s = with_ctx ctx s (s, err (sentinel Sentinel.invalid_session))
  create ctx (some sess) s = with_ctx ctx s (
      if sess.id == []
      then (s, err (sentinel Sentinel.invalid_session))
      else if s.is_closed
      then (s, err (sentinel Sentinel.closed))
      else (
        record s {
          sessions = Dict.insert sess.id sess s.sessions;
          user_index = index_session (uuid_string sess.user_id) sess.id s.user_index;
        },
        ok tt,
      ))

  -- `deleteSessionLocked`
  unfoldable pub delete_session : Text → Store D → Store D
  delete_session id s = elim (Dict.lookup id s.sessions) [
    | none ↦ s
    | some sess ↦ record s {
      user_index = unindex_session (uuid_string sess.user_id) id s.user_index;
      sessions = Dict.erase id s.sessions;
    }
  ]

  -- `Get`, which looks the session up before it asks whether the store is closed
  unfoldable pub get : Ctx → ℕ → Text → Store D → Store D × Result Error (Session D)
  get ctx now id s = with_ctx ctx s (elim (Dict.lookup id s.sessions) [
    | none ↦ (s, err (sentinel Sentinel.not_found))
    | some sess ↦
        if s.is_closed
        then (s, err (sentinel Sentinel.closed))
        else if Session.is_expired now sess
        then (delete_session id s, err (sentinel Sentinel.expired))
        else (s, ok sess)
  ])

  unfoldable pub delete : Ctx → Text → Store D → Store D × Result Error (Unit {0})
  delete ctx id s =
      with_ctx ctx s
        (if s.is_closed then (s, err (sentinel Sentinel.closed)) else (delete_session id s, ok tt))

  -- the loop of `removeExpired`, over the entries that it meets
  unfoldable pub remove_each : ℕ → Dict Text (Session D) → Store D → Store D
  remove_each now [] s = s
  remove_each now ((id, sess) ∷ rest) s =
      remove_each now rest (if Session.is_expired now sess then delete_session id s else s)

  -- `removeExpired`
  unfoldable pub remove_expired : ℕ → Store D → Store D
  remove_expired now s = if s.is_closed then s else remove_each now s.sessions s
