-- ===== src/Session/Kvs.antt =====
-- session/backend/kvs/kvs.go: the session store over a key-value store. `now` is what `time.Now()`
-- returns during a call. The calls of encoding/json and of the package uuid are fields of `Codec`.
-- What goes to the log is left out.
pub mod Keys
pub mod Abstract
pub mod Slots
pub mod Refinement
pub mod Runs
pub mod InMemory
pub mod Expiry
use omnistorage_core.Base.{
  ℕ, ◌+◌, Bool, true, false, not, ◌&&◌, Option, none, some, List, [], ◌∷◌, ◌++◌, ltb, leb,
  if◌then◌else◌, ◌==◌, contains, list_eq, nat_eq, length, drop, filter, Result, ok, err, is_ok, pos,
  pos_part, is_positive,
}
use omnistorage_core.Base.Text.{Text, bytes, has_prefix}
use omnistorage_core.Kvs.{KvsError, not_found, closed, other}
use omnistorage_core.Kvs.Backend.{Listable}
use omnistorage_core.Session
use omnistorage_core.Session.{Session, Config, Error, Sentinel, sentinel, foreign}
use omnistorage_core.Session.Ids.{valid_session_id}
use omnistorage_core.Session.Order.{sort_by_created}

pub record Codec (D : Type 0) : Type 0 where
  -- `json.Marshal` and `json.Unmarshal` of a session, and of a list of IDs
  pub marshal : Session D → Result Error Text
  pub unmarshal : Text → Result Error (Session D)
  pub marshal_ids : List Text → Result Error Text
  pub unmarshal_ids : Text → Result Error (List Text)
  -- `uuid.UUID.String`
  pub uuid_string : Text → Text

-- an error of the key-value store, among those of other packages
unfoldable pub of_kvs : KvsError → Error
of_kvs not_found = foreign 0
of_kvs closed = foreign 1
of_kvs (other n) = foreign (n + 2)

unfoldable pub is_not_found : KvsError → Bool
is_not_found not_found = true
is_not_found closed = false
is_not_found (other n) = false

-- the results of the key-value store, as errors of this package
unfoldable pub lift : {A S : Type 0} → S × Result KvsError A → S × Result Error A
lift (st, ok a) = (st, ok a)
lift (st, err e) = (st, err (of_kvs e))

-- `time.Hour`
abbrev pub hour : ℕ
hour = 3600000000000

-- the part of `New` that fills in the key prefix
unfoldable pub complete : Config → Config
complete config =
    if config.key_prefix == [] then record config { key_prefix = bytes "session:" } else config

-- `strings.TrimPrefix`
unfoldable pub trim_prefix : Text → Text → Text
trim_prefix s prefix = if has_prefix s prefix then drop (length prefix) s else s

-- `sessionKey` and `userSessionsKey`
unfoldable pub session_key : Config → Text → Text
session_key config id = config.key_prefix ++ id

unfoldable pub user_sessions_key : Config → Text → Text
user_sessions_key config user = config.key_prefix ++ (bytes "user:" ++ user)

-- the TTL with which a session is stored
unfoldable pub lifetime : {D : Type 0} → Config → ℕ → Session D → ℕ
lifetime config now s =
    let left = Session.ttl now s in
    if leb left 0 && is_positive config.default_ttl then pos_part config.default_ttl else left

module _ (B : Listable) where
  -- `Store`; its configuration is a parameter of the methods.
  pub record Store : Type 0 where
    pub backend : B.State
    pub is_closed : Bool
    pub stop_signals : ℕ

module _ {D : Type 0} (B : Listable) (codec : Codec D) (config : Config) where
  -- `getUserSessionIDs`
  unfoldable pub get_user_session_ids : Text → B.State → Result Error (List Text)
  get_user_session_ids key st = elim (B.get key st) [
    | err e ↦ if is_not_found e then ok [] else err (of_kvs e)
    | ok text ↦ codec.unmarshal_ids text
  ]

  -- `addToUserIndex`
  unfoldable pub add_to_user_index : Text → Text → ℕ → B.State → B.State × Result Error (Unit {0})
  add_to_user_index key id ttl st = elim (get_user_session_ids key st) [
    | err e ↦ (st, err (Error.wrapped e))
    | ok ids ↦ if contains ids id then (st, ok tt) else elim (codec.marshal_ids (ids ++ id ∷ [])) [
      | err e ↦ (st, err e)
      | ok text ↦ lift (B.set key text (pos (ttl + hour)) st)
    ]
  ]

  -- `removeFromUserIndex`
  unfoldable pub remove_from_user_index : Text → Text → B.State → B.State × Result Error (Unit {0})
  remove_from_user_index key id st = elim (get_user_session_ids key st) [
    | err e ↦ (st, err e)
    | ok ids ↦
        let left = filter (λ j. not (j == id)) ids in
        if ids == []
        then (st, ok tt)
        else if left == []
        then lift (B.delete key st)
        else elim (codec.marshal_ids left) [
          | err e ↦ (st, err e)
          | ok text ↦ lift (B.set key text (pos 0) st)
        ]
  ]

  unfoldable pub create : ℕ → Option (Session D) → Store B → Store B × Result Error (Unit {0})
  create now session s = if s.is_closed then (s, err (sentinel Sentinel.closed)) else elim session [
    | none ↦ (s, err (sentinel Sentinel.invalid_session))
    | some x ↦
        if not (valid_session_id x.id)
        then (s, err (sentinel Sentinel.invalid_session))
        else elim (codec.marshal x) [
          | err e ↦ (s, err (Error.wrapped e))
          | ok text ↦
              let ttl = lifetime config now x in
              let (st, r) = B.set (session_key config x.id) text (pos ttl) s.backend in
              elim r [
                | err e ↦ (record s { backend = st }, err (Error.wrapped (of_kvs e)))
                | ok _ ↦
                    let key = user_sessions_key config (codec.uuid_string x.user_id) in
                    (record s { backend = (add_to_user_index key x.id ttl st).0 }, ok tt)
              ]
        ]
  ]

  unfoldable pub delete : Text → Store B → Store B × Result Error (Unit {0})
  delete id s =
      if s.is_closed
      then (s, err (sentinel Sentinel.closed))
      else if not (valid_session_id id)
      then (s, ok tt)
      else elim (B.get (session_key config id) s.backend) [
        | err e ↦ (s, if is_not_found e then ok tt else err (Error.wrapped (of_kvs e)))
        | ok text ↦ elim (codec.unmarshal text) [
          | err e ↦ (s, ok tt)
          | ok x ↦
              if not (x.id == id)
              then (s, ok tt)
              else let key = user_sessions_key config (codec.uuid_string x.user_id) in
                let st = (remove_from_user_index key id s.backend).0 in
                let (st', r) = lift (B.delete (session_key config id) st) in
                (record s { backend = st' }, r)
        ]
      ]

  unfoldable pub get : ℕ → Text → Store B → Store B × Result Error (Session D)
  get now id s =
      if s.is_closed
      then (s, err (sentinel Sentinel.closed))
      else if not (valid_session_id id)
      then (s, err (sentinel Sentinel.not_found))
      else elim (B.get (session_key config id) s.backend) [
        | err e ↦ (
          s,
          err (if is_not_found e then sentinel Sentinel.not_found else Error.wrapped (of_kvs e)),
        )
        | ok text ↦ elim (codec.unmarshal text) [
          | err e ↦ (s, err (Error.wrapped e))
          | ok x ↦
              if not (x.id == id)
              then (s, err (sentinel Sentinel.not_found))
              else if Session.is_expired now x
              then ((delete id s).0, err (sentinel Sentinel.expired))
              else (s, ok x)
        ]
      ]

  -- `Update`; a success carries the session as it leaves the caller's.
  unfoldable pub update : ℕ → Option (Session D) → Store B → Store B × Result Error (Session D)
  update now session s = if s.is_closed then (s, err (sentinel Sentinel.closed)) else elim session [
    | none ↦ (s, err (sentinel Sentinel.invalid_session))
    | some x ↦
        if not (valid_session_id x.id)
        then (s, err (sentinel Sentinel.invalid_session))
        else elim (B.get (session_key config x.id) s.backend) [
          | err e ↦ (
            s,
            err (if is_not_found e then sentinel Sentinel.not_found else Error.wrapped (of_kvs e)),
          )
          | ok _ ↦
              let stamped = record x { updated_at = now } in
              elim (codec.marshal stamped) [
                | err e ↦ (s, err (Error.wrapped e))
                | ok text ↦
                    let (st, r) =
                      B.set (session_key config x.id) text (pos (lifetime config now stamped))
                        s.backend in
                    (
                      record s { backend = st },
                      elim r [ err e ↦ err (Error.wrapped (of_kvs e)) | ok _ ↦ ok stamped ],
                    )
              ]
        ]
  ]

  unfoldable pub touch : ℕ → Text → Store B → Store B × Result Error (Session D)
  touch now id s =
      let (s', r) = get now id s in
      elim r [
        | err e ↦ (s', err e)
        | ok x ↦ update now (some (record x { last_accessed_at = now })) s'
      ]

  -- the loop of `DeleteByUserID`, which counts
  unfoldable pub delete_each : List Text → ℕ → B.State → B.State × ℕ
  delete_each [] count st = (st, count)
  delete_each (id ∷ ids) count st =
      let (st', r) = B.delete (session_key config id) st in
      delete_each ids (if is_ok r then count + 1 else count) st'

  unfoldable pub delete_by_user_id : Text → Store B → Store B × Result Error ℕ
  delete_by_user_id user s =
      if s.is_closed
      then (s, err (sentinel Sentinel.closed))
      else let key = user_sessions_key config user in
        elim (get_user_session_ids key s.backend) [
          | err e ↦ (s, err e)
          | ok ids ↦
              let (st, count) = delete_each ids 0 s.backend in
              (record s { backend = (B.delete key st).0 }, ok count)
        ]

  unfoldable pub close : Store B → Store B × Result Error (Unit {0})
  close s =
      if s.is_closed
      then (s, ok tt)
      else let (st, r) = lift (B.close s.backend) in
        (record { backend = st; is_closed = true; stop_signals = s.stop_signals + 1 }, r)

  -- the loop of `ListByUserID` that fetches the sessions
  unfoldable pub fetch : ℕ → List Text → Store B → Store B × List (Session D)
  fetch now [] s = (s, [])
  fetch now (id ∷ ids) s =
      let (s', r) = get now id s in
      let (s'', xs) = fetch now ids s' in (s'', elim r [ err e ↦ xs | ok x ↦ x ∷ xs ])

  unfoldable pub list_by_user_id : ℕ → Text → Store B → Store B × Result Error (List (Session D))
  list_by_user_id now user s =
      if s.is_closed
      then (s, err (sentinel Sentinel.closed))
      else elim (get_user_session_ids (user_sessions_key config user) s.backend) [
        | err e ↦ (s, err e)
        | ok ids ↦ let (s', xs) = fetch now ids s in (s', ok (sort_by_created xs))
      ]

  -- What `cleanupOrphanedIndexes` does with a key; that a list of IDs is always marshalled is the
  -- panic of the code.
  unfoldable pub clean_index : Text → B.State → B.State
  clean_index key st =
      let user = trim_prefix key (config.key_prefix ++ bytes "user:") in
      elim (get_user_session_ids key st) [
        | err e ↦ st
        | ok ids ↦
            let valid = filter (λ id. is_ok (B.get (session_key config id) st)) ids in
            if valid == []
            then (B.delete (user_sessions_key config user) st).0
            else if ltb (length valid) (length ids)
            then elim (codec.marshal_ids valid) [
              | err e ↦ st
              | ok text ↦ (B.set key text (pos 0) st).0
            ]
            else st
      ]

  unfoldable pub clean_each : List Text → B.State → B.State
  clean_each [] st = st
  clean_each (key ∷ keys) st = clean_each keys (clean_index key st)

  -- `cleanupOrphanedIndexes`, at a tick of the goroutine `cleanup`
  unfoldable pub cleanup_orphaned_indexes : Store B → Store B
  cleanup_orphaned_indexes s = elim (B.list (config.key_prefix ++ bytes "user:") s.backend) [
    | err e ↦ s
    | ok keys ↦ record s { backend = clean_each keys s.backend }
  ]
