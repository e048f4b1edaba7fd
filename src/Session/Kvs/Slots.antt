-- ===== src/Session/Kvs/Slots.antt =====
-- What stands in the key-value store under the keys of sessions, for session/backend/kvs/kvs.go.
use omnistorage_core.Base.{
  ℕ, ◌+◌, ◌≡◌, refl, inl, inr, Bool, true, not, Option, none, some, List, [], ◌∷◌, ◌++◌, arith,
  if◌then◌else◌, ◌==◌, list_eq, nat_eq, filter, All, Result, ok, err, is_ok, Result-cases, pos, ◌⊎◌,
}
use omnistorage_core.Base.Text.{Text, bytes, has_prefix}
use omnistorage_core.Kvs.{KvsError, not_found, closed, other}
use omnistorage_core.Kvs.Backend.{Listable, IsReliable}
use omnistorage_core.Session.{Session, Config}
use omnistorage_core.Session.Ids.{valid_session_id}
use omnistorage_core.Session.Kvs.{
  Codec, session_key, user_sessions_key, trim_prefix, lift, add_to_user_index,
  remove_from_user_index, hour, clean_index, clean_each, get_user_session_ids,
}
use omnistorage_core.Session.Kvs.Keys.{
  session_key-eq, session_key-ne-user_sessions_key, user_sessions_key-trim_prefix,
}
use omnistorage_core.Session.Kvs.Abstract.{Sessions, change}

-- What the documentation of encoding/json promises: what is marshalled can be read back, up to a
-- change that keeps the ID.
pub record IsFaithful {D : Type 0} (codec : Codec D) (read_back : Session D → Session D)
    : Type 0 where
  pub unmarshal-marshal :
      (x : Session D) (text : Text)
      → valid_session_id x.id ≡ true
      → codec.marshal x ≡ ok text
      → codec.unmarshal text ≡ ok (read_back x)
  pub id-read_back : (x : Session D) → valid_session_id x.id ≡ true → (read_back x).id ≡ x.id

pub lift_lem : {A S : Type 0} (p : S × Result KvsError A) → (lift p).0 ≡ p.0
unfolding lift
lift_lem (st, ok a) = refl
lift_lem (st, err e) = refl

module _ {D : Type 0} (B : Listable) (codec : Codec D) (config : Config)
    (is_open : B.State → Bool) where
  -- The session that a `Get` of the key-value store yields for an ID: `some none` if there is none,
  -- and `none` if there is something else.
  abbrev pub slot : Text → Result KvsError Text → Option (Option (Session D))
  slot id (err not_found) = some none
  slot id (err closed) = none
  slot id (err (other n)) = none
  slot id (ok text) = elim (codec.unmarshal text) [
    | err e ↦ none
    | ok x ↦ if x.id == id then some (some x) else none
  ]

  pub slot-cases :
      (id : Text) (g : Result KvsError Text) {o : Option (Session D)}
      → slot id g ≡ some o
      → ((g ≡ err not_found) × (o ≡ none))
        ⊎ ((text : Text) × (x : Session D) × (g ≡ ok text)
            × (codec.unmarshal text ≡ ok x)
            × (x.id ≡ id)
            × (o ≡ some x))
  slot-cases id (err not_found) h = inl (refl, ground arith)
  slot-cases id (err closed) h = absurd (ground arith)
  slot-cases id (err (other n)) h = absurd (ground arith)
  slot-cases id (ok text) h = elim (Result-cases (codec.unmarshal text)) [
    | inr (e, f) ↦ absurd (ground arith)
    | inl (x, f) ↦ inr (text, x, refl, f, ground arith, ground arith)
  ]

  -- The key-value store is open, and holds the sessions of the map, under their keys.
  pub record Represents (st : B.State) (m : Sessions D) : Type 0 where
    pub usable : is_open st ≡ true
    pub holds :
        (id : Text)
        → valid_session_id id ≡ true
        → slot id (B.get (session_key config id) st) ≡ some (m id)

  pub absent-Represents :
      (id : Text) (st : B.State) {m : Sessions D}
      → Represents st m
      → m id ≡ none
      → Represents st (change id none m)
  absent-Represents id st r gone = record {
    usable = r.usable;
    holds = λ j v. ground (arith, r.holds j v);
  }

  module _ (laws : IsReliable B is_open) {m : Sessions D} where
    pub set_index-Represents :
        (user text : Text) (ttl : ℕ) (st : B.State)
        → Represents st m
        → Represents (B.set (user_sessions_key config user) text (pos ttl) st).0 m
    set_index-Represents user text ttl st r = record {
      usable = laws.is_open-set (user_sessions_key config user) text ttl st r.usable;
      holds = λ id v.
          rw
            (
              laws.get-set (session_key config id) (user_sessions_key config user) text ttl st
                  r.usable,
              session_key-ne-user_sessions_key config id user v,
            )
            (r.holds id v);
    }

    pub delete_index-Represents :
        (user : Text) (st : B.State)
        → Represents st m
        → Represents (B.delete (user_sessions_key config user) st).0 m
    delete_index-Represents user st r = record {
      usable = laws.is_open-delete (user_sessions_key config user) st r.usable;
      holds = λ id v.
          rw
            (
              laws.get-delete (session_key config id) (user_sessions_key config user) st r.usable,
              session_key-ne-user_sessions_key config id user v,
            )
            (r.holds id v);
    }

    pub delete_session-Represents :
        (id : Text) (st : B.State)
        → Represents st m
        → Represents (B.delete (session_key config id) st).0 (change id none m)
    delete_session-Represents id st r = record {
      usable = laws.is_open-delete (session_key config id) st r.usable;
      holds = λ j v. ground (
        arith,
        laws.get-delete (session_key config j) (session_key config id) st r.usable,
        session_key-eq config j id,
        r.holds j v,
      );
    }

    pub set_session-Represents :
        (read_back : Session D → Session D)
        → IsFaithful codec read_back
        → (x : Session D) (text : Text) (ttl : ℕ) (st : B.State) → Represents st m
        → valid_session_id x.id ≡ true
        → codec.marshal x ≡ ok text
        → Represents
            (B.set (session_key config x.id) text (pos ttl) st).0
            (change x.id (some (read_back x)) m)
    set_session-Represents read_back faithful x text ttl st r valid written = record {
      usable = laws.is_open-set (session_key config x.id) text ttl st r.usable;
      holds = λ j v. ground (
        arith,
        laws.get-set (session_key config j) (session_key config x.id) text ttl st r.usable,
        session_key-eq config j x.id,
        faithful.unmarshal-marshal x text valid written,
        faithful.id-read_back x valid,
        r.holds j v,
      );
    }

    pub add_to_user_index-Represents :
        (user id : Text) (ttl : ℕ) (st : B.State)
        → Represents st m
        → Represents
            (add_to_user_index B codec config (user_sessions_key config user) id ttl st).0
            m
    unfolding add_to_user_index
    add_to_user_index-Represents user id ttl st r =
        let key = user_sessions_key config user in
        elim (Result-cases (get_user_session_ids B codec config key st)) [
          | inr (x, e) ↦ ground (arith, r)
          | inl (ids, e) ↦ elim (Result-cases (codec.marshal_ids (ids ++ id ∷ []))) [
            | inr (x, f) ↦ ground (arith, r)
            | inl (text, f) ↦ ground (
              arith,
              r,
              set_index-Represents user text (ttl + hour) st r,
              lift_lem (B.set key text (pos (ttl + hour)) st),
            )
          ]
        ]

    pub remove_from_user_index-Represents :
        (user id : Text) (st : B.State)
        → Represents st m
        → Represents
            (remove_from_user_index B codec config (user_sessions_key config user) id st).0
            m
    unfolding remove_from_user_index
    remove_from_user_index-Represents user id st r =
        let key = user_sessions_key config user in
        elim (Result-cases (get_user_session_ids B codec config key st)) [
          | inr (x, e) ↦ ground (arith, r)
          | inl (ids, e) ↦
              let left = filter (λ j. not (j == id)) ids in
              let deleted = delete_index-Represents user st r in
              elim (Result-cases (codec.marshal_ids left)) [
                | inr (x, f) ↦ ground (arith, r, deleted, lift_lem (B.delete key st))
                | inl (text, f) ↦ ground (
                  arith,
                  r,
                  deleted,
                  lift_lem (B.delete key st),
                  set_index-Represents user text 0 st r,
                  lift_lem (B.set key text (pos 0) st),
                )
              ]
        ]

    pub clean_index-Represents :
        (key : Text) (st : B.State)
        → Represents st m
        → has_prefix key (config.key_prefix ++ bytes "user:") ≡ true
        → Represents (clean_index B codec config key st) m
    unfolding clean_index
    clean_index-Represents key st r under =
        let user = trim_prefix key (config.key_prefix ++ bytes "user:") in
        let deleted = delete_index-Represents user st r in
        elim (Result-cases (get_user_session_ids B codec config key st)) [
          | inr (x, e) ↦ ground (arith, r)
          | inl (ids, e) ↦
              let valid = filter (λ id. is_ok (B.get (session_key config id) st)) ids in
              elim (Result-cases (codec.marshal_ids valid)) [
                | inr (x, f) ↦ ground (arith, r, deleted)
                | inl (text, f) ↦
                    let set = set_index-Represents user text 0 st r in
                    ground (arith, r, deleted, set, user_sessions_key-trim_prefix config key under)
              ]
        ]

    pub clean_each-Represents :
        (keys : List Text) (st : B.State)
        → Represents st m
        → All (λ k. has_prefix k (config.key_prefix ++ bytes "user:") ≡ true) keys
        → Represents (clean_each B codec config keys st) m
    unfolding clean_each
    clean_each-Represents [] st r all = r
    clean_each-Represents (key ∷ keys) st r (under, all) =
        clean_each-Represents keys _ (clean_index-Represents key st r under) all
