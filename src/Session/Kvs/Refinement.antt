-- ===== src/Session/Kvs/Refinement.antt =====
-- The methods of the session store of session/backend/kvs/kvs.go do what the map of
-- Session/Kvs/Abstract.antt does.
use omnistorage_core.Base.{
  ℕ, ◌≡◌, refl, ◌⊎◌, inl, inr, Bool, true, false, Option, none, some, ◌++◌, arith, Bool-cases,
  list_eq, nat_eq, ok, err, Result-cases, pos,
}
use omnistorage_core.Base.Text.{Text, bytes}
use omnistorage_core.Kvs.{not_found}
use omnistorage_core.Kvs.Backend.{Listable, IsReliable}
use omnistorage_core.Session
use omnistorage_core.Session.{Session, Config, Error, Sentinel, sentinel}
use omnistorage_core.Session.Ids.{valid_session_id}
use omnistorage_core.Session.Kvs
use omnistorage_core.Session.Kvs.{
  Codec, Store, session_key, user_sessions_key, lifetime, lift, is_not_found, of_kvs,
  add_to_user_index, remove_from_user_index, clean_each, cleanup_orphaned_indexes,
}
use omnistorage_core.Session.Kvs.Abstract.{
  Sessions, change, put, create_in, get_in, update_in, delete_in, touch_in,
}
use omnistorage_core.Session.Kvs.Slots.{
  IsFaithful, slot-cases, Represents, absent-Represents, lift_lem, set_session-Represents,
  delete_session-Represents, add_to_user_index-Represents, remove_from_user_index-Represents,
  clean_each-Represents,
}

module _ {D : Type 0} (B : Listable) (codec : Codec D) (config : Config) (is_open : B.State → Bool)
    (laws : IsReliable B is_open) (read_back : Session D → Session D)
    (faithful : IsFaithful codec read_back) where
  -- The store is open, and its sessions are those of the map.
  pub record Agrees (s : Store B) (m : Sessions D) : Type 0 where
    pub alive : s.is_closed ≡ false
    pub represents : Represents B codec config is_open s.backend m

  -- The same result, and states that agree.
  pub record Matches {A : Type 0} (p : Store B × A) (q : Sessions D × A) : Type 0 where
    pub results : p.1 ≡ q.1
    pub states : Agrees p.0 q.0

  matching :
      {A : Type 0} {p : Store B × A} {q : Sessions D × A} (s : Store B) (m : Sessions D) (a : A)
      → p ≡ (s, a)
      → q ≡ (m, a)
      → Agrees s m
      → Matches p q
  matching s m a e f g = rw (e, f) (record { results = refl; states = g })

  module _ (m : Sessions D) (s : Store B) (a : Agrees s m) where
    moved :
        (st : B.State) (m' : Sessions D)
        → Represents B codec config is_open st m'
        → Agrees (record s { backend = st }) m'
    moved st m' r = record { alive = a.alive; represents = r }

    abbrev Slot : Text → Type 0
    Slot id =
        ((B.get (session_key config id) s.backend ≡ err not_found) × (m id ≡ none))
        ⊎ ((text : Text) × (x : Session D) × (B.get (session_key config id) s.backend ≡ ok text)
            × (codec.unmarshal text ≡ ok x)
            × (x.id ≡ id)
            × (m id ≡ some x))

    found_at : (id : Text) → valid_session_id id ≡ true → Slot id
    found_at id v =
        slot-cases B codec config is_open id (B.get (session_key config id) s.backend)
          (a.represents.holds id v)

    pub create-Matches :
        (now : ℕ) (x : Option (Session D))
        → Matches (Kvs.create B codec config now x s) (create_in codec read_back x m)
    unfolding Kvs.create create_in put
    create-Matches now none =
        matching s m (err (sentinel Sentinel.invalid_session)) (ground (arith, a.alive)) refl a
    create-Matches now (some x) = elim (Bool-cases (valid_session_id x.id)) [
      | inr bad ↦
          matching s m (err (sentinel Sentinel.invalid_session)) (ground (arith, a.alive)) (rw bad)
            a
      | inl good ↦ elim (Result-cases (codec.marshal x)) [
        | inr (e, f) ↦
            matching s m (err (Error.wrapped e)) (ground (arith, a.alive)) (rw (good, f, put)) a
        | inl (text, f) ↦
            let ttl = lifetime config now x in
            let st = (B.set (session_key config x.id) text (pos ttl) s.backend).0 in
            let key = user_sessions_key config (codec.uuid_string x.user_id) in
            let st' = (add_to_user_index B codec config key x.id ttl st).0 in
            let m' = change x.id (some (read_back x)) m in
            let r =
              set_session-Represents B codec config is_open laws read_back faithful x text ttl
                s.backend a.represents good f in
            let r' =
              add_to_user_index-Represents B codec config is_open laws (codec.uuid_string x.user_id)
                x.id ttl st r in
            matching (record s { backend = st' }) m' (ok tt)
              (ground (
                arith,
                a.alive,
                laws.set_ok (session_key config x.id) text ttl s.backend a.represents.usable,
              ))
              (rw (good, f, put)) (moved st' m' r')
      ]
    ]

    pub delete-Matches :
        (id : Text) → Matches (Kvs.delete B codec config id s) (delete_in id m, ok tt)
    unfolding Kvs.delete delete_in is_not_found lift
    delete-Matches id = elim (Bool-cases (valid_session_id id)) [
      | inr bad ↦ matching s m (ok tt) (ground (arith, a.alive)) (rw bad) a
      | inl good ↦ elim (found_at id good) [
        | inl (gone, none_there) ↦
            matching s (change id none m) (ok tt) (ground (arith, a.alive)) (rw good) (record {
              alive = a.alive;
              represents =
                  absent-Represents B codec config is_open id s.backend a.represents none_there;
            })
        | inr (text, x, there, read, same, known) ↦
            let key = user_sessions_key config (codec.uuid_string x.user_id) in
            let st = (remove_from_user_index B codec config key id s.backend).0 in
            let r =
              remove_from_user_index-Represents B codec config is_open laws
                (codec.uuid_string x.user_id) id s.backend a.represents in
            let st' = (B.delete (session_key config id) st).0 in
            let r' = delete_session-Represents B codec config is_open laws id st r in
            matching (record s { backend = st' }) (change id none m) (ok tt)
              (ground (
                arith,
                a.alive,
                laws.delete_ok (session_key config id) st r.usable,
                lift_lem (B.delete (session_key config id) st),
              ))
              (rw good) (moved st' (change id none m) r')
      ]
    ]

    pub get-Matches :
        (now : ℕ) (id : Text) → Matches (Kvs.get B codec config now id s) (get_in now id m)
    unfolding Kvs.get get_in delete_in is_not_found
    get-Matches now id = elim (Bool-cases (valid_session_id id)) [
      | inr bad ↦
          matching s m (err (sentinel Sentinel.not_found)) (ground (arith, a.alive)) (rw bad) a
      | inl good ↦ elim (found_at id good) [
        | inl (gone, none_there) ↦
            matching s m (err (sentinel Sentinel.not_found)) (ground (arith, a.alive))
              (rw (good, none_there)) a
        | inr (text, x, there, read, same, known) ↦ elim (Bool-cases (Session.is_expired now x)) [
          | inr fresh ↦ matching s m (ok x) (ground (arith, a.alive)) (rw (good, known, fresh)) a
          | inl lapsed ↦
              matching (Kvs.delete B codec config id s).0 (change id none m)
                (err (sentinel Sentinel.expired)) (ground (arith, a.alive))
                (rw (good, known, lapsed)) (rw good at ((delete-Matches id).states))
        ]
      ]
    ]

    pub update-Matches :
        (now : ℕ) (x : Option (Session D))
        → Matches (Kvs.update B codec config now x s) (update_in codec read_back now x m)
    unfolding Kvs.update update_in put is_not_found
    update-Matches now none =
        matching s m (err (sentinel Sentinel.invalid_session)) (ground (arith, a.alive)) refl a
    update-Matches now (some x) = elim (Bool-cases (valid_session_id x.id)) [
      | inr bad ↦
          matching s m (err (sentinel Sentinel.invalid_session)) (ground (arith, a.alive)) (rw bad)
            a
      | inl good ↦ elim (found_at x.id good) [
        | inl (gone, none_there) ↦
            matching s m (err (sentinel Sentinel.not_found)) (ground (arith, a.alive))
              (rw (good, none_there)) a
        | inr (text, old, there, read, same, known) ↦
            let y = record x { updated_at = now } in
            elim (Result-cases (codec.marshal y)) [
              | inr (e, f) ↦
                  matching s m (err (Error.wrapped e)) (ground (arith, a.alive))
                    (rw (good, known, f, put)) a
              | inl (new, f) ↦
                  let ttl = lifetime config now y in
                  let st = (B.set (session_key config x.id) new (pos ttl) s.backend).0 in
                  let m' = change x.id (some (read_back y)) m in
                  let r =
                    set_session-Represents B codec config is_open laws read_back faithful y new ttl
                      s.backend a.represents good f in
                  matching (record s { backend = st }) m' (ok y)
                    (ground (
                      arith,
                      a.alive,
                      laws.set_ok (session_key config x.id) new ttl s.backend a.represents.usable,
                    ))
                    (rw (good, known, f, put)) (moved st m' r)
            ]
      ]
    ]

    pub cleanup-Agrees : Agrees (cleanup_orphaned_indexes B codec config s) m
    unfolding cleanup_orphaned_indexes
    cleanup-Agrees = elim (Result-cases (B.list (config.key_prefix ++ bytes "user:") s.backend)) [
      | inr (e, f) ↦ rw (f, cleanup_orphaned_indexes) a
      | inl (keys, f) ↦
          rw (f, cleanup_orphaned_indexes)
            (moved (clean_each B codec config keys s.backend) m (
              clean_each-Represents B codec config is_open laws keys s.backend a.represents
                (laws.list_prefix (config.key_prefix ++ bytes "user:") s.backend f)))
    ]

  pub touch-Matches :
      (m : Sessions D) (s : Store B)
      → Agrees s m
      → (now : ℕ) (id : Text)
      → Matches (Kvs.touch B codec config now id s) (touch_in codec read_back now id m)
  unfolding Kvs.touch touch_in
  touch-Matches m s a now id =
      let found = get-Matches m s a now id in
      elim (Result-cases (get_in now id m).1) [
        | inr (e, f) ↦
            matching (Kvs.get B codec config now id s).0 (get_in now id m).0 (err e)
              (ground (arith, found.results)) (ground arith) found.states
        | inl (x, f) ↦
            let y = record x { last_accessed_at = now } in
            let s' = (Kvs.get B codec config now id s).0 in
            let m' = (get_in now id m).0 in
            let p = update-Matches m' s' found.states now (some y) in
            matching (Kvs.update B codec config now (some y) s').0
              (update_in codec read_back now (some y) m').0
              (update_in codec read_back now (some y) m').1
              (ground (arith, found.results, p.results)) (ground arith) p.states
      ]
