-- ===== src/Session/Kvs/Expiry.antt =====
-- When the index of a user expires before the sessions of that user: the TTLs that
-- session/backend/kvs/kvs.go sets, over kvs/backend/memory/memory.go.
use omnistorage_core.Base.{
  ℕ, ◌+◌, ◌<◌, ◌≡◌, refl, ap, ◌∙◌, true, false, some, [], ◌∷◌, arith, ◌==◌, ==-refl, ==-false,
  list_eq, nat_eq, ok, err, pos, is_positive,
}
use omnistorage_core.Kvs.{not_found}
use omnistorage_core.Kvs.Memory
use omnistorage_core.Session.Order.{sort_by_created, rounds}
use omnistorage_core.Kvs.Memory.View.{get-set, set-is_closed}
use omnistorage_core.Session.Kvs.{
  lifetime, add_to_user_index, get_user_session_ids, Codec, session_key, user_sessions_key, hour,
  lift, is_not_found,
}
use omnistorage_core.Session.{Session, Config}
use omnistorage_core.Session
use omnistorage_core.Session.Ids.{valid_session_id}
use omnistorage_core.Session.Kvs
use omnistorage_core.Session.Kvs.Keys.{session_key-ne-user_sessions_key}
use omnistorage_core.Session.Kvs.InMemory.{memory, set_ok}
use omnistorage_core.Base.Text.{Text}

-- The same store, when its clock shows another time.
abbrev pub wait_until : ℕ → Kvs.Store memory → Kvs.Store memory
wait_until later s = record s { backend = (later, s.backend.1) }

module _ {D : Type 0} (codec : Codec D) (config : Config) (now : ℕ) (x : Session D)
    (text ids : Text) (m : Memory.Store) where
  abbrev sk : Text
  sk = session_key config x.id

  abbrev uk : Text
  uk = user_sessions_key config (codec.uuid_string x.user_id)

  -- the store with the session, and with its index as well
  abbrev stored : Memory.Store
  stored = (Memory.set now sk text (pos 0) m).0

  abbrev indexed : Memory.Store
  indexed = (Memory.set now uk ids (pos (0 + hour)) stored).0

  module _ (alive : m.is_closed ≡ false) (valid : valid_session_id x.id ≡ true) where
    uk-ne-sk : (uk == sk) ≡ false
    uk-ne-sk = ==-false uk sk (λ (e : uk ≡ sk). absurd (
        ground (
          arith,
          session_key-ne-user_sessions_key config x.id (codec.uuid_string x.user_id) valid,
          ==-refl sk,
          ap (λ k. sk == k) e,
        )))

    stored-alive : stored.is_closed ≡ false
    stored-alive = set-is_closed now sk text (pos 0) m ∙ alive

    session_there : (later : ℕ) → Memory.get later sk indexed ≡ ok text
    session_there later = ground (
      arith,
      uk-ne-sk,
      get-set now later uk sk ids (pos (0 + hour)) stored stored-alive,
      get-set now later sk sk text (pos 0) m alive,
    )

    index_gone : (later : ℕ) → now + hour < later → Memory.get later uk indexed ≡ err not_found
    index_gone later h =
        ground (arith, get-set now later uk uk ids (pos (0 + hour)) stored stored-alive)

    index_missing : Memory.get now uk m ≡ err not_found → Memory.get now uk stored ≡ err not_found
    index_missing h = ground (arith, uk-ne-sk, get-set now now sk uk text (pos 0) m alive)

    module _ (unlimited : x.expires_at ≡ 0) (no_default : is_positive config.default_ttl ≡ false)
        (to_text : codec.marshal x ≡ ok text) (to_ids : codec.marshal_ids (x.id ∷ []) ≡ ok ids)
        (no_index : Memory.get now uk m ≡ err not_found) where
      no_lifetime : lifetime config now x ≡ 0
      unfolding lifetime Session.ttl
      no_lifetime = ground (arith, unlimited, no_default)

      index_set :
          add_to_user_index memory codec config uk x.id 0 (now, stored) ≡ ((now, indexed), ok tt)
      unfolding add_to_user_index get_user_session_ids lift is_not_found
      index_set =
          rw
            (
              add_to_user_index,
              get_user_session_ids,
              index_missing no_index,
              to_ids,
              set_ok now uk ids (pos (0 + hour)) stored stored-alive,
            )
            refl

      create_lem :
          (n : ℕ)
          → Kvs.create memory codec config now
              (some x)
              (record { backend = (now, m); is_closed = false; stop_signals = n })
            ≡ (record { backend = (now, indexed); is_closed = false; stop_signals = n }, ok tt)
      unfolding Kvs.create
      create_lem n =
          rw (valid, to_text, no_lifetime, set_ok now sk text (pos 0) m alive)
            (rw (no_lifetime, index_set) refl)

      get_lem :
          (n later : ℕ) (y : Session D)
          → codec.unmarshal text ≡ ok y
          → y.id ≡ x.id
          → y.expires_at ≡ 0
          → (Kvs.get memory codec config later x.id
              (record { backend = (later, indexed); is_closed = false; stop_signals = n })).1
            ≡ ok y
      unfolding Kvs.get Session.is_expired nat_eq
      get_lem n later y h e f = rw (valid, session_there later, h, e, f, ==-refl x.id) refl

      list_lem :
          (n later : ℕ)
          → now + hour < later
          → (Kvs.list_by_user_id memory codec config later
              (codec.uuid_string x.user_id)
              (record { backend = (later, indexed); is_closed = false; stop_signals = n })).1
            ≡ ok []
      unfolding Kvs.list_by_user_id get_user_session_ids is_not_found Kvs.fetch sort_by_created
          rounds
      list_lem n later h = rw (index_gone later h) refl

      delete_lem :
          (n later : ℕ)
          → now + hour < later
          → (Kvs.delete_by_user_id memory codec config
              (codec.uuid_string x.user_id)
              (record { backend = (later, indexed); is_closed = false; stop_signals = n })).1
            ≡ ok 0
      unfolding Kvs.delete_by_user_id get_user_session_ids is_not_found Kvs.delete_each
      delete_lem n later h = rw (index_gone later h) refl

      -- When a session that never expires is the first of its user, and `DefaultTTL` is not positive, its
      -- index expires one hour after `Create`: from then on `Get` still finds the session, but
      -- `ListByUserID` lists no session of the user, and `DeleteByUserID` deletes none. The store and its
      -- key-value store are open, the ID is valid, the user has no index, and the codec reads back the
      -- session's ID and that it does not expire.
      pub create_unlimited :
          (n later : ℕ) (y : Session D)
          → codec.unmarshal text ≡ ok y
          → y.id ≡ x.id
          → y.expires_at ≡ 0
          → now + hour < later
          → let s0 : Kvs.Store memory = record {
            backend = (now, m);
            is_closed = false;
            stop_signals = n;
          } in
            let s = wait_until later (Kvs.create memory codec config now (some x) s0).0 in
            let user = codec.uuid_string x.user_id in
            ((Kvs.get memory codec config later x.id s).1 ≡ ok y)
            × ((Kvs.list_by_user_id memory codec config later user s).1 ≡ ok [])
            × ((Kvs.delete_by_user_id memory codec config user s).1 ≡ ok 0)
      create_unlimited n later y h e f l =
          rw (create_lem n) (get_lem n later y h e f, list_lem n later l, delete_lem n later l)
