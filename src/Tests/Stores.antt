-- ===== src/Tests/Stores.antt =====
-- Runs of the session store over the in-memory key-value store (session/backend/kvs/kvs.go), and
-- instances of the theorems on it.
use omnistorage_core.Base.{
  ℕ, refl, none, [], ◌∷◌, arith, list_eq, nat_eq, ok, List, pos, false, some, ◌≡◌, err,
}
use omnistorage_core.Base.Text.{Text, bytes, has_prefix}
use omnistorage_core.Session.{Session, default_config, Config, Sentinel, sentinel}
use omnistorage_core.Session.Kvs.{Codec, Store}
use omnistorage_core.Session.Kvs
use omnistorage_core.Kvs.Memory
use omnistorage_core.Base.Dict
use omnistorage_core.Session.Ids
use omnistorage_core.Session.Kvs.Abstract
use omnistorage_core.Session.Kvs.Runs
use omnistorage_core.Session
use omnistorage_core.Session.Kvs.Abstract.{Call, replay}
use omnistorage_core.Session.Kvs.Refinement.{Agrees}
use omnistorage_core.Session.Kvs.Runs.{run, run_refines}
use omnistorage_core.Session.Kvs.InMemory.{memory, is_open, memory-IsReliable}
use omnistorage_core.Session.Kvs.Expiry.{wait_until, create_unlimited}
use omnistorage_core.Session.Kvs.Slots.{IsFaithful}

-- A session is written as its ID alone, and one that is read has nothing else.
abbrev read : Text → Session ℕ
read id = record {
  id = id;
  user_id = bytes "ann";
  site_id = [];
  organization_id = none;
  content = 0;
  created_at = 0;
  updated_at = 0;
  last_accessed_at = 0;
  expires_at = 0;
  ip_address = [];
  user_agent = [];
}

abbrev codec : Codec ℕ
codec = record {
  marshal = λ x. ok x.id;
  unmarshal = λ text. ok (read text);
  marshal_ids = λ ids. elim ids [ [] ↦ ok [] | id ∷ _ ↦ ok id ];
  unmarshal_ids = λ text. ok (text ∷ []);
  uuid_string = λ user. user;
}

faithful : IsFaithful codec (λ x. read x.id)
faithful = record {
  unmarshal-marshal = λ x text h e. ground (arith, e);
  id-read_back = λ x h. refl;
}

program : Unit {0}
unfolding omnistorage_core.Base.Sort.sort Session.is_expired Session.ttl Memory.get Memory.set
    Memory.new_entry Memory.is_expired Memory.delete Memory.list Memory.is_listed Dict.lookup
    Dict.insert Dict.erase Dict.keys Dict.retain Ids.valid_session_id Ids.are_id_bytes
    Ids.is_id_byte Kvs.session_key Kvs.user_sessions_key Kvs.lifetime Kvs.lift Kvs.is_not_found
    Kvs.of_kvs Kvs.get_user_session_ids Kvs.add_to_user_index Kvs.remove_from_user_index Kvs.create
    Kvs.get Kvs.update Kvs.delete Kvs.touch Kvs.clean_index Kvs.clean_each
    Kvs.cleanup_orphaned_indexes Kvs.trim_prefix Kvs.complete Runs.step Runs.run Abstract.put
    Abstract.create_in Abstract.get_in Abstract.delete_in Abstract.update_in Abstract.touch_in
    Abstract.answer Abstract.replay has_prefix list_eq nat_eq
program = tt

abbrev empty : Store memory
empty = record { backend = (0, Memory.init); is_closed = false; stop_signals = 0 }

empty-Agrees :
    Agrees memory codec default_config is_open memory-IsReliable
      (λ x. read x.id)
      faithful
      empty
      (λ id. none)
unfolding program
empty-Agrees = record { alive = refl; represents = record { usable = refl; holds = λ id h. refl } }

abbrev id : Text
id = bytes "0123456789abcdef0123456789abcdef"

abbrev calls : List (Call ℕ)
calls =
    Call.create 0 (some (read id))
    ∷ Call.get 0 id
    ∷ Call.cleanup
    ∷ Call.touch 0 id
    ∷ Call.delete id
    ∷ Call.get 0 id
    ∷ []

answers :
    run memory codec default_config calls empty
    ≡ Abstract.done (ok tt)
      ∷ Abstract.session (ok (read id))
      ∷ Abstract.ticked
      ∷ Abstract.session (ok (read id))
      ∷ Abstract.done (ok tt)
      ∷ Abstract.session (err (sentinel Sentinel.not_found))
      ∷ []
unfolding program
answers = refl

run_refines_example :
    run memory codec default_config calls empty ≡ replay codec (λ x. read x.id) calls (λ id. none)
run_refines_example =
    run_refines memory codec default_config is_open memory-IsReliable (λ x. read x.id) faithful
      calls (λ id. none) empty empty-Agrees

abbrev for_ever : Config
for_ever = record default_config { default_ttl = pos 0 }

create_unlimited_example :
    let s : Store memory =
      wait_until 3600000000001 (Kvs.create memory codec for_ever 0 (some (read id)) empty).0 in
    ((Kvs.get memory codec for_ever 3600000000001 id s).1 ≡ ok (read id))
    × ((Kvs.list_by_user_id memory codec for_ever 3600000000001 (bytes "ann") s).1 ≡ ok [])
    × ((Kvs.delete_by_user_id memory codec for_ever (bytes "ann") s).1 ≡ ok 0)
unfolding program
create_unlimited_example =
    create_unlimited codec for_ever 0 (read id) id id Memory.init refl refl refl refl refl refl refl
      0 3600000000001 (read id) refl refl refl (omega arith)
