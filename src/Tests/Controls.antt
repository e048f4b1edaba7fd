-- ===== src/Tests/Controls.antt =====
-- A small wrapped store under the controls of session/wrapper.go, and instances of their theorems.
use omnistorage_core.Base.{
  ℕ, ◌≤◌, ◌≡◌, refl, ◌≢◌, none, some, [], ◌∷◌, ◌++◌, ltb, if◌then◌else◌, ◌==◌, list_eq, nat_eq,
  length, ok, err, pos, pos_part, List, ◌+◌, ◌⊎◌, not, filter, true, false, Bool,
}
use omnistorage_core.Base.Text.{Text, bytes}
use omnistorage_core.Base.Dict
use omnistorage_core.Session
use omnistorage_core.Session.{Session, Config, Error, Sentinel, sentinel, default_config, foreign}
use omnistorage_core.Session.Backend.{Backend}
use omnistorage_core.Session.Order
use omnistorage_core.Session.Memory
use omnistorage_core.Session.Memory.{Store}
use omnistorage_core.Session.Controls
use omnistorage_core.Session.Controls.{
  Codec, Controlled, Event, tag, get, update, delete, touch, create, nil_uuid,
}
use omnistorage_core.Session.Controls.Limit.{Deletes, spared, session_limit}
use omnistorage_core.Session.Controls.Sites.{foreign_session, create_checked}

program : Unit {0}
unfolding Session.is_expired Memory.add_id Memory.remove_id Memory.index_session
    Memory.unindex_session Memory.update Memory.erase_all Memory.delete_by_user_id Memory.touch
    Memory.close Memory.collect Memory.list_by_user_id Memory.create Memory.delete_session
    Memory.get Memory.delete Order.pass Order.rounds Order.sort_by_created Dict.lookup Dict.insert
    Dict.erase Controls.report_violation Controls.validate_session Controls.validate_serializable
    Controls.check_size_limit Controls.tag Controls.of_site Controls.evict Controls.make_room
    Controls.enforce_session_limit Controls.create Controls.check_site Controls.get
    Controls.verify_ownership Controls.update Controls.delete Controls.touch Session.is_error
    Session.matches_code Session.sentinel_eq list_eq nat_eq
program = tt

abbrev text_of : Text → Text
text_of u = u

-- The in-memory store at the time 100, under a context that is never cancelled.
abbrev memory : Backend ℕ
memory = record {
  State = Store ℕ;
  create = λ sess s. Memory.create text_of none sess s;
  get = λ id s. Memory.get text_of none 100 id s;
  update = λ sess s. Memory.update none 100 sess s;
  delete = λ id s. Memory.delete text_of none id s;
  delete_by_user_id = λ user s. Memory.delete_by_user_id none user s;
  touch = λ id s. Memory.touch none 100 id s;
  close = λ s. (Memory.close s, ok tt);
  list_by_user_id = some (λ user s. (s, Memory.list_by_user_id none user s));
}

abbrev codec : Codec ℕ
codec = record {
  is_nil = λ n. n == 0;
  marshal_data = λ n. if ltb 9 n then err (foreign 1) else ok (n ∷ []);
  unmarshal_data = λ text. ok tt;
  marshal_session = λ s. ok (s.id ++ s.content ∷ []);
  session_ref = λ id. id;
  uuid_string = text_of;
}

abbrev config : Config
config = record default_config {
  site_id = 2 ∷ [];
  max_session_size = pos 10;
  max_sessions_per_user = pos 2;
}

abbrev session : Text → ℕ → Session ℕ
session id made = record {
  id = id;
  user_id = 1 ∷ [];
  site_id = [];
  organization_id = none;
  content = 7;
  created_at = made;
  updated_at = made;
  last_accessed_at = made;
  expires_at = 0;
  ip_address = [];
  user_agent = [];
}

abbrev first : Session ℕ
first = session (bytes "s1") 10

-- another site's
abbrev blog : Session ℕ
blog = record (session (bytes "s2") 20) { site_id = 1 ∷ [] }

abbrev empty : Controlled memory
empty = record { store = Memory.init default_config; events = [] }

abbrev with_first : Controlled memory
with_first = (create memory codec config (some first) empty).0

abbrev with_blog : Controlled memory
with_blog = record empty {
  store = (Memory.create text_of none (some blog) (Memory.init default_config)).0;
}

-- The oldest of three sessions is evicted at a limit of two.
evicted :
    (get memory codec config first.id
      (create memory codec config
        (some (session (bytes "s4") 40))
        (create memory codec config (some (session (bytes "s3") 30)) with_first).0).0).1
    ≡ err (sentinel Sentinel.not_found)
unfolding program
evicted = refl

configured : config.site_id ≢ []
configured h = cc

named : first.id ≢ []
named h = cc

named_blog : blog.id ≢ []
named_blog h = cc

owned_blog : blog.user_id ≢ nil_uuid
owned_blog h = cc

found : (get memory codec config first.id with_first).1 ≡ ok (tag memory codec config first)
unfolding program
found = refl

wrapped_get : memory.get blog.id with_blog.store ≡ (with_blog.store, ok blog)
unfolding program
wrapped_get = refl

elsewhere : blog.site_id ≢ config.site_id
elsewhere h = cc

foreign_session_example :
    (((update memory codec config (some blog) with_blog).1 ≡ err (sentinel Sentinel.not_found))
      × ((update memory codec config (some blog) with_blog).0.store ≡ with_blog.store))
    × (((touch memory codec config blog.id with_blog).1 ≡ err (sentinel Sentinel.not_found))
        × ((touch memory codec config blog.id with_blog).0.store ≡ with_blog.store))
    × (((delete memory codec config blog.id with_blog).1 ≡ ok tt)
        × ((delete memory codec config blog.id with_blog).0.store ≡ with_blog.store))
foreign_session_example =
    foreign_session memory codec config blog blog with_blog with_blog.store configured named_blog
      owned_blog wrapped_get elsewhere

created : (create memory codec config (some first) empty).1 ≡ ok tt
unfolding program
created = refl

create_checked_example :
    (first.id ≢ [])
    × (first.user_id ≢ nil_uuid)
    × ((tag memory codec config first).site_id ≡ config.site_id)
    × ((text : Text) × (codec.marshal_session (tag memory codec config first) ≡ ok text)
        × (length text ≤ pos_part config.max_session_size))
    × ((st : Store ℕ) × (memory.create (some (tag memory codec config first)) st
          ≡ (with_first.store, ok tt)))
create_checked_example = create_checked memory codec config first empty configured refl created

abbrev second : Session ℕ
second = session (bytes "s3") 30

abbrev with_two : Controlled memory
with_two = (create memory codec config (some second) with_first).0

abbrev tagged : List (Session ℕ)
tagged = record first { site_id = config.site_id } ∷ record second { site_id = config.site_id } ∷ []

tagged_listed : Memory.list_by_user_id none (1 ∷ []) with_two.store ≡ ok tagged
unfolding program
tagged_listed = refl

-- a store that is a list, until it is closed
record Listed : Type 0 where
  sessions : List (Session ℕ)
  is_closed : Bool

abbrev listed : Backend ℕ
listed = record {
  State = Listed;
  create = λ sess st. (st, ok tt);
  get = λ id st. (st, err (foreign 4));
  update = λ sess st. (st, err (foreign 4));
  delete = λ id st. if st.is_closed then (st, err (foreign 5)) else (
    record st { sessions = filter (λ (x : Session ℕ). not (x.id == id)) st.sessions },
    ok tt,
  );
  delete_by_user_id = λ user st. (st, ok 0);
  touch = λ id st. (st, ok tt);
  close = λ st. (record st { is_closed = true }, ok tt);
  list_by_user_id =
      some (λ user st. if st.is_closed then (st, err (foreign 5)) else (st, ok st.sessions));
}

listed-Deletes :
    Deletes listed codec config
      (1 ∷ [])
      (λ user st. if st.is_closed then (st, err (foreign 5)) else (st, ok st.sessions))
      (λ (st : Listed). st.sessions)
      (λ st. st.is_closed ≡ false)
listed-Deletes = record {
  lists = λ st ready. rw ready refl;
  list-sessions = λ st ready. rw ready refl;
  list-Ready = λ st ready. rw ready refl;
  delete-sessions = λ id st ready. rw ready refl;
  delete-Ready = λ id st ready. rw ready refl;
}

abbrev crowded : Controlled listed
crowded = record { store = record { sessions = tagged; is_closed = false }; events = [] }

session_limit_example :
    let (c, result) =
      Controls.enforce_session_limit listed codec config (session (bytes "s4") 40) crowded in
    (result ≡ ok tt)
    × (length (Controls.of_site listed codec config c.store.sessions) + 1 ≤ 2)
    × ((gone : List (Session ℕ)) × (kept : List (Session ℕ)) × (gone ++ kept
          ≡ Controls.of_site listed codec config tagged)
        × (c.store.sessions ≡ filter (spared listed codec config gone) tagged)
        × ((length gone ≡ 0) ⊎ (length kept + 1 ≡ 2)))
session_limit_example =
    session_limit listed codec config (session (bytes "s4") 40) crowded refl refl listed-Deletes
      refl
