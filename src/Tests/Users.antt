-- ===== src/Tests/Users.antt =====
-- Runs of the in-memory session store (session/backend/memory/memory.go), and instances of the
-- theorems on sessions.
use omnistorage_core.Base.{
  ℕ, ◌+◌, ◌≡◌, refl, ◌≢◌, true, false, none, some, List, [], ◌∷◌, ◌++◌, if◌then◌else◌, contains,
  list_eq, nat_eq, length, replicate, All, ok, err,
}
use omnistorage_core.Base.Dict
use omnistorage_core.Base.Dict.{Dict, NodupKeys}
use omnistorage_core.Base.Sort.{Distinct}
use omnistorage_core.Base.Text.{Text, bytes}
use omnistorage_core.Session
use omnistorage_core.Session.{Session, Error, Sentinel, sentinel, default_config}
use omnistorage_core.Session.Ids
use omnistorage_core.Session.Ids.{valid_session_id, generate_session_id, generate_session_id-valid}
use omnistorage_core.Session.Order
use omnistorage_core.Session.Order.{sort_by_created, IsOldestFirst, sort_by_created_lem}
use omnistorage_core.Session.Order.Members.{session_ids}
use omnistorage_core.Session.Memory
use omnistorage_core.Session.Memory.{
  Store, add_id, remove_id, index_session, unindex_session, collect, erase_all, remove_each,
}
use omnistorage_core.Session.Memory.Invariant.{owned, same_owner, IsIndexed, init-IsIndexed}
use omnistorage_core.Session.Memory.Calls
use omnistorage_core.Session.Memory.Calls.{Call, after, after-IsIndexed}
use omnistorage_core.Session.Memory.Users.{list_by_user_id_lem, delete_by_user_id_lem}

program : Unit {0}
unfolding Session.is_expired Memory.add_id Memory.remove_id Memory.index_session
    Memory.unindex_session Memory.update Memory.erase_all Memory.delete_by_user_id Memory.touch
    Memory.close Memory.collect Memory.list_by_user_id Memory.len Memory.create
    Memory.delete_session Memory.get Memory.delete Memory.remove_each Memory.remove_expired
    Order.pass Order.rounds Order.sort_by_created Calls.after Dict.lookup Dict.insert Dict.erase
    Dict.retain Dict.keys Ids.is_id_byte Ids.are_id_bytes Ids.valid_session_id Ids.base64_char
    Ids.base64_encode Ids.generate_session_id list_eq nat_eq
program = tt

-- The text of a user's ID stands for the ID itself here.
abbrev text_of : Text → Text
text_of u = u

abbrev ann : Text
ann = 1 ∷ []

abbrev bob : Text
bob = 2 ∷ []

abbrev session : Text → Text → ℕ → ℕ → Session ℕ
session id user made expires = record {
  id = id;
  user_id = user;
  site_id = [];
  organization_id = none;
  content = 7;
  created_at = made;
  updated_at = made;
  last_accessed_at = made;
  expires_at = expires;
  ip_address = [];
  user_agent = [];
}

abbrev newer : Session ℕ
newer = session (bytes "s1") ann 20 0

abbrev older : Session ℕ
older = session (bytes "s2") ann 10 30

abbrev other : Session ℕ
other = session (bytes "s3") bob 15 0

abbrev empty : Store ℕ
empty = Memory.init default_config

abbrev one : Store ℕ
one = after text_of (Call.create none (some newer)) empty

abbrev two : Store ℕ
two = after text_of (Call.create none (some older)) one

abbrev three : Store ℕ
three = after text_of (Call.create none (some other)) two

listed_oldest_first : Memory.list_by_user_id none ann three ≡ ok (older ∷ newer ∷ [])
unfolding program
listed_oldest_first = refl

expired_on_get : (Memory.get text_of none 40 older.id three).1 ≡ err (sentinel Sentinel.expired)
unfolding program
expired_on_get = refl

removed_on_get :
    (Memory.get text_of none 40 older.id three).0.user_index
    ≡ (ann, newer.id ∷ []) ∷ (bob, other.id ∷ []) ∷ []
unfolding program
removed_on_get = refl

empty-IsIndexed : IsIndexed text_of empty
empty-IsIndexed = init-IsIndexed text_of default_config

one-IsIndexed : IsIndexed text_of one
one-IsIndexed =
    after-IsIndexed text_of (Call.create none (some newer)) empty empty-IsIndexed
      (unfold program in refl)

two-IsIndexed : IsIndexed text_of two
two-IsIndexed =
    after-IsIndexed text_of (Call.create none (some older)) one one-IsIndexed
      (unfold program in refl)

still_free : same_owner text_of two.sessions other ≡ true
unfolding program
still_free = refl

two_open : two.is_closed ≡ false
unfolding program
two_open = refl

three_open : three.is_closed ≡ false
unfolding program
three_open = refl

after-IsIndexed_example : IsIndexed text_of (after text_of (Call.create none (some other)) two)
after-IsIndexed_example =
    after-IsIndexed text_of (Call.create none (some other)) two two-IsIndexed still_free

list_by_user_id_example :
    (xs : List (Session ℕ)) × (Memory.list_by_user_id none ann two ≡ ok xs)
    × IsOldestFirst xs
    × All (λ x. Dict.lookup x.id two.sessions ≡ some x) xs
    × Distinct (session_ids xs)
    × ((id : Text) → contains (session_ids xs) id ≡ owned text_of two.sessions ann id)
list_by_user_id_example = list_by_user_id_lem text_of ann two two-IsIndexed two_open

delete_by_user_id_example :
    (n : ℕ) × ((Memory.delete_by_user_id none ann two).1 ≡ ok n)
    × (length (Memory.delete_by_user_id none ann two).0.sessions + n ≡ length two.sessions)
    × ((id : Text)
        → Dict.lookup id (Memory.delete_by_user_id none ann two).0.sessions
          ≡ (if owned text_of two.sessions ann id then none else Dict.lookup id two.sessions))
delete_by_user_id_example = delete_by_user_id_lem text_of ann two two-IsIndexed two_open

named : newer.id ≢ []
named h = cc

named_other : other.id ≢ []
named_other h = cc

abbrev taken : Session ℕ
taken = record newer { user_id = bob }

-- what is left once ann's sessions are deleted
abbrev after_bob : Store ℕ
after_bob = (Memory.delete_by_user_id none ann (Memory.create text_of none (some taken) two).0).0

stored : Dict.lookup taken.id two.sessions ≡ some newer
unfolding program
stored = refl

different : ann ≢ bob
different h = cc

sorted : sort_by_created (newer ∷ other ∷ older ∷ []) ≡ older ∷ other ∷ newer ∷ []
unfolding program
sorted = refl

abbrev random : List ℕ
random = replicate 32 255

abbrev generated : Text
generated = replicate 42 b'_' ++ b'8' ∷ []

generate : generate_session_id {E = Error} (ok random) ≡ ok generated
unfolding program
generate = refl
