-- ===== src/Kvs/Memory/View.antt =====
-- What can be read from the in-memory key-value store (kvs/backend/memory/memory.go).
use omnistorage_core.Base.{
  ℕ, ◌+◌, ◌≤◌, ◌≡◌, ◌∙◌, refl, true, false, not, ◌&&◌, Option, none, some, List, arith, Result, ok,
  err, is_ok, ltb, ◌==◌, contains, ℤ, is_positive, pos_part, if◌then◌else◌, nat_eq, list_eq,
}
use omnistorage_core.Base.Dict
use omnistorage_core.Base.Dict.{NodupKeys, is_some}
use omnistorage_core.Base.Sort.{Ascending, contains-sort, sort-Ascending}
use omnistorage_core.Base.Text.{Text, has_prefix, text_lt, text_lt-IsStrictOrder, sort_texts}
use omnistorage_core.Kvs.{KvsError, not_found, closed}
use omnistorage_core.Kvs.Memory.{
  Entry, Store, is_expired, get, new_entry, set, delete, is_listed, list, remove_expired,
}

-- The value that an open store shows at a time.
abbrev pub live : ℕ → Store → Text → Option Text
live now s key = elim (Dict.lookup key s.entries) [
  | none ↦ none
  | some e ↦ if is_expired now e then none else some e.value
]

abbrev found : Option Text → Result KvsError Text
found none = err not_found
found (some v) = ok v

pub get-live :
    (now : ℕ) (key : Text) (s : Store)
    → get now key s ≡ (if s.is_closed then err closed else found (live now s key))
unfolding get
get-live now key s = ground arith

is_expired-new_entry :
    (now later : ℕ) (value : Text) (ttl : ℤ)
    → is_expired later (new_entry now value ttl)
      ≡ (is_positive ttl && ltb (now + pos_part ttl) later)
unfolding is_expired new_entry
is_expired-new_entry now later value ttl = ground arith

value-new_entry : (now : ℕ) (value : Text) (ttl : ℤ) → (new_entry now value ttl).value ≡ value
unfolding new_entry
value-new_entry now value ttl = refl

pub live-set :
    (now later : ℕ) (key other value : Text) (ttl : ℤ) (s : Store)
    → s.is_closed ≡ false
    → live later (set now key value ttl s).0 other ≡ (
        if other == key
        then if is_positive ttl && ltb (now + pos_part ttl) later then none else some value
        else live later s other)
unfolding set
live-set now later key other value ttl s h = ground (
  arith,
  Dict.lookup-insert other key (new_entry now value ttl) s.entries,
  is_expired-new_entry now later value ttl,
  value-new_entry now value ttl,
)

pub live-delete :
    (later : ℕ) (key other : Text) (s : Store)
    → s.is_closed ≡ false
    → live later (delete key s).0 other ≡ (if other == key then none else live later s other)
unfolding delete
live-delete later key other s h = ground (arith, Dict.lookup-erase other key s.entries)

-- Once expired, an entry stays expired.
is_expired_mono :
    (now later : ℕ) (e : Entry) → now ≤ later → is_expired now e ≡ true → is_expired later e ≡ true
unfolding is_expired
is_expired_mono now later e h k = ground arith

is_expired-live :
    (now later : ℕ) (key : Text) (s : Store) {e : Entry}
    → now ≤ later
    → Dict.lookup key s.entries ≡ some e
    → is_expired now e ≡ true
    → live later s key ≡ none
is_expired-live now later key s {e} h k x = ground (arith, is_expired_mono now later e h x)

pub live-remove_expired :
    (now later : ℕ) (key : Text) (s : Store)
    → NodupKeys s.entries
    → now ≤ later
    → live later (remove_expired now s) key ≡ live later s key
unfolding remove_expired
live-remove_expired now later key s u h = ground (
  arith,
  Dict.lookup-retain (λ (_ : Text) e. not (is_expired now e)) key s.entries u,
  is_expired-live now later key s h,
)

pub set-is_closed :
    (now : ℕ) (key value : Text) (ttl : ℤ) (s : Store)
    → (set now key value ttl s).0.is_closed ≡ s.is_closed
unfolding set
set-is_closed now key value ttl s = ground arith

-- After `Set` on an open store, a `Get` of the key finds the value until the TTL has passed (for ever if the TTL
-- is not positive), and a `Get` of any other key finds what it found before.
pub get-set :
    (now later : ℕ) (key other value : Text) (ttl : ℤ) (s : Store)
    → s.is_closed ≡ false
    → get later other (set now key value ttl s).0 ≡ (
        if other == key
        then if is_positive ttl && ltb (now + pos_part ttl) later then err not_found else ok value
        else get later other s)
get-set now later key other value ttl s h = ground (
  arith,
  get-live later other (set now key value ttl s).0,
  get-live later other s,
  live-set now later key other value ttl s h,
  set-is_closed now key value ttl s,
)

listed_lem :
    (now : ℕ) (prefix k : Text) (s : Store)
    → s.is_closed ≡ false
    → NodupKeys s.entries
    → is_some (Dict.lookup k (Dict.retain (is_listed now prefix) s.entries))
      ≡ (is_ok (get now k s) && has_prefix k prefix)
unfolding is_listed has_prefix
listed_lem now prefix k s h u =
    ground (arith, Dict.lookup-retain (is_listed now prefix) k s.entries u, get-live now k s)

-- On an open store that lists no key twice, `List` returns, strictly ascending, exactly the keys
-- with the prefix that a `Get` at that time would find.
pub list-get :
    (now : ℕ) (prefix : Text) (s : Store)
    → s.is_closed ≡ false
    → NodupKeys s.entries
    → (ks : List Text) × (list now prefix s ≡ ok ks)
      × Ascending text_lt ks
      × ((k : Text) → contains ks k ≡ (is_ok (get now k s) && has_prefix k prefix))
unfolding list
list-get now prefix s h u =
    let listed = Dict.retain (is_listed now prefix) s.entries in
    let ks = Dict.keys listed in
    (
      sort_texts ks,
      rw h,
      sort-Ascending text_lt text_lt-IsStrictOrder ks
          (Dict.keys-Distinct listed (Dict.retain-NodupKeys _ s.entries u)),
      λ k. contains-sort text_lt k ks ∙ Dict.contains-keys listed k ∙ listed_lem now prefix k s h u,
    )
