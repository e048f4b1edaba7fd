-- ===== src/Kvs/Memory.antt =====
-- kvs/backend/memory/memory.go: the in-memory key-value store. A time is a number of nanoseconds
-- since the zero `time.Time`, which is 0; a method takes the time that `time.Now()` returns.

pub mod View
pub mod Agreement
pub mod Trace
pub mod Closing
use omnistorage_core.Base.{
  ℕ, ◌+◌, Bool, true, false, not, ◌&&◌, ◌||◌, none, some, List, [], Result, ok, err, ltb, ◌==◌, ℤ,
  is_positive, pos_part, if◌then◌else◌, nat_eq, list_eq, length,
}
use omnistorage_core.Base.Dict
use omnistorage_core.Base.Dict.{Dict}
use omnistorage_core.Base.Text.{Text, has_prefix, sort_texts}
use omnistorage_core.Kvs.{KvsError, not_found, closed}

pub record Entry : Type 0 where
  pub value : Text
  pub expires_at : ℕ

-- `data` is `entries`; after `Close` it is nil, which reads as an empty map. `stop_signals` counts
-- the calls of `close(s.closeCh)`, of which a second one would panic.
pub record Store : Type 0 where
  pub entries : Dict Text Entry
  pub is_closed : Bool
  pub stop_signals : ℕ

abbrev pub init : Store
init = record { entries = []; is_closed = false; stop_signals = 0 }

-- `!e.expiresAt.IsZero() && now.After(e.expiresAt)`
unfoldable pub is_expired : ℕ → Entry → Bool
is_expired now e = not (e.expires_at == 0) && ltb e.expires_at now

unfoldable pub get : ℕ → Text → Store → Result KvsError Text
unfolding is_expired Dict.lookup
get now key s = if s.is_closed then err closed else elim (Dict.lookup key s.entries) [
  | none ↦ err not_found
  | some e ↦ if is_expired now e then err not_found else ok e.value
]

-- the entry that `Set` builds
unfoldable pub new_entry : ℕ → Text → ℤ → Entry
new_entry now value ttl = record {
  value = value;
  expires_at = if is_positive ttl then now + pos_part ttl else 0;
}

unfoldable pub set : ℕ → Text → Text → ℤ → Store → Store × Result KvsError (Unit {0})
unfolding new_entry Dict.insert
set now key value ttl s =
    if s.is_closed
    then (s, err closed)
    else (record s { entries = Dict.insert key (new_entry now value ttl) s.entries }, ok tt)

unfoldable pub delete : Text → Store → Store × Result KvsError (Unit {0})
unfolding Dict.erase
delete key s =
    if s.is_closed
    then (s, err closed)
    else (record s { entries = Dict.erase key s.entries }, ok tt)

-- the test of the loop of `List`
unfoldable pub is_listed : ℕ → Text → Text → Entry → Bool
unfolding is_expired has_prefix
is_listed now prefix key e = not (is_expired now e) && (prefix == [] || has_prefix key prefix)

unfoldable pub list : ℕ → Text → Store → Result KvsError (List Text)
unfolding is_listed Dict.retain Dict.keys
list now prefix s =
    if s.is_closed
    then err closed
    else ok (sort_texts (Dict.keys (Dict.retain (is_listed now prefix) s.entries)))

-- `Close`, which always returns nil
unfoldable pub close : Store → Store
close s =
    if s.is_closed
    then s
    else record { entries = []; is_closed = true; stop_signals = s.stop_signals + 1 }

-- What a tick of the goroutine `cleanup` does.
unfoldable pub remove_expired : ℕ → Store → Store
unfolding is_expired Dict.retain
remove_expired now s =
    if s.is_closed
    then s
    else record s { entries = Dict.retain (λ _ e. not (is_expired now e)) s.entries }

-- `Len`
unfoldable pub len : Store → ℕ
len s = length s.entries
