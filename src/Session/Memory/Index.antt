-- ===== src/Session/Memory/Index.antt =====
-- The user index of the in-memory session store (session/backend/memory/memory.go) against the
-- sessions that are stored.
use omnistorage_core.Base.{
  ◌≡◌, refl, Bool, false, not, ◌&&◌, ◌||◌, List, [], ◌∷◌, ◌++◌, arith, if◌then◌else◌, ◌==◌,
  contains, list_eq, nat_eq,
}
use mathlib.Core.Option
use omnistorage_core.Base.Dict
use omnistorage_core.Base.Dict.{Dict, NodupKeys}
use omnistorage_core.Base.Sort.{Distinct}
use omnistorage_core.Base.Text.{Text}
use omnistorage_core.Session.Memory.{add_id, remove_id, index_session, unindex_session}

-- the IDs that the index lists for a user
abbrev pub ids_of : Dict Text (List Text) → Text → List Text
ids_of index user = Option.get_or (Dict.lookup user index) []

-- whether the index lists the ID for the user
abbrev pub listed : Dict Text (List Text) → Text → Text → Bool
listed index user id = contains (ids_of index user) id

contains-append_one :
    (ids : List Text) (id j : Text) → contains (ids ++ id ∷ []) j ≡ (j == id || contains ids j)
contains-append_one [] id j = refl
contains-append_one (k ∷ ids) id j = ground (arith, contains-append_one ids id j)

contains-add_id :
    (ids : List Text) (id j : Text) → contains (add_id id ids) j ≡ (j == id || contains ids j)
unfolding add_id
contains-add_id ids id j = ground (arith, contains-append_one ids id j)

contains-remove_id :
    (ids : List Text) (id j : Text)
    → contains (remove_id id ids) j ≡ (not (j == id) && contains ids j)
unfolding remove_id
contains-remove_id [] id j = ground arith
contains-remove_id (k ∷ ids) id j = ground (arith, contains-remove_id ids id j)

append_one-Distinct :
    (ids : List Text) (id : Text)
    → contains ids id ≡ false
    → Distinct ids
    → Distinct (ids ++ id ∷ [])
append_one-Distinct [] id h d = (refl, tt)
append_one-Distinct (k ∷ ids) id h (f, d) =
    ground (arith, append_one-Distinct ids id, contains-append_one ids id k)

pub add_id-Distinct : (ids : List Text) (id : Text) → Distinct ids → Distinct (add_id id ids)
unfolding add_id
add_id-Distinct ids id d = ground (arith, append_one-Distinct ids id)

pub remove_id-Distinct : (ids : List Text) (id : Text) → Distinct ids → Distinct (remove_id id ids)
unfolding remove_id
remove_id-Distinct [] id d = tt
remove_id-Distinct (k ∷ ids) id (f, d) =
    ground (arith, remove_id-Distinct ids id d, contains-remove_id ids id k)

pub ids_of-index_session :
    (user other id : Text) (index : Dict Text (List Text))
    → ids_of (index_session user id index) other
      ≡ (if other == user then add_id id (ids_of index user) else ids_of index other)
unfolding index_session
ids_of-index_session user other id index = rw Dict.lookup-insert (ground arith)

pub ids_of-unindex_session :
    (user other id : Text) (index : Dict Text (List Text))
    → ids_of (unindex_session user id index) other
      ≡ (if other == user then remove_id id (ids_of index user) else ids_of index other)
unfolding unindex_session remove_id
ids_of-unindex_session user other id index = ground (
  arith,
  Dict.lookup-insert other user (remove_id id (ids_of index user)) index,
  Dict.lookup-erase other user index,
)

pub listed-index_session :
    (user other id j : Text) (index : Dict Text (List Text))
    → listed (index_session user id index) other j
      ≡ ((other == user && j == id) || listed index other j)
listed-index_session user other id j index =
    ground
      (arith, ids_of-index_session user other id index, contains-add_id (ids_of index user) id j)

pub listed-unindex_session :
    (user other id j : Text) (index : Dict Text (List Text))
    → listed (unindex_session user id index) other j
      ≡ (not (other == user && j == id) && listed index other j)
listed-unindex_session user other id j index =
    ground (
      arith,
      ids_of-unindex_session user other id index,
      contains-remove_id (ids_of index user) id j,
    )
