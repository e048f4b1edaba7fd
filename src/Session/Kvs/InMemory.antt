-- ===== src/Session/Kvs/InMemory.antt =====
-- The session store of session/backend/kvs/kvs.go over the in-memory key-value store of
-- kvs/backend/memory/memory.go.
use omnistorage_core.Base.{
  ℕ, ◌≡◌, inl, inr, Bool, true, false, not, List, [], ◌∷◌, arith, if◌then◌else◌, Bool-cases, ◌==◌,
  contains, list_eq, nat_eq, All, ok, err, ℤ, pos,
}
use omnistorage_core.Kvs.Backend.{Listable, IsReliable}
use omnistorage_core.Kvs.Memory
use omnistorage_core.Kvs.Memory.{is_listed}
use omnistorage_core.Kvs.Memory.View.{get-set, get-live, live-delete, set-is_closed}
use omnistorage_core.Base.Text.{Text, has_prefix, text_lt}
use omnistorage_core.Base.Dict
use omnistorage_core.Base.Dict.{Dict}
use omnistorage_core.Base.Sort.{contains-sort}
use omnistorage_core.Kvs.{not_found}

-- An in-memory store with the time of its clock.
abbrev pub memory : Listable
memory = record {
  State = ℕ × Memory.Store;
  get = λ key st. Memory.get st.0 key st.1;
  set = λ key value ttl st. let (s, r) = Memory.set st.0 key value ttl st.1 in ((st.0, s), r);
  delete = λ key st. let (s, r) = Memory.delete key st.1 in ((st.0, s), r);
  list = λ prefix st. Memory.list st.0 prefix st.1;
  close = λ st. ((st.0, Memory.close st.1), ok tt);
}

abbrev pub is_open : ℕ × Memory.Store → Bool
is_open st = not st.1.is_closed

delete-is_closed : (k : Text) (s : Memory.Store) → (Memory.delete k s).0.is_closed ≡ s.is_closed
unfolding Memory.delete
delete-is_closed k s = ground arith

pub set_ok :
    (now : ℕ) (k v : Text) (ttl : ℤ) (s : Memory.Store)
    → s.is_closed ≡ false
    → (Memory.set now k v ttl s).1 ≡ ok tt
unfolding Memory.set
set_ok now k v ttl s h = rw h

delete_ok : (k : Text) (s : Memory.Store) → s.is_closed ≡ false → (Memory.delete k s).1 ≡ ok tt
unfolding Memory.delete
delete_ok k s h = rw h

get-delete :
    (now : ℕ) (j k : Text) (s : Memory.Store)
    → s.is_closed ≡ false
    → Memory.get now j (Memory.delete k s).0
      ≡ (if j == k then err not_found else Memory.get now j s)
get-delete now j k s h = ground (
  arith,
  get-live now j (Memory.delete k s).0,
  get-live now j s,
  live-delete now k j s h,
  delete-is_closed k s,
)

-- Until its time has passed, a value is found.
pub set-get :
    (now : ℕ) (j k v : Text) (ttl : ℕ) (s : Memory.Store)
    → s.is_closed ≡ false
    → Memory.get now j (Memory.set now k v (pos ttl) s).0
      ≡ (if j == k then ok v else Memory.get now j s)
set-get now j k v ttl s h = ground (arith, get-set now now k j v (pos ttl) s h)

contains-retain :
    (now : ℕ) (prefix k : Text) (d : Dict Text Memory.Entry)
    → contains (Dict.keys (Dict.retain (is_listed now prefix) d)) k ≡ true
    → has_prefix k prefix ≡ true
unfolding Dict.keys Dict.retain is_listed has_prefix
contains-retain now prefix k [] h = absurd (ground arith)
contains-retain now prefix k ((j, e) ∷ d) h = ground (arith, contains-retain now prefix k d)

All-contains :
    {P : Text → Type 0} (xs : List Text) → ((k : Text) → contains xs k ≡ true → P k) → All P xs
All-contains [] f = tt
All-contains (x ∷ xs) f = (f x (ground arith), All-contains xs (λ k h. f k (ground arith)))

list_prefix :
    (now : ℕ) (prefix : Text) (s : Memory.Store) {keys : List Text}
    → Memory.list now prefix s ≡ ok keys
    → All (λ k. has_prefix k prefix ≡ true) keys
unfolding Memory.list
list_prefix now prefix s {keys} h =
    let ks = Dict.keys (Dict.retain (is_listed now prefix) s.entries) in
    elim (Bool-cases s.is_closed) [
      | inl c ↦ absurd (ground (arith, h))
      | inr o ↦ All-contains keys (λ k in_keys.
          contains-retain now prefix k s.entries (ground (arith, h, contains-sort text_lt k ks)))
    ]

-- The in-memory store, while it is open and its clock stands, keeps what the interface promises.
pub memory-IsReliable : IsReliable memory is_open
memory-IsReliable = record {
  set_ok = λ k v ttl st h. set_ok st.0 k v (pos ttl) st.1 (ground arith);
  get-set = λ j k v ttl st h. set-get st.0 j k v ttl st.1 (ground arith);
  delete_ok = λ k st h. delete_ok k st.1 (ground arith);
  get-delete = λ j k st h. get-delete st.0 j k st.1 (ground arith);
  is_open-set = λ k v ttl st h. ground (arith, set-is_closed st.0 k v (pos ttl) st.1);
  is_open-delete = λ k st h. ground (arith, delete-is_closed k st.1);
  list_prefix = λ prefix st h. list_prefix st.0 prefix st.1 h;
}
