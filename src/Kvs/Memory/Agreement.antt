-- ===== src/Kvs/Memory/Agreement.antt =====
-- When two in-memory key-value stores (kvs/backend/memory/memory.go) cannot be told apart.
use omnistorage_core.Base.{
  ℕ, ◌≤◌, ◌≡◌, ◌∙◌, sym, true, none, arith, ok, err, contains, ℤ, not, ap, is_ok, ◌&&◌, nat_eq,
  list_eq, Bool-cases, inl, inr,
}
use omnistorage_core.Base.Dict
use omnistorage_core.Base.Dict.{NodupKeys}
use omnistorage_core.Base.Sort.{Ascending-unique}
use omnistorage_core.Base.Text.{Text, has_prefix, text_lt, text_lt-IsStrictOrder}
use omnistorage_core.Kvs.{closed}
use omnistorage_core.Kvs.Memory
use omnistorage_core.Kvs.Memory.{Store, init, remove_expired}
use omnistorage_core.Kvs.Memory.View.{
  live, get-live, live-set, live-delete, live-remove_expired, list-get,
}

-- Two stores that no call from `now` on but `Len` can tell apart, the first one having no more entries.
pub record Agree (now : ℕ) (s t : Store) : Type 0 where
  pub closing : s.is_closed ≡ t.is_closed
  pub views : (later : ℕ) (k : Text) → now ≤ later → live later s k ≡ live later t k
  pub fewer : (k : Text) → Dict.lookup k t.entries ≡ none → Dict.lookup k s.entries ≡ none
  pub left : NodupKeys s.entries
  pub right : NodupKeys t.entries

pub remove_expired-NodupKeys :
    (now : ℕ) (s : Store) → NodupKeys s.entries → NodupKeys (remove_expired now s).entries
unfolding remove_expired
remove_expired-NodupKeys now s u =
    ground
      (arith, Dict.retain-NodupKeys (λ (_ : Text) e. not (Memory.is_expired now e)) s.entries u)

pub get-Agree :
    (now : ℕ) (key : Text) {s t : Store}
    → Agree now s t
    → Memory.get now key s ≡ Memory.get now key t
get-Agree now key {s} {t} a =
    ground (arith, get-live now key s, get-live now key t, a.views now key (omega arith), a.closing)

list_closed :
    (now : ℕ) (prefix : Text) (s : Store)
    → s.is_closed ≡ true
    → Memory.list now prefix s ≡ err closed
unfolding Memory.list
list_closed now prefix s h = ground arith

-- What `List` returns depends on what `Get` finds, and not on the order of the entries.
pub list-Agree :
    (now : ℕ) (prefix : Text) {s t : Store}
    → Agree now s t
    → Memory.list now prefix s ≡ Memory.list now prefix t
list-Agree now prefix {s} {t} a = elim (Bool-cases s.is_closed) [
  | inl shut ↦ list_closed now prefix s shut ∙ sym (list_closed now prefix t (sym a.closing ∙ shut))
  | inr open_s ↦
      let open_t = sym a.closing ∙ open_s in
      let (ks, p, up_s, in_s) = list-get now prefix s open_s a.left in
      let (ls, q, up_t, in_t) = list-get now prefix t open_t a.right in
      let same : (k : Text) → contains ks k ≡ contains ls k =
        λ k. in_s k ∙ ap (λ r. is_ok r && has_prefix k prefix) (get-Agree now k a) ∙ sym (in_t k) in
      p ∙ ap ok (Ascending-unique text_lt text_lt-IsStrictOrder ks ls up_s up_t same) ∙ sym q
]

set_closed :
    (now : ℕ) (key v : Text) (ttl : ℤ) (s : Store)
    → s.is_closed ≡ true
    → (Memory.set now key v ttl s).0 ≡ s
unfolding Memory.set
set_closed now key v ttl s h = rw h

delete_closed : (key : Text) (s : Store) → s.is_closed ≡ true → (Memory.delete key s).0 ≡ s
unfolding Memory.delete
delete_closed key s h = ground arith

remove_expired-is_closed : (now : ℕ) (s : Store) → (remove_expired now s).is_closed ≡ s.is_closed
unfolding remove_expired
remove_expired-is_closed now s = ground arith

pub remove_expired-Agree :
    (now later : ℕ) {s t : Store}
    → now ≤ later
    → Agree now s t
    → Agree later (remove_expired later s) t
unfolding remove_expired
remove_expired-Agree now later {s} {t} h a = record {
  closing = remove_expired-is_closed later s ∙ a.closing;
  views = λ at k g. live-remove_expired later at k s a.left g ∙ a.views at k (omega arith);
  fewer = λ k gone. ground (
    arith,
    a.fewer k gone,
    Dict.lookup-retain (λ (_ : Text) e. not (Memory.is_expired later e)) k s.entries a.left,
  );
  left = remove_expired-NodupKeys later s a.left;
  right = a.right;
}

pub set-Agree :
    (now : ℕ) (key v : Text) (ttl : ℤ) {s t : Store}
    → Agree now s t
    → (later : ℕ) (k : Text) → now ≤ later
    → live later (Memory.set now key v ttl s).0 k ≡ live later (Memory.set now key v ttl t).0 k
set-Agree now key v ttl {s} {t} a later k h = elim (Bool-cases s.is_closed) [
  | inl shut ↦
      rw (set_closed now key v ttl s shut, set_closed now key v ttl t (sym a.closing ∙ shut))
        (a.views later k h)
  | inr open_s ↦ ground (
    arith,
    live-set now later key k v ttl s open_s,
    live-set now later key k v ttl t (sym a.closing ∙ open_s),
    a.views later k h,
  )
]

pub delete-Agree :
    (now : ℕ) (key : Text) {s t : Store}
    → Agree now s t
    → (later : ℕ) (k : Text) → now ≤ later
    → live later (Memory.delete key s).0 k ≡ live later (Memory.delete key t).0 k
delete-Agree now key {s} {t} a later k h = elim (Bool-cases s.is_closed) [
  | inl shut ↦
      rw (delete_closed key s shut, delete_closed key t (sym a.closing ∙ shut)) (a.views later k h)
  | inr open_s ↦ ground (
    arith,
    live-delete later key k s open_s,
    live-delete later key k t (sym a.closing ∙ open_s),
    a.views later k h,
  )
]

pub close-Agree :
    (now : ℕ) {s t : Store}
    → Agree now s t
    → (later : ℕ) (k : Text) → now ≤ later
    → live later (Memory.close s) k ≡ live later (Memory.close t) k
unfolding Memory.close
close-Agree now {s} {t} a later k h = ground (arith, a.views later k h, a.closing)

pub later-Agree : {start now : ℕ} {s t : Store} → start ≤ now → Agree start s t → Agree now s t
later-Agree h a = record {
  closing = a.closing;
  views = λ later k g. a.views later k (omega arith);
  fewer = a.fewer;
  left = a.left;
  right = a.right;
}
