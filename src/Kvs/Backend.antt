-- ===== src/Kvs/Backend.antt =====
-- kvs/kvs.go: the interface `ListableStore`, as the session store of session/backend/kvs/kvs.go uses
-- it. The state of a store includes all that its methods consult, the clock and the contexts too.
use omnistorage_core.Base.{
  Bool, true, List, Result, ok, err, ◌≡◌, ℤ, pos, ℕ, if◌then◌else◌, ◌==◌, list_eq, nat_eq, All,
}
use omnistorage_core.Base.Text.{Text, has_prefix}
use omnistorage_core.Kvs.{KvsError, not_found}

pub record Listable : Type 1 where
  pub State : Type 0
  pub get : Text → State → Result KvsError Text
  pub set : Text → Text → ℤ → State → State × Result KvsError (Unit {0})
  pub delete : Text → State → State × Result KvsError (Unit {0})
  pub list : Text → State → Result KvsError (List Text)
  pub close : State → State × Result KvsError (Unit {0})

-- What the documentation of the interface promises of a store while it is open and no driver fails:
-- `Get` finds what was `Set`, as long as the TTL has not passed, or `ErrNotFound`.
pub record IsReliable (B : Listable) (is_open : B.State → Bool) : Type 0 where
  pub set_ok :
      (k v : Text) (ttl : ℕ) (st : B.State) → is_open st ≡ true → (B.set k v (pos ttl) st).1 ≡ ok tt
  pub get-set :
      (j k v : Text) (ttl : ℕ) (st : B.State)
      → is_open st ≡ true
      → B.get j (B.set k v (pos ttl) st).0 ≡ (if j == k then ok v else B.get j st)
  pub delete_ok : (k : Text) (st : B.State) → is_open st ≡ true → (B.delete k st).1 ≡ ok tt
  pub get-delete :
      (j k : Text) (st : B.State)
      → is_open st ≡ true
      → B.get j (B.delete k st).0 ≡ (if j == k then err not_found else B.get j st)
  pub is_open-set :
      (k v : Text) (ttl : ℕ) (st : B.State)
      → is_open st ≡ true
      → is_open (B.set k v (pos ttl) st).0 ≡ true
  pub is_open-delete :
      (k : Text) (st : B.State) → is_open st ≡ true → is_open (B.delete k st).0 ≡ true
  pub list_prefix :
      (prefix : Text) (st : B.State) {keys : List Text}
      → B.list prefix st ≡ ok keys
      → All (λ k. has_prefix k prefix ≡ true) keys
