-- ===== src/Kvs/Memory/Closing.antt =====
-- The life of the in-memory key-value store (kvs/backend/memory/memory.go) up to and after Close.
use omnistorage_core.Base.{
  ℕ, ◌≡◌, refl, ap, ◌∙◌, length, true, List, [], ◌∷◌, arith, ok, err, nat_eq, list_eq,
  if◌then◌else◌,
}
use omnistorage_core.Base.Dict.{NodupKeys}
use omnistorage_core.Kvs.{closed}
use omnistorage_core.Kvs.Memory
use omnistorage_core.Kvs.Memory.{Store, remove_expired, len}
use omnistorage_core.Kvs.Memory.Agreement.{remove_expired-NodupKeys}
use omnistorage_core.Kvs.Memory.Trace.{
  Call, Reply, value, done, names, number, Event, call, cleanup, respond, final, respond-NodupKeys,
}

-- No key is stored twice; a closed store holds nothing and has signalled its goroutine once, an
-- open one never.
pub record IsValid (s : Store) : Type 0 where
  pub distinct : NodupKeys s.entries
  pub emptied : s.entries ≡ (if s.is_closed then [] else s.entries)
  pub signalled : s.stop_signals ≡ (if s.is_closed then 1 else 0)

emptied_lem :
    (now : ℕ) (c : Call) (s : Store)
    → IsValid s
    → (respond now c s).0.entries
      ≡ (if (respond now c s).0.is_closed then [] else (respond now c s).0.entries)
unfolding respond Memory.set Memory.delete Memory.close
emptied_lem now (Call.get k) s v = v.emptied
emptied_lem now c s v = ground (arith, v.emptied)

signalled_lem :
    (now : ℕ) (c : Call) (s : Store)
    → IsValid s
    → (respond now c s).0.stop_signals ≡ (if (respond now c s).0.is_closed then 1 else 0)
unfolding respond Memory.set Memory.delete Memory.close
signalled_lem now (Call.get k) s v = v.signalled
signalled_lem now c s v = ground (arith, v.signalled)

remove_expired-IsValid : (now : ℕ) (s : Store) → IsValid s → IsValid (remove_expired now s)
unfolding remove_expired
remove_expired-IsValid now s v = record {
  distinct = remove_expired-NodupKeys now s v.distinct;
  emptied = ground (arith, v.emptied);
  signalled = ground (arith, v.signalled);
}

respond-IsValid : (now : ℕ) (c : Call) (s : Store) → IsValid s → IsValid (respond now c s).0
respond-IsValid now c s v = record {
  distinct = respond-NodupKeys now c s v.distinct;
  emptied = emptied_lem now c s v;
  signalled = signalled_lem now c s v;
}

-- Every run keeps a store valid: whatever is called, in any order, the stop channel is closed at
-- most once, exactly when the store is.
pub final-IsValid : (es : List (ℕ × Event)) (s : Store) → IsValid s → IsValid (final es s)
unfolding final
final-IsValid [] s v = v
final-IsValid ((now, call c) ∷ es) s v = final-IsValid es _ (respond-IsValid now c s v)
final-IsValid ((now, cleanup) ∷ es) s v = final-IsValid es _ (remove_expired-IsValid now s v)

abbrev refusal : Call → Reply
refusal (Call.get k) = value (err closed)
refusal (Call.set k v ttl) = done (err closed)
refusal (Call.delete k) = done (err closed)
refusal (Call.list p) = names (err closed)
refusal Call.close = done (ok tt)
refusal Call.len = number 0

refused :
    (now : ℕ) (c : Call) (s : Store)
    → IsValid s
    → s.is_closed ≡ true
    → (respond now c s).1 ≡ refusal c
unfolding respond Memory.get Memory.set Memory.delete Memory.list Memory.len
refused now Call.len s v h =
    let gone : s.entries ≡ [] = v.emptied ∙ rw h refl in ap (λ es. number (length es)) gone
refused now (Call.get k) s v h = ground arith
refused now c s v h = ground arith

respond_stays : (now : ℕ) (c : Call) (s : Store) → s.is_closed ≡ true → (respond now c s).0 ≡ s
unfolding respond Memory.set Memory.delete Memory.close
respond_stays now (Call.get k) s h = refl
respond_stays now c s h = ground arith

cleanup_stays : (now : ℕ) (s : Store) → s.is_closed ≡ true → remove_expired now s ≡ s
unfolding remove_expired
cleanup_stays now s h = ground arith

final_stays : (es : List (ℕ × Event)) (s : Store) → s.is_closed ≡ true → final es s ≡ s
unfolding final
final_stays [] s h = refl
final_stays ((now, call c) ∷ es) s h = rw (respond_stays now c s h) (final_stays es s h)
final_stays ((now, cleanup) ∷ es) s h = rw (cleanup_stays now s h) (final_stays es s h)

-- Once closed, a store stays as it is for ever, and every call on it but `Close` and `Len`
-- fails with `ErrClosed`.
pub final_closed :
    (es : List (ℕ × Event)) (now : ℕ) (c : Call) (s : Store)
    → IsValid s
    → s.is_closed ≡ true
    → (final es s ≡ s) × ((respond now c (final es s)).1 ≡ refusal c)
final_closed es now c s v h = let stay = final_stays es s h in (stay, rw stay (refused now c s v h))
