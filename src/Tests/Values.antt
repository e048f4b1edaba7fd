-- ===== src/Tests/Values.antt =====
-- Runs of the in-memory key-value store (kvs/backend/memory/memory.go), and instances of its
-- theorems.
use omnistorage_core.Base.{
  ℕ, ◌≡◌, refl, true, ◌&&◌, List, [], ◌∷◌, arith, contains, list_eq, nat_eq, ok, err, is_ok, pos,
}
use omnistorage_core.Base.Dict
use omnistorage_core.Base.Dict.{Dict, NodupKeys}
use omnistorage_core.Base.Sort
use omnistorage_core.Base.Sort.{Ascending}
use omnistorage_core.Base.Text.{Text, bytes, has_prefix, text_lt}
use omnistorage_core.Kvs.{closed}
use omnistorage_core.Kvs.Memory
use omnistorage_core.Kvs.Memory.{Store, init}
use omnistorage_core.Kvs.Memory.View.{list-get}
use omnistorage_core.Kvs.Memory.Trace.{
  Call, value, done, names, number, AreAnswers, Event, call, cleanup, respond, final, run,
  without_cleanup, run-without_cleanup,
}
use omnistorage_core.Kvs.Memory.Closing.{IsValid, final-IsValid}

program : Unit {0}
unfolding Memory.is_expired Memory.get Memory.new_entry Memory.set Memory.delete Memory.is_listed
    Memory.list Memory.close Memory.len Memory.remove_expired respond final run without_cleanup
    Dict.lookup Dict.insert Dict.erase Dict.retain Dict.keys Sort.sort Sort.insert_sorted text_lt
    has_prefix list_eq nat_eq
program = tt

abbrev key : Text
key = bytes "a/1"

abbrev late : Text
late = bytes "a/2"

abbrev content : Text
content = bytes "v"

-- A value with a TTL of 5 is set at 10; the cleanup ticks at 12 and at 20.
abbrev events : List (ℕ × Event)
events =
    (10, call (Call.set key content (pos 5)))
    ∷ (11, call (Call.set late content (pos 0)))
    ∷ (12, cleanup)
    ∷ (12, call Call.len)
    ∷ (13, call (Call.get key))
    ∷ (20, cleanup)
    ∷ (20, call Call.len)
    ∷ (21, call (Call.list (bytes "a/")))
    ∷ (22, call Call.close)
    ∷ (23, cleanup)
    ∷ (24, call (Call.get late))
    ∷ []

replies :
    run events init
    ≡ done (ok tt)
      ∷ done (ok tt)
      ∷ number 2
      ∷ value (ok content)
      ∷ number 1
      ∷ names (ok (late ∷ []))
      ∷ done (ok tt)
      ∷ value (err closed)
      ∷ []
unfolding program
replies = refl

run-without_cleanup_example : AreAnswers (run events init) (run (without_cleanup events) init)
run-without_cleanup_example = run-without_cleanup events 10 init tt (
  omega arith,
  (
    omega arith,
    (
      omega arith,
      (
        omega arith,
        (
          omega arith,
          (
            omega arith,
            (omega arith, (omega arith, (omega arith, (omega arith, (omega arith, tt))))),
          ),
        ),
      ),
    ),
  ),
)

abbrev two : Store
two = record init {
  entries =
      (late, record { value = content; expires_at = 0 })
      ∷ (key, record { value = content; expires_at = 15 })
      ∷ [];
}

two-NodupKeys : NodupKeys two.entries
unfolding program
two-NodupKeys = (refl, (refl, tt))

list-get_example :
    (ks : List Text) × (Memory.list 12 (bytes "a/") two ≡ ok ks)
    × Ascending text_lt ks
    × ((k : Text) → contains ks k ≡ (is_ok (Memory.get 12 k two) && has_prefix k (bytes "a/")))
list-get_example = list-get 12 (bytes "a/") two refl two-NodupKeys

init-IsValid : IsValid init
init-IsValid = record { distinct = tt; emptied = refl; signalled = refl }

final-IsValid_example : IsValid (final events init)
final-IsValid_example = final-IsValid events init init-IsValid

abbrev shut : Store
shut = record { entries = []; is_closed = true; stop_signals = 1 }
