-- ===== src/Kvs/Memory/Trace.antt =====
-- Runs of the in-memory key-value store (kvs/backend/memory/memory.go): calls of its methods,
-- interleaved with ticks of the goroutine that removes expired entries.
use omnistorage_core.Base.{
  ℕ, ◌≤◌, ◌≡◌, refl, none, List, [], ◌∷◌, arith, Result, ok, ℤ, ap, nat_eq, list_eq,
}
use omnistorage_core.Base.Dict
use omnistorage_core.Base.Dict.{NodupKeys}
use omnistorage_core.Base.Text.{Text}
use omnistorage_core.Kvs.{KvsError}
use omnistorage_core.Kvs.Memory
use omnistorage_core.Kvs.Memory.{Store, init, remove_expired}
use omnistorage_core.Kvs.Memory.Agreement.{
  Agree, get-Agree, list-Agree, remove_expired-Agree, set-Agree, delete-Agree, close-Agree,
  later-Agree,
}
use omnistorage_core.Kvs.Memory.View.{live}

pub data Call : Type 0 where
  get : Text → Call
  set : Text → Text → ℤ → Call
  delete : Text → Call
  list : Text → Call
  close len : Call

pub data Reply : Type 0 where
  value : Result KvsError Text → Reply
  done : Result KvsError (Unit {0}) → Reply
  names : Result KvsError (List Text) → Reply
  number : ℕ → Reply

pub data Event : Type 0 where
  call : Call → Event
  cleanup : Event

unfoldable pub respond : ℕ → Call → Store → Store × Reply
respond now (Call.get k) s = (s, value (Memory.get now k s))
respond now (Call.set k v ttl) s = let (s', r) = Memory.set now k v ttl s in (s', done r)
respond now (Call.delete k) s = let (s', r) = Memory.delete k s in (s', done r)
respond now (Call.list p) s = (s, names (Memory.list now p s))
respond now Call.close s = (Memory.close s, done (ok tt))
respond now Call.len s = (s, number (Memory.len s))

-- The store after a run.
unfoldable pub final : List (ℕ × Event) → Store → Store
final [] s = s
final ((now, call c) ∷ es) s = final es (respond now c s).0
final ((now, cleanup) ∷ es) s = final es (remove_expired now s)

-- The replies of a run.
unfoldable pub run : List (ℕ × Event) → Store → List Reply
run [] s = []
run ((now, call c) ∷ es) s = (respond now c s).1 ∷ run es (respond now c s).0
run ((now, cleanup) ∷ es) s = run es (remove_expired now s)

unfoldable pub without_cleanup : List (ℕ × Event) → List (ℕ × Event)
without_cleanup [] = []
without_cleanup ((now, call c) ∷ es) = (now, call c) ∷ without_cleanup es
without_cleanup ((now, cleanup) ∷ es) = without_cleanup es

-- The clock does not run backwards.
abbrev pub IsTimed : ℕ → List (ℕ × Event) → Type 0
IsTimed start [] = Unit
IsTimed start ((now, _) ∷ es) = (start ≤ now) × IsTimed now es

-- What two runs answer to the same call: the same, but for `Len`, which the one may answer with a
-- smaller number.
abbrev pub IsAnswer : Reply → Reply → Type 0
IsAnswer (number m) (number n) = m ≤ n
IsAnswer (number m) (value r) = ⊥
IsAnswer (number m) (done r) = ⊥
IsAnswer (number m) (names r) = ⊥
IsAnswer (value q) r = value q ≡ r
IsAnswer (done q) r = done q ≡ r
IsAnswer (names q) r = names q ≡ r

abbrev pub AreAnswers : List Reply → List Reply → Type 0
AreAnswers [] [] = Unit
AreAnswers [] (r ∷ rs) = ⊥
AreAnswers (q ∷ qs) [] = ⊥
AreAnswers (q ∷ qs) (r ∷ rs) = IsAnswer q r × AreAnswers qs rs

pub respond-NodupKeys :
    (now : ℕ) (c : Call) (s : Store) → NodupKeys s.entries → NodupKeys (respond now c s).0.entries
unfolding respond Memory.set Memory.delete Memory.close
respond-NodupKeys now (Call.get k) s u = u
respond-NodupKeys now (Call.set k v ttl) s u =
    ground (arith, Dict.insert-NodupKeys k (Memory.new_entry now v ttl) s.entries u)
respond-NodupKeys now (Call.delete k) s u = ground (arith, Dict.erase-NodupKeys k s.entries u)
respond-NodupKeys now (Call.list p) s u = u
respond-NodupKeys now Call.close s u = ground arith
respond-NodupKeys now Call.len s u = u

respond-is_closed :
    (now : ℕ) (c : Call) (s t : Store)
    → s.is_closed ≡ t.is_closed
    → (respond now c s).0.is_closed ≡ (respond now c t).0.is_closed
unfolding respond Memory.set Memory.delete Memory.close
respond-is_closed now (Call.get k) s t h = h
respond-is_closed now c s t h = ground arith

respond-views :
    (now : ℕ) (c : Call) {s t : Store}
    → Agree now s t
    → (later : ℕ) (k : Text) → now ≤ later
    → live later (respond now c s).0 k ≡ live later (respond now c t).0 k
unfolding respond
respond-views now (Call.get k) a = a.views
respond-views now (Call.set k v ttl) a = set-Agree now k v ttl a
respond-views now (Call.delete k) a = delete-Agree now k a
respond-views now (Call.list p) a = a.views
respond-views now Call.close a = close-Agree now a
respond-views now Call.len a = a.views

respond-fewer :
    (now : ℕ) (c : Call) {s t : Store}
    → Agree now s t
    → (k : Text) → Dict.lookup k (respond now c t).0.entries ≡ none
    → Dict.lookup k (respond now c s).0.entries ≡ none
unfolding respond Memory.set Memory.delete Memory.close
respond-fewer now (Call.get k') a k gone = a.fewer k gone
respond-fewer now (Call.set key v ttl) {s} {t} a k gone =
    let e = Memory.new_entry now v ttl in
    ground (
      arith,
      a.fewer k,
      a.closing,
      Dict.lookup-insert k key e s.entries,
      Dict.lookup-insert k key e t.entries,
    )
respond-fewer now (Call.delete key) {s} {t} a k gone = ground (
  arith,
  a.fewer k,
  a.closing,
  Dict.lookup-erase k key s.entries,
  Dict.lookup-erase k key t.entries,
)
respond-fewer now (Call.list p) a k gone = a.fewer k gone
respond-fewer now Call.close {s} {t} a k gone =
    ground (arith, a.fewer k, a.closing, Dict.lookup-nil {V = Memory.Entry} k)
respond-fewer now Call.len a k gone = a.fewer k gone

respond-Agree :
    (now : ℕ) (c : Call) {s t : Store}
    → Agree now s t
    → Agree now (respond now c s).0 (respond now c t).0
respond-Agree now c {s} {t} a = record {
  closing = respond-is_closed now c s t a.closing;
  views = respond-views now c a;
  fewer = respond-fewer now c a;
  left = respond-NodupKeys now c s a.left;
  right = respond-NodupKeys now c t a.right;
}

reply-Agree :
    (now : ℕ) (c : Call) {s t : Store}
    → Agree now s t
    → IsAnswer (respond now c s).1 (respond now c t).1
unfolding respond Memory.set Memory.delete Memory.len
reply-Agree now (Call.get k) a = ap value (get-Agree now k a)
reply-Agree now (Call.set k v ttl) a = ground (arith, a.closing)
reply-Agree now (Call.delete k) a = ground (arith, a.closing)
reply-Agree now (Call.list p) a = ap names (list-Agree now p a)
reply-Agree now Call.close a = refl
reply-Agree now Call.len {s} {t} a = Dict.length-le s.entries t.entries a.left a.fewer

run-Agree :
    (es : List (ℕ × Event)) {start : ℕ} {s t : Store}
    → IsTimed start es
    → Agree start s t
    → AreAnswers (run es s) (run (without_cleanup es) t)
unfolding run without_cleanup
run-Agree [] h a = tt
run-Agree ((now, call c) ∷ es) (h, hs) a =
    let b = later-Agree h a in (reply-Agree now c b, run-Agree es hs (respond-Agree now c b))
run-Agree ((now, cleanup) ∷ es) (h, hs) a = run-Agree es hs (remove_expired-Agree _ now h a)

-- On a store that lists no key twice, under a clock that does not go back, the cleanup goroutine can be
-- observed through `Len` alone: a run with its ticks left out, wherever they fell between the calls,
-- gives the same replies to Get, Set, Delete, List and Close, and no smaller ones to Len.
pub run-without_cleanup :
    (es : List (ℕ × Event)) (start : ℕ) (s : Store)
    → NodupKeys s.entries
    → IsTimed start es
    → AreAnswers (run es s) (run (without_cleanup es) s)
run-without_cleanup es start s u h = run-Agree es h (record {
  closing = refl;
  views = λ later k g. refl;
  fewer = λ k gone. gone;
  left = u;
  right = u;
})
