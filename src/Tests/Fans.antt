-- ===== src/Tests/Fans.antt =====
-- A small multi-writer (object/multi/writer.go), and instances of its theorems.
use omnistorage_core.Base.{
  ℕ, ◌+◌, ◌≡◌, refl, false, List, [], ◌∷◌, ◌++◌, ltb, if◌then◌else◌, ◌==◌, list_eq, nat_eq, length,
  ok, err, is_ok,
}
use omnistorage_core.Object.Multi
use omnistorage_core.Object.Multi.{
  Target, Mode, write_all, write_best_effort, write_quorum, Error, writer_closed, Fan, Writers,
}
use omnistorage_core.Object.Multi.Outcomes.{suffices, takers, is_ok-write}

program : Unit {0}
unfolding Multi.valid_backends Multi.new_fan Multi.close_silently Multi.open_each Multi.new_writer
    Multi.write_each Multi.write Multi.close_each Multi.close list_eq nat_eq
program = tt

-- A backend is the number of bytes that a writer of it holds. One of no bytes does not open, and a
-- write that does not fit fails.
abbrev disks : Target
disks = record {
  Backend = ℕ;
  Writer = ℕ × List ℕ;
  Failure = ℕ;
  new_writer = λ n. if n == 0 then err 0 else ok (n, []);
  write = λ bytes w.
      (if ltb w.0 (length w.1 + length bytes)
        then (w, err 1)
        else ((w.0, w.1 ++ bytes), ok (length bytes)));
  close = λ w. (w, if w.1 == [] then err 2 else ok tt);
}

abbrev fan : Mode → Fan ℕ
fan mode = record { backends = 2 ∷ 0 ∷ 9 ∷ 9 ∷ []; mode = mode }

abbrev three : Mode → Writers (ℕ × List ℕ) ℕ
three mode = record {
  writers = (2, []) ∷ (9, []) ∷ (9, []) ∷ [];
  mode = mode;
  errs = [];
  is_closed = false;
}

abbrev chunk : List ℕ
chunk = 7 ∷ 7 ∷ 7 ∷ []

-- Two of three writers take the chunk.
quorum : (Multi.write disks chunk (three write_quorum)).1 ≡ ok 3
unfolding program
quorum = refl

is_ok-write_example :
    is_ok (Multi.write disks chunk (three write_quorum)).1
    ≡ suffices write_quorum (takers disks chunk (three write_quorum).writers) 3
is_ok-write_example = is_ok-write disks chunk (three write_quorum) refl
