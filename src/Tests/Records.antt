-- ===== src/Tests/Records.antt =====
-- Runs of the line format (object/format/ndjson), and instances of the theorems on it.
use omnistorage_core.Base.{
  ℕ, ◌≡◌, refl, none, some, List, [], ◌∷◌, ◌++◌, arith, list_eq, nat_eq, if◌then◌else◌,
}
use omnistorage_core.Base.Text.{Text, bytes}
use omnistorage_core.Object.Ndjson
use omnistorage_core.Object.Ndjson.RoundTrip
use omnistorage_core.Object.Ndjson.Reading
use omnistorage_core.Object.Ndjson.{
  Sink, Reader, Answer, new_writer, new_reader_size, close_writer, trim_right, is_trimmed, read,
  write_json, err_too_long,
}
use omnistorage_core.Object.Ndjson.Reading.{read_times, IsRecord, read_total}
use omnistorage_core.Object.Ndjson.RoundTrip.{
  write_all, IsLawful, read_times-write_all, read-write_all_long,
}

abbrev in_memory : Sink (List ℕ)
in_memory = record {
  write = λ cs s. (s ++ cs, none);
  flush = λ s. (s, none);
  close = λ s. (s, none);
}

lawful : IsLawful in_memory (λ s. s)
lawful = record {
  writes = λ cs s. (refl, refl);
  flushes = λ s. (refl, refl);
  closes = λ s. (refl, refl);
}

trim_left : List ℕ → List ℕ
trim_left [] = []
trim_left (c ∷ cs) = let rest = trim_left cs in if is_trimmed c then rest else c ∷ cs

abbrev trim_space : List ℕ → List ℕ
trim_space cs = trim_left (trim_right cs)

program : Unit {0}
unfolding trim_left Ndjson.trim_right Ndjson.write Ndjson.write_json Ndjson.flush
    Ndjson.close_writer Ndjson.take_line Ndjson.drop_cr Ndjson.scan Ndjson.read_loop Ndjson.read
    RoundTrip.write_all Reading.read_times list_eq nat_eq
program = tt

abbrev records : List Text
records = bytes "one" ∷ bytes "two 2" ∷ []

-- Blank lines are passed over, and the carriage return of a line is cut off.
uneven :
    read_times trim_space 3 (
      new_reader_size
        (record {
          chunks = (bytes "one" ++ b'\r' ∷ b'\n' ∷ b' ' ∷ []) ∷ (b'\n' ∷ bytes "two") ∷ [];
          failure = none;
        })
        none
        8)
    ≡ some (Answer.line (bytes "one")) ∷ some (Answer.line (bytes "two")) ∷ some Answer.eof ∷ []
unfolding program
uneven = refl

trimmed :
    (write_json in_memory (bytes "one" ++ b' ' ∷ b'\n' ∷ []) (new_writer in_memory [])).0.sink
    ≡ bytes "one" ++ b'\n' ∷ []
unfolding program
trimmed = refl

one-IsRecord : IsRecord trim_space 8 (bytes "one")
unfolding program
one-IsRecord = record { one_line = refl; fits = omega arith; no_cr = refl; not_blank = refl }

two-IsRecord : IsRecord trim_space 8 (bytes "two 2")
unfolding program
two-IsRecord = record { one_line = refl; fits = omega arith; no_cr = refl; not_blank = refl }

read_times-write_all_example :
    let (w, failed) = write_all in_memory records (new_writer in_memory []) in
    let (w', failed') = close_writer in_memory w in
    (failed ≡ none)
    × (failed' ≡ none)
    × (read_times trim_space 3
          (new_reader_size (record { chunks = w'.sink ∷ []; failure = none }) none 8)
        ≡ some (Answer.line (bytes "one"))
          ∷ some (Answer.line (bytes "two 2"))
          ∷ some Answer.eof
          ∷ [])
read_times-write_all_example =
    read_times-write_all in_memory (λ s. s) lawful trim_space 8 records [] refl
      (one-IsRecord, (two-IsRecord, tt))

read-write_all_long_example :
    let (w, failed) = write_all in_memory records (new_writer in_memory []) in
    let r = new_reader_size (record { chunks = w.sink ∷ []; failure = none }) none 3 in
    (failed ≡ none) × ((read trim_space r).1 ≡ some (Answer.failed err_too_long))
unfolding program
read-write_all_long_example =
    read-write_all_long in_memory (λ s. s) lawful trim_space 3 (bytes "one") (bytes "two 2" ∷ []) []
      refl refl (omega arith)
