-- ===== src/Object/Ndjson/RoundTrip.antt =====
-- What the reader of object/format/ndjson makes of what its writer has written.
use omnistorage_core.Base.{
  ℕ, suc, ◌≤◌, ◌≡◌, refl, ◌∙◌, false, Option, none, some, List, [], ◌∷◌, ◌++◌, map, arith, length,
  contains, list_eq, nat_eq, All, ap, sym,
}
use mathlib.Core.List.{append-nil, append_assoc}
use omnistorage_core.Object.{Error}
use omnistorage_core.Object.Ndjson.{
  Sink, Writer, new_writer, write, close_writer, Reader, new_reader_size, Scanned, scan,
  err_too_long, Answer, read_loop, read,
}
use omnistorage_core.Object.Ndjson.Reading.{
  read_times, lines, IsRecord, read_times-lines, scan-append,
}

-- What a sink promises: it keeps what is written, in order, and does not fail.
pub record IsLawful {S : Type 0} (B : Sink S) (written : S → List ℕ) : Type 0 where
  pub writes :
      (cs : List ℕ) (s : S)
      → ((B.write cs s).1 ≡ none) × (written (B.write cs s).0 ≡ written s ++ cs)
  pub flushes : (s : S) → ((B.flush s).1 ≡ none) × (written (B.flush s).0 ≡ written s)
  pub closes : (s : S) → ((B.close s).1 ≡ none) × (written (B.close s).0 ≡ written s)

module _ {S : Type 0} (B : Sink S) where
  -- Records written one after the other, up to the first error.
  unfoldable pub write_all : List (List ℕ) → Writer S → Writer S × Option Error
  write_all [] w = (w, none)
  write_all (l ∷ ls) w =
      let (w', failed) = write B l w in
      let rest = write_all ls w' in elim failed [ some e ↦ (w', some e) | none ↦ rest ]

  module _ (written : S → List ℕ) (lawful : IsLawful B written) where
    write_lem :
        (l : List ℕ) (w : Writer S)
        → w.closed ≡ false
        → ((write B l w).1 ≡ none)
          × ((write B l w).0.closed ≡ false)
          × (written (write B l w).0.sink ≡ written w.sink ++ l ++ b'\n' ∷ [])
    unfolding write
    write_lem l w ready =
        let (fine, kept) = lawful.writes l w.sink in
        let s = (B.write l w.sink).0 in
        let (fine', kept') = lawful.writes (b'\n' ∷ []) s in
        (
          ground (arith, ready, fine, fine'),
          ground (arith, ready, fine, fine'),
          rw (write, ready, fine) (kept' ∙ rw kept refl),
        )

    write_all_lem :
        (ls : List (List ℕ)) (w : Writer S)
        → w.closed ≡ false
        → ((write_all ls w).1 ≡ none)
          × ((write_all ls w).0.closed ≡ false)
          × (written (write_all ls w).0.sink ≡ written w.sink ++ lines ls)
    unfolding write_all
    write_all_lem [] w ready = (refl, ready, sym (append-nil (written w.sink)))
    write_all_lem (l ∷ ls) w ready =
        let (fine, ready', kept) = write_lem l w ready in
        let w' = (write B l w).0 in
        let (fine', ready'', kept') = write_all_lem ls w' ready' in
        rw (write_all, fine)
          (
            fine',
            ready'',
            kept'
                ∙ rw kept (
                    append_assoc (written w.sink ++ l) (b'\n' ∷ []) (lines ls)
                    ∙ append_assoc (written w.sink) l (b'\n' ∷ lines ls)),
          )

    close_lem :
        (w : Writer S)
        → w.closed ≡ false
        → ((close_writer B w).1 ≡ none) × (written (close_writer B w).0.sink ≡ written w.sink)
    unfolding close_writer
    close_lem w ready =
        let (fine, same) = lawful.flushes w.sink in
        let (fine', same') = lawful.closes (B.flush w.sink).0 in
        (ground (arith, ready, fine, fine'), ground (arith, ready, same, same'))

    -- Records of one line each that fit the reader's buffer, are not blank and do not end in a carriage
    -- return come back: written to an empty sink that keeps what its interface promises, which is then closed, they are what a
    -- reader of its content returns, in order, and then the end.
    pub read_times-write_all :
        (trim_space : List ℕ → List ℕ) (size : ℕ) (ls : List (List ℕ)) (s : S)
        → written s ≡ []
        → All (IsRecord trim_space size) ls
        → let (w, failed) = write_all ls (new_writer B s) in
          let (w', failed') = close_writer B w in
          (failed ≡ none)
          × (failed' ≡ none)
          × (read_times trim_space (suc (length ls)) (
                new_reader_size
                  (record { chunks = written w'.sink ∷ []; failure = none })
                  none
                  size)
              ≡ map (λ l. some (Answer.line l)) ls ++ some Answer.eof ∷ [])
    read_times-write_all trim_space size ls s empty good =
        let w = (write_all ls (new_writer B s)).0 in
        let (fine, ready, kept) = write_all_lem ls (new_writer B s) refl in
        let (fine', same) = close_lem w ready in
        let content = written (close_writer B w).0.sink in
        let r : Reader =
          new_reader_size (record { chunks = content ∷ []; failure = none }) none size in
        (
          fine,
          fine',
          read_times-lines trim_space r ls good refl refl
              (append-nil content ∙ same ∙ kept ∙ rw empty refl),
        )

    -- A line that is as long as the reader's buffer, or longer, is written without an error to a sink that keeps
    -- what its interface promises, but a reader of what has been written reports an error in place of it.
    pub read-write_all_long :
        (trim_space : List ℕ → List ℕ) (size : ℕ) (l : List ℕ) (ls : List (List ℕ)) (s : S)
        → written s ≡ []
        → contains l b'\n' ≡ false
        → size ≤ length l
        → let (w, failed) = write_all (l ∷ ls) (new_writer B s) in
          let r =
            new_reader_size (record { chunks = written w.sink ∷ []; failure = none }) none size in
          (failed ≡ none) × ((read trim_space r).1 ≡ some (Answer.failed err_too_long))
    unfolding read read_loop
    read-write_all_long trim_space size l ls s empty one_line long =
        let w = (write_all (l ∷ ls) (new_writer B s)).0 in
        let (fine, ready, kept) = write_all_lem (l ∷ ls) (new_writer B s) refl in
        let content = written w.sink in
        let whole : content ++ [] ≡ l ++ b'\n' ∷ lines ls =
          append-nil content ∙ kept ∙ rw empty refl in
        let found : scan size (content ++ []) ≡ Scanned.too_long =
          ap (scan size) whole ∙ scan-append size l (lines ls) one_line ∙ ground (arith, long) in
        (fine, ground (arith, found))
