-- ===== src/Object/Copying.antt =====
-- object/copy.go and object/move.go: copying and moving a file between two backends. `same_backend`
-- says whether they are one.
pub mod Hashes
use omnistorage_core.Base.{
  ℕ, Bool, true, false, not, Option, none, some, List, [], ◌∷◌, if◌then◌else◌, ◌==◌, list_eq,
  nat_eq, length, Result, ok, err, ◌++◌,
}
use omnistorage_core.Base.Text.{Text}
use omnistorage_core.Object.{Error}
use omnistorage_core.Object.Backend.{Backend, WriterOption}
use omnistorage_core.Object.Hashing.{Digests, new_hash, hash_bytes_from_sum}

-- `io.Copy` of the chunks of a reader to an open writer; `some` is its error.
unfoldable pub copy_chunks :
    {W : Type 0} → Backend W → ℕ → List (List ℕ) → Option Error → W → W × Option Error
copy_chunks dst h [] failure w = (w, failure)
copy_chunks dst h (chunk ∷ chunks) failure w =
    let (w', r) = dst.write h chunk w in
    let rest = copy_chunks dst h chunks failure w' in
    elim r [
      | err e ↦ (w', some e)
      | ok n ↦ if n == length chunk then rest else (w', some Error.short_write)
    ]

-- `io.Copy` into an `io.MultiWriter` of a writer and a hash, which gets what the writer has taken. The
-- last component is what has been hashed.
unfoldable pub copy_hashed :
    {W : Type 0}
    → Backend W
    → ℕ
    → List (List ℕ)
    → Option Error
    → List ℕ
    → W
    → W × Option Error × List ℕ
copy_hashed dst h [] failure hashed w = (w, failure, hashed)
copy_hashed dst h (chunk ∷ chunks) failure hashed w =
    let (w', r) = dst.write h chunk w in
    let rest = copy_hashed dst h chunks failure (hashed ++ chunk) w' in
    elim r [
      | err e ↦ (w', some e, hashed)
      | ok n ↦ if n == length chunk then rest else (w', some Error.short_write, hashed)
    ]

abbrev is_not_supported : Error → Bool
is_not_supported Error.not_supported = true
is_not_supported Error.not_found = false
is_not_supported Error.backend_closed = false
is_not_supported Error.writer_closed = false
is_not_supported Error.reader_closed = false
is_not_supported Error.invalid_path = false
is_not_supported Error.is_directory = false
is_not_supported Error.not_directory = false
is_not_supported Error.directory_not_empty = false
is_not_supported Error.context = false
is_not_supported Error.short_write = false
is_not_supported Error.unknown_backend = false
is_not_supported Error.permission_denied = false
is_not_supported (Error.wrapped e) = false
is_not_supported (Error.other n) = false

module _ {W : Type 0} (src dst : Backend W) where
  -- `CopyPath`
  unfoldable pub copy_path : Text → Text → List WriterOption → W → W × Result Error (Unit {0})
  copy_path p q os w = elim (src.new_reader p w) [
    | err e ↦ (w, err e)
    | ok reader ↦
        let (w1, opened) = dst.new_writer q os w in
        elim opened [
          | err e ↦ (w1, err e)
          | ok h ↦
              let (w2, failed) = copy_chunks dst h reader.chunks reader.failure w1 in
              let (w3, closed) = dst.close_writer h w2 in
              (w3, elim failed [ none ↦ closed | some e ↦ err e ])
        ]
  ]

  -- `CopyPathWithHash`
  unfoldable pub copy_path_with_hash :
      Digests → Text → Text → Text → List WriterOption → W → W × Result Error Text
  copy_path_with_hash ds t p q os w = elim (src.new_reader p w) [
    | err e ↦ (w, err e)
    | ok reader ↦
        let (w1, opened) = dst.new_writer q os w in
        elim opened [
          | err e ↦ (w1, err e)
          | ok h ↦ elim (new_hash ds t) [
            | none ↦ ((dst.close_writer h w1).0, err Error.not_supported)
            | some digest ↦
                let (w2, failed, hashed) = copy_hashed dst h reader.chunks reader.failure [] w1 in
                let (w3, closed) = dst.close_writer h w2 in
                (
                  w3,
                  elim failed [
                    | some e ↦ err e
                    | none ↦ elim closed [
                      | err e ↦ err e
                      | ok _ ↦ ok (hash_bytes_from_sum (digest hashed))
                    ]
                  ],
                )
          ]
        ]
  ]

  -- `MovePath`
  unfoldable pub move_path : Text → Text → List WriterOption → W → W × Result Error (Unit {0})
  move_path p q os w =
      let (w', r) = copy_path p q os w in elim r [ err e ↦ (w', err e) | ok _ ↦ src.delete p w' ]

  -- what a server-side operation returns, or else a fallback
  abbrev or_fallback :
      W × Result Error (Unit {0}) → (W → W × Result Error (Unit {0})) → W × Result Error (Unit {0})
  or_fallback (w, ok _) fallback = (w, ok tt)
  or_fallback (w, err e) fallback = if is_not_supported e then fallback w else (w, err e)

  -- `SmartCopy`
  unfoldable pub smart_copy :
      Bool → Text → Text → List WriterOption → W → W × Result Error (Unit {0})
  smart_copy same_backend p q os w =
      if not same_backend then copy_path p q os w else elim src.extended [
        | none ↦ copy_path p q os w
        | some ext ↦
            if ext.copies
            then or_fallback (ext.copy p q w) (copy_path p q os)
            else copy_path p q os w
      ]

  -- `SmartMove`
  unfoldable pub smart_move :
      Bool → Text → Text → List WriterOption → W → W × Result Error (Unit {0})
  smart_move same_backend p q os w =
      if not same_backend then move_path p q os w else elim src.extended [
        | none ↦ move_path p q os w
        | some ext ↦
            if ext.moves
            then or_fallback (ext.move p q w) (move_path p q os)
            else move_path p q os w
      ]
