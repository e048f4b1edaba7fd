-- ===== src/Sync/Content.antt =====
-- object/sync/check.go: the loop of `compareContent`, which compares two open readers.
pub mod Equality
use omnistorage_core.Base.{
  ℕ, zero, suc, Bool, true, false, not, Option, none, some, List, [], ◌∷◌, ◌++◌, leb, length, take,
  drop, if◌then◌else◌, ◌==◌, list_eq, nat_eq, Result, ok, err,
}
use omnistorage_core.Object.{Error}
use omnistorage_core.Object.Backend.{Stream}
use omnistorage_core.Object.Hashing.{concat}

-- the size of the buffers
abbrev pub buffer_size : ℕ
buffer_size = 65536

-- What is left of an open reader, and how it ends: `none` is the end of the file.
pub record Rest : Type 0 where
  pub content : List ℕ
  pub failure : Option Error

-- How `io.ReadFull` returns: with a full buffer, at the end of the file (before it or in it), or failing.
pub data ReadFull : Type 0 where
  full end_of_file : ReadFull
  failed : Error → ReadFull

unfoldable pub ended : Option Error → ReadFull
ended none = ReadFull.end_of_file
ended (some e) = ReadFull.failed e

-- `io.ReadFull` into a buffer of the given size
unfoldable pub read_full : ℕ → Rest → List ℕ × ReadFull × Rest
read_full size r =
    let left : Rest = record r { content = drop size r.content } in
    (
      take size r.content,
      if leb size (length r.content) then ReadFull.full else ended r.failure,
      left,
    )

-- the tests of the loop behind the comparison of the two buffers: whether the loop returns, and what
unfoldable pub verdict : ReadFull → ReadFull → Option (Result Error Bool)
verdict ReadFull.end_of_file ReadFull.end_of_file = some (ok true)
verdict ReadFull.end_of_file ReadFull.full = some (ok false)
verdict ReadFull.end_of_file (ReadFull.failed _) = some (ok false)
verdict ReadFull.full ReadFull.end_of_file = some (ok false)
verdict ReadFull.full ReadFull.full = none
verdict ReadFull.full (ReadFull.failed e) = some (err e)
verdict (ReadFull.failed _) ReadFull.end_of_file = some (ok false)
verdict (ReadFull.failed e) ReadFull.full = some (err e)
verdict (ReadFull.failed e) (ReadFull.failed _) = some (err e)

-- The loop of `compareContent`, with fuel; `none` is where the fuel has run out.
unfoldable pub compare_loop : ℕ → ℕ → Rest → Rest → Option (Result Error Bool)
compare_loop zero size a b = none
compare_loop (suc fuel) size a b =
    let (x, i, a') = read_full size a in
    let (y, j, b') = read_full size b in
    let rest = compare_loop fuel size a' b' in
    if not (length x == length y)
    then some (ok false)
    else if not (x == y)
    then some (ok false)
    else elim (verdict i j) [ some r ↦ some r | none ↦ rest ]

-- an open reader, of which nothing has been read
unfoldable pub opened : Stream → Rest
opened s = record { content = concat s.chunks; failure = s.failure }
