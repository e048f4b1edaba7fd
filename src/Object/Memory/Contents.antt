-- ===== src/Object/Memory/Contents.antt =====
-- What is written to the in-memory object backend (object/backend/memory/backend.go) is what is
-- read from it.
use omnistorage_core.Base.{
  ℕ, zero, suc, ◌<◌, ◌≡◌, refl, ap, ◌∙◌, true, false, Option, none, some, List, [], ◌∷◌, ◌++◌,
  arith, if◌then◌else◌, ◌==◌, list_eq, nat_eq, length, drop, length-drop, take-append-drop, ok, err,
  ℤ,
}
use omnistorage_core.Base.Dict
use omnistorage_core.Base.Dict.{Dict, NodupKeys}
use omnistorage_core.Base.Text.{Text}
use omnistorage_core.Object.FilePath.{validate_path, normalize_path}
use omnistorage_core.Object.Memory
use omnistorage_core.Object.Memory.{Object, Backend, Writer, Reader, Ctx, check, select}
use mathlib.Core.List.{append_assoc, append-nil}

-- `Write` for each chunk in turn
unfoldable pub write_all : List (List ℕ) → Writer → Writer
write_all [] w = w
write_all (chunk ∷ chunks) w = write_all chunks (Memory.write chunk w).0

abbrev pub concat : List (List ℕ) → List ℕ
concat [] = []
concat (chunk ∷ chunks) = chunk ++ concat chunks

write_all_lem :
    (chunks : List (List ℕ)) (w : Writer)
    → w.is_closed ≡ false
    → write_all chunks w ≡ record w { buffer = w.buffer ++ concat chunks }
unfolding write_all Memory.write
write_all_lem [] w h = rw append-nil
write_all_lem (chunk ∷ chunks) w h =
    let step : (Memory.write chunk w).0 ≡ record w { buffer = w.buffer ++ chunk } = ground arith in
    ap (write_all chunks) step
    ∙ write_all_lem chunks (record w { buffer = w.buffer ++ chunk }) h
    ∙ ap (λ (bs : List ℕ). record w { buffer = bs }) (append_assoc w.buffer chunk (concat chunks))

new_writer_ok :
    (p content_type : Text) (b : Backend) {w : Writer}
    → Memory.new_writer none p content_type b ≡ ok w
    → (b.is_closed ≡ false) × (w.path ≡ normalize_path p) × (w.buffer ≡ []) × (w.is_closed ≡ false)
unfolding Memory.new_writer check
new_writer_ok p content_type b h = ground arith

close_writer_lem :
    (now : ℕ) (w : Writer) (b : Backend)
    → w.is_closed ≡ false
    → b.is_closed ≡ false
    → Memory.close_writer now w b ≡ (
      record w { is_closed = true },
      record b { objects = Dict.insert w.path (Memory.stored now w) b.objects },
      ok tt,
    )
unfolding Memory.close_writer
close_writer_lem now w b h k = ground arith

new_reader-insert :
    (q path : Text) (o : Object) (offset limit : ℤ) (b : Backend)
    → b.is_closed ≡ false
    → validate_path q ≡ ok tt
    → o.is_dir ≡ false
    → Memory.new_reader none q offset limit (record b { objects = Dict.insert path o b.objects })
      ≡ (if normalize_path q == path
          then ok (record { rest = select offset limit o.content; is_closed = false })
          else Memory.new_reader none q offset limit b)
unfolding Memory.new_reader check
new_reader-insert q path o offset limit b alive valid file =
    ground (arith, Dict.lookup-insert (normalize_path q) path o b.objects)

-- Any number of writes to a new writer, then its `Close`, on an open backend: a reader that is
-- opened on a path with the same normal form reads the selected part of all that was written, in
-- order, and a reader on any other path is what it was.
pub read-write :
    (now : ℕ) (p q content_type : Text) (offset limit : ℤ) (chunks : List (List ℕ)) (b : Backend)
    {w : Writer}
    → Memory.new_writer none p content_type b ≡ ok w
    → validate_path q ≡ ok tt
    → let (w', b', r) = Memory.close_writer now (write_all chunks w) b in
      (r ≡ ok tt)
      × (Memory.new_reader none q offset limit b' ≡ (
          if normalize_path q == normalize_path p
          then ok (record { rest = select offset limit (concat chunks); is_closed = false })
          else Memory.new_reader none q offset limit b))
read-write now p q content_type offset limit chunks b {w} opened valid =
    let (alive, path, empty, fresh) = new_writer_ok p content_type b opened in
    let last = write_all chunks w in
    let all : last ≡ record w { buffer = concat chunks } =
      write_all_lem chunks w fresh
      ∙ ap (λ (bs : List ℕ). record w { buffer = bs ++ concat chunks }) empty in
    rw (all, close_writer_lem now (record w { buffer = concat chunks }) b fresh alive)
      (refl, rw path (new_reader-insert q (normalize_path p) _ offset limit b alive valid refl))

-- `io.ReadAll` over a buffer of the given size, on fuel
unfoldable pub read_all : ℕ → ℕ → Reader → Option (List ℕ)
read_all zero size r = none
read_all (suc fuel) size r = elim (Memory.read size r).1 [
  | err e ↦ none
  | ok none ↦ some []
  | ok (some chunk) ↦ elim (read_all fuel size (Memory.read size r).0) [
    | none ↦ none
    | some rest ↦ some (chunk ++ rest)
  ]
]

-- Reading an open reader to its end takes no more rounds than there are bytes, and yields them all,
-- whatever the size of the buffer.
pub read_all_lem :
    (fuel size : ℕ) (r : Reader)
    → 0 < size
    → r.is_closed ≡ false
    → length r.rest < fuel
    → read_all fuel size r ≡ some r.rest
unfolding read_all Memory.read
read_all_lem zero size r s h f = absurd (omega arith)
read_all_lem (suc fuel) size r s h f =
    let left : Reader = record r { rest = drop size r.rest } in
    ground (
      arith,
      read_all_lem fuel size left s h,
      length-drop size r.rest,
      take-append-drop size r.rest,
    )
