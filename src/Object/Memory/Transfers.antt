-- ===== src/Object/Memory/Transfers.antt =====
-- `Copy`, `Move` and `Delete` of the in-memory object backend (object/backend/memory/backend.go).
use omnistorage_core.Base.{
  ℕ, ◌≡◌, inl, inr, false, Option, none, some, arith, if◌then◌else◌, Option-cases, ◌==◌, list_eq,
  nat_eq, ok, Result-cases,
}
use omnistorage_core.Base.Dict
use omnistorage_core.Base.Dict.{Dict, NodupKeys}
use omnistorage_core.Base.Text.{Text}
use omnistorage_core.Object.FilePath.{validate_path, normalize_path}
use omnistorage_core.Object.Memory
use omnistorage_core.Object.Memory.{Object, Backend, Writer, Reader, Ctx, check, select}

-- the object stored under the normal form of a path
abbrev pub at : Text → Backend → Option Object
at p b = Dict.lookup (normalize_path p) b.objects

transfer_ok :
    (ctx : Ctx) (now : ℕ) (src dst : Text) (b : Backend) {x : Object}
    → Memory.transfer ctx now src dst b ≡ ok x
    → (o : Object) × (at src b ≡ some o) × (o.is_dir ≡ false) × (x ≡ record o { mod_time = now })
unfolding Memory.transfer
transfer_ok ctx now src dst b {x} h = elim (Option-cases (at src b)) [
  | inl gone ↦ absurd (ground arith)
  | inr (o, found) ↦ (o, found, ground arith, ground arith)
]

-- A `Copy` that succeeds stores the source's content and type under the destination, with a new
-- time, and leaves every other path as it is.
pub copy_lem :
    (ctx : Ctx) (now : ℕ) (src dst q : Text) (b : Backend)
    → (Memory.copy ctx now src dst b).1 ≡ ok tt
    → (o : Object) × (at src b ≡ some o)
      × (o.is_dir ≡ false)
      × (at q (Memory.copy ctx now src dst b).0 ≡ (
          if normalize_path q == normalize_path dst
          then some (record o { mod_time = now })
          else at q b))
unfolding Memory.copy
copy_lem ctx now src dst q b h = elim (Result-cases (Memory.transfer ctx now src dst b)) [
  | inl (x, moved) ↦
      let (o, found, file, same) = transfer_ok ctx now src dst b moved in
      (
        o,
        found,
        file,
        ground (arith, Dict.lookup-insert (normalize_path q) (normalize_path dst) x b.objects),
      )
  | inr (e, failed) ↦ absurd (ground arith)
]

-- A `Move` that succeeds leaves nothing under the source, and unless source and destination have
-- one normal form it stores the source's content and type under the destination with a new time;
-- every other path is as it was.
pub move_lem :
    (ctx : Ctx) (now : ℕ) (src dst q : Text) (b : Backend)
    → (Memory.move ctx now src dst b).1 ≡ ok tt
    → (o : Object) × (at src b ≡ some o)
      × (o.is_dir ≡ false)
      × (at q (Memory.move ctx now src dst b).0 ≡ (
          if normalize_path q == normalize_path src
          then none
          else if normalize_path q == normalize_path dst
          then some (record o { mod_time = now })
          else at q b))
unfolding Memory.move
move_lem ctx now src dst q b h = elim (Result-cases (Memory.transfer ctx now src dst b)) [
  | inl (x, moved) ↦
      let (o, found, file, same) = transfer_ok ctx now src dst b moved in
      (
        o,
        found,
        file,
        ground (
          arith,
          Dict.lookup-insert (normalize_path q) (normalize_path dst) x b.objects,
          Dict.lookup-erase (normalize_path q) (normalize_path src)
              (Dict.insert (normalize_path dst) x b.objects),
        ),
      )
  | inr (e, failed) ↦ absurd (ground arith)
]

-- On an open backend, a `Move` of a file onto a valid path with the same normal form succeeds and
-- loses the file.
pub move_onto_itself :
    (now : ℕ) (src dst : Text) (b : Backend) {o : Object}
    → b.is_closed ≡ false
    → validate_path src ≡ ok tt
    → validate_path dst ≡ ok tt
    → normalize_path dst ≡ normalize_path src
    → at src b ≡ some o
    → o.is_dir ≡ false
    → ((Memory.move none now src dst b).1 ≡ ok tt)
      × (at src (Memory.move none now src dst b).0 ≡ none)
unfolding Memory.move Memory.transfer check
move_onto_itself now src dst b {o} alive vs vd same found file =
    let x : Object = record o { mod_time = now; is_dir = false } in
    ground (
      arith,
      Dict.lookup-erase (normalize_path src) (normalize_path src)
          (Dict.insert (normalize_path dst) x b.objects),
    )
