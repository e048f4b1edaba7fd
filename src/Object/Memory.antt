-- ===== src/Object/Memory.antt =====
-- object/backend/memory/backend.go: the in-memory object backend. Methods take what `ctx.Err()` and
-- `time.Now()` return.
pub mod Contents
pub mod Transfers
pub mod Names
use omnistorage_core.Base.{
  ℕ, zero, suc, ◌+◌, Bool, true, false, not, ◌&&◌, ◌||◌, Option, none, some, List, [], ◌∷◌, ◌++◌,
  ltb, if◌then◌else◌, ◌==◌, list_eq, nat_eq, length, take, drop, Result, ok, err, ◌>>=◌, ◌>>◌, ℤ,
  pos_part, is_positive,
}
use omnistorage_core.Base.Dict
use omnistorage_core.Base.Dict.{Dict}
use omnistorage_core.Base.Text.{Text, bytes, has_prefix, sort_texts}
use omnistorage_core.Object.{Error}
use omnistorage_core.Object.FilePath.{split, join, validate_path, normalize_path}

-- `object`
pub record Object : Type 0 where
  pub content : List ℕ
  pub content_type : Text
  pub mod_time : ℕ
  pub is_dir : Bool

-- `Backend`; after `Close` the map is nil, which reads as an empty one.
pub record Backend : Type 0 where
  pub objects : Dict Text Object
  pub is_closed : Bool

-- `New`
abbrev pub init : Backend
init = record { objects = []; is_closed = false }

-- `none` where `ctx.Err()` is nil
abbrev pub Ctx : Type 0
Ctx = Option Error

-- `checkClosed`
abbrev pub check_closed : Backend → Result Error (Unit {0})
check_closed b = if b.is_closed then err Error.backend_closed else ok tt

abbrev pub check_ctx : Ctx → Result Error (Unit {0})
check_ctx none = ok tt
check_ctx (some e) = err e

-- the three tests with which the methods begin
unfoldable pub check : Ctx → Text → Backend → Result Error (Unit {0})
check ctx p b = do check_closed b; check_ctx ctx; validate_path p

-- `memoryWriter`
pub record Writer : Type 0 where
  pub path : Text
  pub buffer : List ℕ
  pub content_type : Text
  pub is_closed : Bool

unfoldable pub new_writer : Ctx → Text → Text → Backend → Result Error Writer
new_writer ctx p content_type b = do
  check ctx p b
  ok (record {
    path = normalize_path p;
    buffer = [];
    content_type = content_type;
    is_closed = false;
  })

-- `Write` of the writer, with the number of bytes that it returns
unfoldable pub write : List ℕ → Writer → Writer × Result Error ℕ
write chunk w =
    if w.is_closed
    then (w, err Error.writer_closed)
    else (record w { buffer = w.buffer ++ chunk }, ok (length chunk))

abbrev stored : ℕ → Writer → Object
stored now w = record {
  content = w.buffer;
  content_type = w.content_type;
  mod_time = now;
  is_dir = false;
}

-- `Close` of the writer
unfoldable pub close_writer : ℕ → Writer → Backend → Writer × Backend × Result Error (Unit {0})
close_writer now w b =
    if w.is_closed
    then (w, b, ok tt)
    else if b.is_closed
    then (record w { is_closed = true }, b, err Error.backend_closed)
    else (
      record w { is_closed = true },
      record b { objects = Dict.insert w.path (stored now w) b.objects },
      ok tt,
    )

-- `memoryReader`: the bytes that are left to read
pub record Reader : Type 0 where
  pub rest : List ℕ
  pub is_closed : Bool

-- the part of an object that `ReaderConfig` selects
unfoldable pub select : ℤ → ℤ → List ℕ → List ℕ
select offset limit content =
    let from = drop (pos_part offset) content in
    if is_positive limit && ltb (pos_part limit) (length from)
    then take (pos_part limit) from
    else from

unfoldable pub new_reader : Ctx → Text → ℤ → ℤ → Backend → Result Error Reader
new_reader ctx p offset limit b = do
  check ctx p b
  elim (Dict.lookup (normalize_path p) b.objects) [
    | none ↦ err Error.not_found
    | some o ↦
        if o.is_dir
        then err Error.is_directory
        else ok (record { rest = select offset limit o.content; is_closed = false })
  ]

-- `Read` of the reader into a buffer of the given size; `none` is `io.EOF`.
unfoldable pub read : ℕ → Reader → Reader × Result Error (Option (List ℕ))
read size r =
    if r.is_closed
    then (r, err Error.reader_closed)
    else if r.rest == []
    then (r, ok none)
    else (record r { rest = drop size r.rest }, ok (some (take size r.rest)))

unfoldable pub close_reader : Reader → Reader
close_reader r = record r { is_closed = true }

unfoldable pub exists : Ctx → Text → Backend → Result Error Bool
exists ctx p b = do check ctx p b; ok (Dict.is_some (Dict.lookup (normalize_path p) b.objects))

-- a method that changes the objects, or fails and changes nothing
abbrev updating : Backend → Result Error (Dict Text Object) → Backend × Result Error (Unit {0})
updating b (ok objects) = (record b { objects = objects }, ok tt)
updating b (err e) = (b, err e)

unfoldable pub delete : Ctx → Text → Backend → Backend × Result Error (Unit {0})
delete ctx p b = updating b do check ctx p b; ok (Dict.erase (normalize_path p) b.objects)

-- the test of the loop of `List`
unfoldable pub is_listed : Text → Text → Object → Bool
is_listed prefix p o =
    not o.is_dir && (prefix == [] || has_prefix p prefix || has_prefix p (prefix ++ bytes "/"))

unfoldable pub list : Ctx → Text → Backend → Result Error (List Text)
list ctx prefix b = do
  check_closed b
  check_ctx ctx
  ok (sort_texts (Dict.keys (Dict.retain (is_listed (normalize_path prefix)) b.objects)))

-- `Close`, which always returns nil
unfoldable pub close : Backend → Backend
close b = record { objects = []; is_closed = true }

-- `BasicObjectInfo`, as `Stat` fills it
pub record ObjectInfo : Type 0 where
  pub path : Text
  pub size : ℕ
  pub mod_time : ℕ
  pub is_dir : Bool
  pub content_type : Text

unfoldable pub stat : Ctx → Text → Backend → Result Error ObjectInfo
stat ctx p b = do
  check ctx p b
  elim (Dict.lookup (normalize_path p) b.objects) [
    | none ↦ err Error.not_found
    | some o ↦ ok (record {
      path = normalize_path p;
      size = if o.is_dir then 0 else length o.content;
      mod_time = o.mod_time;
      is_dir = o.is_dir;
      content_type = o.content_type;
    })
  ]

abbrev pub directory : ℕ → Object
directory now = record { content = []; content_type = []; mod_time = now; is_dir = true }

-- The loop of `Mkdir` over `parts`, of which the first `i` are behind it.
unfoldable pub make_dirs : ℕ → List Text → ℕ → ℕ → Dict Text Object → Dict Text Object
make_dirs now parts zero i d = d
make_dirs now parts (suc left) i d =
    let path = join (take (i + 1) parts) in
    make_dirs now parts left (i + 1)
      (if Dict.is_some (Dict.lookup path d) then d else Dict.insert path (directory now) d)

unfoldable pub mkdir : Ctx → ℕ → Text → Backend → Backend × Result Error (Unit {0})
mkdir ctx now p b = updating b do
  check ctx p b
  let parts = split (normalize_path p)
  ok (make_dirs now parts (length parts) 0 b.objects)

-- the loop of `Rmdir`: whether some path has the prefix
unfoldable pub any_under : Text → Dict Text Object → Bool
any_under prefix [] = false
any_under prefix ((p, _) ∷ d) = has_prefix p prefix || any_under prefix d

unfoldable pub rmdir : Ctx → Text → Backend → Backend × Result Error (Unit {0})
rmdir ctx p b = updating b do
  check ctx p b
  elim (Dict.lookup (normalize_path p) b.objects) [
    | none ↦ err Error.not_found
    | some o ↦
        if not o.is_dir
        then err Error.not_directory
        else if any_under (normalize_path p ++ bytes "/") b.objects
        then err Error.directory_not_empty
        else ok (Dict.erase (normalize_path p) b.objects)
  ]

-- what `Copy` and `Move` test, and the object that they store at the destination
unfoldable pub transfer : Ctx → ℕ → Text → Text → Backend → Result Error Object
transfer ctx now src dst b = do
  check ctx src b
  validate_path dst
  elim (Dict.lookup (normalize_path src) b.objects) [
    | none ↦ err Error.not_found
    | some o ↦
        if o.is_dir
        then err Error.is_directory
        else ok (record o { mod_time = now; is_dir = false })
  ]

unfoldable pub copy : Ctx → ℕ → Text → Text → Backend → Backend × Result Error (Unit {0})
copy ctx now src dst b =
    updating b do o ← transfer ctx now src dst b; ok (Dict.insert (normalize_path dst) o b.objects)

unfoldable pub move : Ctx → ℕ → Text → Text → Backend → Backend × Result Error (Unit {0})
move ctx now src dst b = updating b do
  o ← transfer ctx now src dst b
  ok (Dict.erase (normalize_path src) (Dict.insert (normalize_path dst) o b.objects))

-- `Size`
unfoldable pub size : Dict Text Object → ℕ
size [] = 0
size ((_, o) ∷ d) = length o.content + size d

-- `Count`
unfoldable pub count : Dict Text Object → ℕ
count [] = 0
count ((_, o) ∷ d) = let rest = count d in if o.is_dir then rest else rest + 1

-- `Clear`
unfoldable pub clear : Backend → Backend
clear b = record b { objects = [] }
