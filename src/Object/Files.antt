-- ===== src/Object/Files.antt =====
-- object/backend/file/backend.go: the backend on the local filesystem, on Unix, where a path of the
-- operating system is one with slashes. The operating system is an interface, its state the world `W`.
pub mod Laws
pub mod Copies
pub mod Extended
pub mod Escape
pub mod Paths
use omnistorage_core.Base.{
  ℕ, ◌-◌, Bool, true, false, not, ◌||◌, Option, none, some, List, [], ◌∷◌, ◌++◌, ltb, ◌==◌, length,
  if◌then◌else◌, list_eq, nat_eq, Result, ok, err, ◌>>=◌, ◌>>◌, ℤ, pos_part, is_positive,
}
use omnistorage_core.Base.Dict
use omnistorage_core.Base.Dict.{Dict}
use omnistorage_core.Base.Text.{Text, bytes, has_prefix}
use omnistorage_core.Object.{Error, Fault}
use omnistorage_core.Object.FilePath.{clean, contains_text, dot_dot, join_path}

-- `os.FileInfo`
pub record FileInfo : Type 0 where
  pub size : ℤ
  pub mod_time : ℕ
  pub is_dir : Bool

-- What package os and `io.Copy` do; an open file is known by a number. `walk` is what `filepath.Walk`
-- calls its function with, as long as that returns nil.
pub record Os (W : Type 0) : Type 0 where
  pub stat : Text → W → Result Fault FileInfo
  pub mkdir_all : Text → ℕ → W → W × Option Fault
  pub create : Text → ℕ → W → W × Result Fault ℕ
  pub open_file : Text → W → W × Result Fault ℕ
  pub seek : ℕ → ℕ → W → W × Option Fault
  pub read : ℕ → ℕ → W → W × Result Fault (Option (List ℕ))
  pub write : ℕ → List ℕ → W → W × Result Fault ℕ
  pub copy : ℕ → ℕ → W → W × Option Fault
  pub close : ℕ → W → W × Option Fault
  pub remove : Text → W → W × Option Fault
  pub rename : Text → Text → W → W × Option Fault
  pub walk : Text → W → List (Text × Result Fault FileInfo)
  pub rel : Text → Text → Result Fault Text
  pub type_by_extension : Text → Text

-- `Config`
pub record Config : Type 0 where
  pub root : Text
  pub create_dirs : Bool
  pub dir_permissions : ℕ
  pub file_permissions : ℕ

-- 0755 and 0644
abbrev pub default_dir_permissions : ℕ
default_dir_permissions = 493

abbrev pub default_file_permissions : ℕ
default_file_permissions = 420

-- `DefaultConfig`
abbrev pub default_config : Config
default_config = record {
  root = bytes ".";
  create_dirs = true;
  dir_permissions = default_dir_permissions;
  file_permissions = default_file_permissions;
}

-- `Backend`
pub record Backend : Type 0 where
  pub config : Config
  pub closed : Bool

-- `New`
unfoldable pub new : Config → Backend
new c = record {
  config = record {
    root = if c.root == [] then bytes "." else c.root;
    create_dirs = c.create_dirs;
    dir_permissions = if c.dir_permissions == 0 then default_dir_permissions else c.dir_permissions;
    file_permissions =
        if c.file_permissions == 0 then default_file_permissions else c.file_permissions;
  };
  closed = false;
}

-- `NewFromConfig`
unfoldable pub new_from_config : Dict Text Text → Backend
new_from_config d =
    let root : Text = elim (Dict.lookup (bytes "root") d) [
      | none ↦ default_config.root
      | some r ↦ if r == [] then default_config.root else r
    ] in
    let create_dirs : Bool = elim (Dict.lookup (bytes "create_dirs") d) [
      | none ↦ true
      | some c ↦ not (c == bytes "false")
    ] in
    new (record default_config { root = root; create_dirs = create_dirs })

-- `Close`
abbrev pub close : Backend → Backend
close b = record b { closed = true }

-- `fullPath`
unfoldable pub full_path : Backend → Text → Text
full_path b p = join_path b.config.root p

-- `validatePath`
unfoldable pub validate_path : Text → Result Error (Unit {0})
validate_path p =
    if p == []
    then err Error.invalid_path
    else if has_prefix (clean p) dot_dot || contains_text (clean p) (bytes "../")
    then err Error.invalid_path
    else ok tt

-- `checkClosed`, the context, and `validatePath` of each path: what the methods begin with.
unfoldable pub check_open : Option Error → Backend → Result Error (Unit {0})
check_open ctx b =
    if b.closed then err Error.backend_closed else elim ctx [ none ↦ ok tt | some e ↦ err e ]

unfoldable pub check : Option Error → Text → Backend → Result Error (Unit {0})
check ctx p b = do check_open ctx b; validate_path p

unfoldable pub check_both : Option Error → Text → Text → Backend → Result Error (Unit {0})
check_both ctx src dst b = do check ctx src b; validate_path dst

-- what a failure becomes where a missing file and a refused one are told apart
unfoldable pub found_error : Fault → Error
found_error Fault.not_exist = Error.not_found
found_error Fault.permission = Error.permission_denied
found_error (Fault.broken n) = Error.wrapped (Fault.broken n)

-- what it becomes where only a refused one is
unfoldable pub refused_error : Fault → Error
refused_error Fault.permission = Error.permission_denied
refused_error Fault.not_exist = Error.wrapped Fault.not_exist
refused_error (Fault.broken n) = Error.wrapped (Fault.broken n)

-- up to and with the last slash
unfoldable pub up_to_slash : Text → Text
up_to_slash [] = []
up_to_slash (c ∷ s) = elim (up_to_slash s) [
  | [] ↦ if c == b'/' then c ∷ [] else []
  | d ∷ t ↦ c ∷ d ∷ t
]

-- `filepath.Dir`
unfoldable pub dir : Text → Text
dir p = clean (up_to_slash p)

-- `filepath.Ext`: from the last dot of the last element on
unfoldable pub ext_loop : Text → Text → Text
ext_loop [] found = found
ext_loop (c ∷ s) found =
    if c == b'/' then ext_loop s [] else if c == b'.' then ext_loop s (c ∷ s) else ext_loop s found

abbrev pub ext : Text → Text
ext p = ext_loop p []

-- `limitedReadCloser`, or a plain file where there is no limit
pub record Reader : Type 0 where
  pub handle : ℕ
  pub limit : Option ℕ

module _ {W : Type 0} (os : Os W) where
  -- The parent directories, which are created if the configuration asks for them.
  unfoldable pub make_parents : Backend → Text → W → W × Option Fault
  make_parents b p w =
      if b.config.create_dirs then os.mkdir_all (dir p) b.config.dir_permissions w else (w, none)

  unfoldable pub new_writer : Option Error → Text → Backend → W → W × Result Error ℕ
  new_writer ctx p b w = elim (check ctx p b) [
    | err e ↦ (w, err e)
    | ok _ ↦
        let (w1, made) = make_parents b (full_path b p) w in
        elim made [
          | some f ↦ (w1, err (Error.wrapped f))
          | none ↦
              let (w2, created) = os.create (full_path b p) b.config.file_permissions w1 in
              elim created [ err f ↦ (w2, err (Error.wrapped f)) | ok h ↦ (w2, ok h) ]
        ]
  ]

  -- `NewReader`, with the offset and the limit of its options
  unfoldable pub new_reader : Option Error → Text → ℤ → ℤ → Backend → W → W × Result Error Reader
  new_reader ctx p offset limit b w = elim (check ctx p b) [
    | err e ↦ (w, err e)
    | ok _ ↦
        let (w1, opened) = os.open_file (full_path b p) w in
        elim opened [
          | err f ↦ (w1, err (found_error f))
          | ok h ↦
              let (w2, failed) =
                if is_positive offset then os.seek h (pos_part offset) w1 else (w1, none) in
              elim failed [
                | some f ↦ ((os.close h w2).0, err (Error.wrapped f))
                | none ↦ (
                  w2,
                  ok (record {
                    handle = h;
                    limit = if is_positive limit then some (pos_part limit) else none;
                  }),
                )
              ]
        ]
  ]

  -- `Read` of what `NewReader` returns; `none` is `io.EOF`.
  unfoldable pub read : ℕ → Reader → W → W × Reader × Result Fault (Option (List ℕ))
  read size r w = elim r.limit [
    | none ↦ let (w', got) = os.read r.handle size w in (w', r, got)
    | some left ↦
        let (w', got) = os.read r.handle (if ltb left size then left else size) w in
        if left == 0 then (w, r, ok none) else elim got [
          | err f ↦ (w', r, err f)
          | ok none ↦ (w', r, ok none)
          | ok (some chunk) ↦ (w', record r { limit = some (left - length chunk) }, ok (some chunk))
        ]
  ]

  unfoldable pub exists : Option Error → Text → Backend → W → Result Error Bool
  exists ctx p b w = elim (check ctx p b) [
    | err e ↦ err e
    | ok _ ↦ elim (os.stat (full_path b p) w) [
      | ok info ↦ ok true
      | err Fault.not_exist ↦ ok false
      | err Fault.permission ↦ err (Error.wrapped Fault.permission)
      | err (Fault.broken n) ↦ err (Error.wrapped (Fault.broken n))
    ]
  ]

  unfoldable pub delete : Option Error → Text → Backend → W → W × Result Error (Unit {0})
  delete ctx p b w = elim (check ctx p b) [
    | err e ↦ (w, err e)
    | ok _ ↦
        let (w', failed) = os.remove (full_path b p) w in
        elim failed [
          | none ↦ (w', ok tt)
          | some Fault.not_exist ↦ (w', ok tt)
          | some Fault.permission ↦ (w', err Error.permission_denied)
          | some (Fault.broken n) ↦ (w', err (Error.wrapped (Fault.broken n)))
        ]
  ]

  -- The calls of the function of `List`, until one returns an error; `cancelled` is what `ctx.Err()`
  -- returns then.
  unfoldable pub list_each :
      (Text → Option Error)
      → Text
      → List (Text × Result Fault FileInfo)
      → List Text
      → Result Error (List Text)
  list_each cancelled root [] paths = ok paths
  list_each cancelled root ((p, visit) ∷ visits) paths =
      let passed = list_each cancelled root visits paths in
      let shown : Text → Result Error (List Text) =
        λ rel. list_each cancelled root visits (paths ++ rel ∷ []) in
      elim (cancelled p) [
        | some e ↦ err e
        | none ↦ elim visit [
          | err Fault.permission ↦ passed
          | err Fault.not_exist ↦ err (Error.wrapped Fault.not_exist)
          | err (Fault.broken n) ↦ err (Error.wrapped (Fault.broken n))
          | ok info ↦
              if info.is_dir
              then passed
              else elim (os.rel root p) [ err f ↦ err (Error.wrapped f) | ok rel ↦ shown rel ]
        ]
      ]

  abbrev is_missing : Error → Bool
  is_missing (Error.wrapped Fault.not_exist) = true
  is_missing _ = false

  unfoldable pub list :
      Option Error → (Text → Option Error) → Text → Backend → W → Result Error (List Text)
  list ctx cancelled prefix b w =
      let start = if prefix == [] then b.config.root else full_path b prefix in
      elim (check_open ctx b) [
        | err e ↦ err e
        | ok _ ↦ elim (list_each cancelled b.config.root (os.walk start w) []) [
          | ok paths ↦ ok paths
          | err e ↦ if is_missing e then ok [] else err e
        ]
      ]
