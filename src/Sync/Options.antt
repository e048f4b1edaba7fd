-- ===== src/Sync/Options.antt =====
-- object/sync/options.go: the options and the results of the sync engine, and the test whether a file
-- needs an update. The callback for progress and the logger are left out. `same_time` is `tsync.Equal`.
use omnistorage_core.Base.{
  eqz, ℕ, Bool, true, false, not, ◌&&◌, Option, none, List, [], ◌∷◌, ◌++◌, ℤ, pos, leb, pos_part,
  is_positive, length, if◌then◌else◌, ◌==◌, list_eq, nat_eq,
}
use omnistorage_core.Base.Text.{Text}
use omnistorage_core.Object
use omnistorage_core.Sync.Filter.{Filter}
use omnistorage_core.Sync.Retry
use omnistorage_core.Sync.Retry.{Failure}

pub record MetadataOptions : Type 0 where
  pub content_type : Bool
  pub mod_time : Bool
  pub custom_metadata : Bool

-- `DefaultMetadataOptions`
abbrev pub default_metadata_options : MetadataOptions
default_metadata_options = record { content_type = true; mod_time = false; custom_metadata = false }

pub record Options : Type 0 where
  pub delete_extra : Bool
  pub dry_run : Bool
  pub checksum : Bool
  pub ignore_existing : Bool
  pub ignore_size : Bool
  pub ignore_time : Bool
  pub size_only : Bool
  pub max_errors : ℤ
  pub concurrency : ℤ
  pub filter : Filter
  pub delete_excluded : Bool
  pub bandwidth_limit : ℤ
  pub retry : Option (Retry.Config Object.Error)
  pub preserve_metadata : Option MetadataOptions

-- the zero value of `Options`
abbrev pub no_options : Options
no_options = record {
  delete_extra = false;
  dry_run = false;
  checksum = false;
  ignore_existing = false;
  ignore_size = false;
  ignore_time = false;
  size_only = false;
  max_errors = pos 0;
  concurrency = pos 0;
  filter = none;
  delete_excluded = false;
  bandwidth_limit = pos 0;
  retry = none;
  preserve_metadata = none;
}

-- `DefaultOptions`
abbrev pub default_options : Options
default_options = record no_options { concurrency = pos 4 }

-- `FileInfo`; a file without a hash has the empty one.
pub record FileInfo : Type 0 where
  pub path : Text
  pub size : ℤ
  pub mod_time : ℕ
  pub hash : Text
  pub is_dir : Bool

-- what is written as `Op` of a `FileError`
pub data Op : Type 0 where
  copy delete verify delete_source compare copy_to_path1 copy_to_path2 conflict : Op

pub record FileError : Type 0 where
  pub path : Text
  pub op : Op
  pub error : Failure Object.Error

-- `Result`, without the duration
pub record Report : Type 0 where
  pub copied : ℕ
  pub updated : ℕ
  pub deleted : ℕ
  pub skipped : ℕ
  pub errors : List FileError
  pub bytes_transferred : ℤ
  pub dry_run : Bool

-- `Success`
unfoldable pub success : Report → Bool
success r = elim r.errors [ [] ↦ true | _ ∷ _ ↦ false ]

unfoldable pub add_error : FileError → Report → Report
add_error e r = record r { errors = r.errors ++ e ∷ [] }

-- whether `MaxErrors` says to stop
unfoldable pub is_full : Options → Report → Bool
is_full opts r = is_positive opts.max_errors && leb (pos_part opts.max_errors) (length r.errors)

-- `NeedsUpdate`
unfoldable pub needs_update : (ℕ → ℕ → Bool) → FileInfo → FileInfo → Options → Bool
needs_update same_time src dst opts =
    if opts.size_only
    then not (eqz src.size dst.size)
    else if opts.checksum && not (src.hash == []) && not (dst.hash == [])
    then not (src.hash == dst.hash)
    else if not opts.ignore_size && not (eqz src.size dst.size)
    then true
    else if not opts.ignore_time && not (same_time src.mod_time dst.mod_time)
    then true
    else false
