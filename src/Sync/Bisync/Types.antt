-- ===== src/Sync/Bisync/Types.antt =====
-- object/sync/bisync.go: options, results and conflicts. The callback for progress, the logger and
-- durations are left out.
use omnistorage_core.Base.{
  ℕ, ◌+◌, Bool, true, false, Option, none, List, [], ◌∷◌, ℤ, pos, is_positive, if◌then◌else◌, ◌==◌,
  list_eq, nat_eq,
}
use omnistorage_core.Base.Text.{Text, bytes}
use omnistorage_core.Object.{Error}
use omnistorage_core.Sync.Filter.{Filter}
use omnistorage_core.Sync.Options.{Options, no_options, MetadataOptions, FileInfo, FileError}
use omnistorage_core.Sync.Retry
use omnistorage_core.Sync.Retry.{Failure}

-- `ConflictStrategy`; `unknown` is any other value of the type.
pub data ConflictStrategy : Type 0 where
  newer_wins larger_wins source_wins dest_wins keep_both skip report : ConflictStrategy
  unknown : ℤ → ConflictStrategy

pub record BisyncOptions : Type 0 where
  pub conflict_strategy : ConflictStrategy
  pub conflict_suffix : Text
  pub dry_run : Bool
  pub checksum : Bool
  pub delete_missing : Bool
  pub max_errors : ℤ
  pub concurrency : ℤ
  pub filter : Filter
  pub bandwidth_limit : ℤ
  pub retry : Option (Retry.Config Error)
  pub preserve_metadata : Option MetadataOptions

abbrev pub default_suffix : Text
default_suffix = bytes ".conflict"

-- `DefaultBisyncOptions`
abbrev pub default_bisync_options : BisyncOptions
default_bisync_options = record {
  conflict_strategy = newer_wins;
  conflict_suffix = default_suffix;
  dry_run = false;
  checksum = false;
  delete_missing = false;
  max_errors = pos 0;
  concurrency = pos 4;
  filter = none;
  bandwidth_limit = pos 0;
  retry = none;
  preserve_metadata = none;
}

-- the defaults that `Bisync` sets
unfoldable pub with_defaults : BisyncOptions → BisyncOptions
with_defaults opts = record opts {
  concurrency = if is_positive opts.concurrency then opts.concurrency else pos 4;
  conflict_suffix = if opts.conflict_suffix == [] then default_suffix else opts.conflict_suffix;
}

-- `syncOpts`, for the listings and the comparison
abbrev pub scan_options : BisyncOptions → Options
scan_options opts = record no_options {
  checksum = opts.checksum;
  filter = opts.filter;
  concurrency = opts.concurrency;
}

-- `sctx.opts`, for the copies
abbrev pub copy_options : BisyncOptions → Options
copy_options opts = record no_options {
  dry_run = opts.dry_run;
  bandwidth_limit = opts.bandwidth_limit;
  retry = opts.retry;
  preserve_metadata = opts.preserve_metadata;
}

pub record Conflict : Type 0 where
  pub path : Text
  pub path1_info : FileInfo
  pub path2_info : FileInfo
  pub resolution : Text
  pub error : Option (Failure Error)

-- `BisyncResult`, without the duration
pub record BisyncResult : Type 0 where
  pub copied_to_path2 : ℕ
  pub copied_to_path1 : ℕ
  pub updated_in_path2 : ℕ
  pub updated_in_path1 : ℕ
  pub deleted_from_path1 : ℕ
  pub deleted_from_path2 : ℕ
  pub conflicts : List Conflict
  pub skipped : ℕ
  pub errors : List FileError
  pub bytes_transferred : ℤ
  pub dry_run : Bool

-- `Success`, `TotalCopied`, `TotalUpdated` and `TotalDeleted`
unfoldable pub bisync_success : BisyncResult → Bool
bisync_success r = elim r.errors [ [] ↦ true | _ ∷ _ ↦ false ]

unfoldable pub total_copied : BisyncResult → ℕ
total_copied r = r.copied_to_path1 + r.copied_to_path2

unfoldable pub total_updated : BisyncResult → ℕ
total_updated r = r.updated_in_path1 + r.updated_in_path2

unfoldable pub total_deleted : BisyncResult → ℕ
total_deleted r = r.deleted_from_path1 + r.deleted_from_path2
