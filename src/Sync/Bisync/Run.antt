-- ===== src/Sync/Bisync/Run.antt =====
-- object/sync/bisync.go: the loop of `Bisync` over the actions, and `Bisync`.
use omnistorage_core.Base.{
  ℕ, ◌+◌, Bool, false, ◌&&◌, Option, none, some, List, [], ◌∷◌, ◌++◌, pos, pos_part, leb,
  is_positive, length, if◌then◌else◌, ok, err, ◌+ℤ◌,
}
use omnistorage_core.Base.Text.{Text}
use omnistorage_core.Object.{Error}
use omnistorage_core.Object.FilePath.{join_path}
use omnistorage_core.Sync.Bisync.Conflicts.{
  Ends, Copied, Resolution, copy_to1, copy_to2, unless_dry, resolve_conflict,
}
use omnistorage_core.Sync.Bisync.Plan.{Action, compare_sides}
use omnistorage_core.Sync.Bisync.Types.{BisyncOptions, BisyncResult, with_defaults, scan_options}
use omnistorage_core.Sync.Listing.{list_files}
use omnistorage_core.Sync.Options.{FileInfo, Op}
use omnistorage_core.Sync.Retry.{Failure}

unfoldable pub note_error : Text → Op → Failure Error → BisyncResult → BisyncResult
note_error p op e r = record r { errors = r.errors ++ record { path = p; op = op; error = e } ∷ [] }

-- `maxErrorsReached`
unfoldable pub max_errors_reached : BisyncOptions → BisyncResult → Bool
max_errors_reached opts r =
    is_positive opts.max_errors && leb (pos_part opts.max_errors) (length r.errors)

-- the counters of `copyDirection`
unfoldable pub count_to2 : FileInfo → BisyncResult → BisyncResult
count_to2 f r = record r {
  copied_to_path2 = r.copied_to_path2 + 1;
  bytes_transferred = r.bytes_transferred +ℤ f.size;
}

unfoldable pub count_to1 : FileInfo → BisyncResult → BisyncResult
count_to1 f r = record r {
  copied_to_path1 = r.copied_to_path1 + 1;
  bytes_transferred = r.bytes_transferred +ℤ f.size;
}

-- the counters for a conflict that has been resolved
unfoldable pub count_update : Copied → FileInfo → FileInfo → BisyncResult → BisyncResult
count_update Copied.to1 f1 f2 r = record r {
  updated_in_path1 = r.updated_in_path1 + 1;
  bytes_transferred = r.bytes_transferred +ℤ f2.size;
}
count_update Copied.to2 f1 f2 r = record r {
  updated_in_path2 = r.updated_in_path2 + 1;
  bytes_transferred = r.bytes_transferred +ℤ f1.size;
}
count_update Copied.both f1 f2 r = record r {
  updated_in_path1 = r.updated_in_path1 + 1;
  updated_in_path2 = r.updated_in_path2 + 1;
  bytes_transferred = r.bytes_transferred +ℤ f1.size +ℤ f2.size;
}
count_update Copied.nowhere f1 f2 r = r

-- the result once a conflict has been dealt with
unfoldable pub note_conflict :
    BisyncOptions → FileInfo → FileInfo → Resolution → BisyncResult → BisyncResult
note_conflict opts f1 f2 resolution r =
    let counted : BisyncResult = elim resolution.error [
      | some e ↦ note_error f1.path Op.conflict e r
      | none ↦ if opts.dry_run then r else count_update resolution.copied f1 f2 r
    ] in
    record counted {
      conflicts =
          counted.conflicts
          ++ record {
            path = f1.path;
            path1_info = f1;
            path2_info = f2;
            resolution = resolution.label;
            error = resolution.error;
          }
            ∷ [];
    }

module _ {W : Type 0} (ends : Ends W) (opts : BisyncOptions) (path1 path2 : Text) where
  -- One round of the loop, and whether it ends the loop.
  unfoldable pub act : Action → BisyncResult → W → W × BisyncResult × Bool
  act (Action.to2 f) r w =
      let (w', copied) =
        unless_dry ends opts w
          (copy_to2 ends opts (join_path path1 f.path) (join_path path2 f.path) w) in
      elim copied [
        | ok _ ↦ (w', count_to2 f r, false)
        | err e ↦
            let failed = note_error f.path Op.copy_to_path2 e r in
            (w', failed, max_errors_reached opts failed)
      ]
  act (Action.to1 f) r w =
      let (w', copied) =
        unless_dry ends opts w
          (copy_to1 ends opts (join_path path2 f.path) (join_path path1 f.path) w) in
      elim copied [
        | ok _ ↦ (w', count_to1 f r, false)
        | err e ↦
            let failed = note_error f.path Op.copy_to_path1 e r in
            (w', failed, max_errors_reached opts failed)
      ]
  act (Action.conflict f1 f2) r w =
      let (w', resolution) = resolve_conflict ends opts path1 path2 f1 f2 w in
      (w', note_conflict opts f1 f2 resolution r, false)

  -- `actionLoop`
  unfoldable pub act_each : List Action → BisyncResult → W → W × BisyncResult × Option Error
  act_each [] r w = (w, r, none)
  act_each (a ∷ actions) r w =
      let (w', r', stop) = act a r w in
      let rest = act_each actions r' w' in
      elim (ends.cancelled w) [
        | some e ↦ (w, r, some e)
        | none ↦ if stop then (w', r', none) else rest
      ]

-- the result before the loop
abbrev pub first_result : BisyncOptions → ℕ → BisyncResult
first_result opts skipped = record {
  copied_to_path2 = 0;
  copied_to_path1 = 0;
  updated_in_path2 = 0;
  updated_in_path1 = 0;
  deleted_from_path1 = 0;
  deleted_from_path2 = 0;
  conflicts = [];
  skipped = skipped;
  errors = [];
  bytes_transferred = pos 0;
  dry_run = opts.dry_run;
}

module _ {W : Type 0} (ends : Ends W) (path1 path2 : Text) where
  -- `Bisync` behind the two listings, with the defaults set
  unfoldable pub reconcile :
      BisyncOptions → List FileInfo → List FileInfo → W → W × Option BisyncResult × Option Error
  reconcile opts files1 files2 w =
      let (actions, skipped) =
        compare_sides ends.same_time ends.map_order (scan_options opts) files1 files2 in
      let (w', r, e) = act_each ends opts path1 path2 actions (first_result opts skipped) w in
      (w', some r, e)

  -- `Bisync`
  unfoldable pub bisync : BisyncOptions → W → W × Option BisyncResult × Option Error
  bisync given w =
      let opts = with_defaults given in
      elim (list_files ends.glob ends.now (scan_options opts) ends.backend1 path1 w) [
        | err e ↦ (w, none, some e)
        | ok files1 ↦
            elim (list_files ends.glob ends.now (scan_options opts) ends.backend2 path2 w) [
              | err e ↦ (w, none, some e)
              | ok files2 ↦ reconcile opts files1 files2 w
            ]
      ]
