-- ===== src/Sync/Bisync/Conflicts.antt =====
-- object/sync/bisync.go: `resolveConflict`.
use omnistorage_core.Base.{
  ℕ, Bool, true, Option, none, some, ◌++◌, ltb, ltz, if◌then◌else◌, Result, ok, err,
}
use omnistorage_core.Base.Text.{Text, bytes}
use omnistorage_core.Object.{Error}
use omnistorage_core.Object.Backend.{Backend}
use omnistorage_core.Object.FilePath.{join_path}
use omnistorage_core.Sync.Bisync.Types.{BisyncOptions, ConflictStrategy, copy_options}
use omnistorage_core.Sync.Options.{FileInfo}
use omnistorage_core.Sync.Retry.{Failure, plain}
use omnistorage_core.Sync.Transfer.{copy_file_with_context}
use omnistorage_core.Base.Dict.{Dict}

-- The backends, the context, and what Go's library and the clock decide.
pub record Ends (W : Type 0) : Type 0 where
  pub backend1 : Backend W
  pub backend2 : Backend W
  pub same_backend : Bool
  pub cancelled : W → Option Error
  pub interrupted : W → Option Error
  pub scale : ℕ → ℕ
  pub jittered : ℕ → ℕ → ℕ
  pub glob : Text → Text → Bool
  pub now : ℕ
  pub same_time : ℕ → ℕ → Bool
  pub map_order : Dict Text FileInfo → Dict Text FileInfo

-- the direction in which a resolution has copied
pub data Copied : Type 0 where
  to1 to2 both nowhere : Copied

-- what `resolveConflict` returns
pub record Resolution : Type 0 where
  pub label : Text
  pub copied : Copied
  pub error : Option (Failure Error)

-- A result of `copyFileWithContext`.
abbrev pub Outcome : Type 0 → Type 0
Outcome W = W × Result (Failure Error) (Unit {0})

-- the next copy, where the one before succeeded
abbrev pub and_then : {W : Type 0} → Outcome W → (W → Outcome W) → Outcome W
and_then (w, ok _) next = next w
and_then (w, err e) next = (w, err e)

-- what is returned after the copies
abbrev pub settled : {W : Type 0} → Text → Copied → Outcome W → W × Resolution
settled label copied (w, ok _) = (w, record { label = label; copied = copied; error = none })
settled label copied (w, err e) =
    (w, record { label = label; copied = Copied.nowhere; error = some e })

module _ {W : Type 0} (ends : Ends W) (opts : BisyncOptions) where
  -- `copyFileWithContext` from one of the two backends to one of them
  abbrev pub copy_within : Backend W → Backend W → Bool → Text → Text → W → Outcome W
  copy_within src dst same_backend p q w =
      copy_file_with_context src dst same_backend ends.cancelled ends.interrupted ends.scale
        ends.jittered (copy_options opts) p q w

  abbrev pub copy_to2 : Text → Text → W → Outcome W
  copy_to2 p q w = copy_within ends.backend1 ends.backend2 ends.same_backend p q w

  abbrev pub copy_to1 : Text → Text → W → Outcome W
  copy_to1 p q w = copy_within ends.backend2 ends.backend1 ends.same_backend p q w

  -- Copies that a dry run leaves out.
  abbrev pub unless_dry : W → Outcome W → Outcome W
  unless_dry w outcome = if opts.dry_run then (w, ok tt) else outcome

  module _ (path1 path2 : Text) where
    -- the copies of `ConflictKeepBoth` where the first side's file is older, and where it is not
    unfoldable pub keep_both_first_older : FileInfo → FileInfo → W → Outcome W
    keep_both_first_older f1 f2 w =
        let aside = f1.path ++ opts.conflict_suffix in
        let src1 = join_path path1 f1.path in
        let aside1 = join_path path1 aside in
        and_then
          (and_then (copy_within ends.backend1 ends.backend1 true src1 aside1 w)
            (copy_to1 (join_path path2 f2.path) src1))
          (copy_to2 aside1 (join_path path2 aside))

    unfoldable pub keep_both_second_older : FileInfo → FileInfo → W → Outcome W
    keep_both_second_older f1 f2 w =
        let aside = f1.path ++ opts.conflict_suffix in
        let src2 = join_path path2 f2.path in
        let aside2 = join_path path2 aside in
        and_then
          (and_then (copy_within ends.backend2 ends.backend2 true src2 aside2 w)
            (copy_to2 (join_path path1 f1.path) src2))
          (copy_to1 aside2 (join_path path1 aside))

    -- a resolution by the first or the second side's file
    abbrev first_wins : Text → FileInfo → FileInfo → W → W × Resolution
    first_wins label f1 f2 w =
        settled label Copied.to2
          (unless_dry w (copy_to2 (join_path path1 f1.path) (join_path path2 f2.path) w))

    abbrev second_wins : Text → FileInfo → FileInfo → W → W × Resolution
    second_wins label f1 f2 w =
        settled label Copied.to1
          (unless_dry w (copy_to1 (join_path path2 f2.path) (join_path path1 f1.path) w))

    abbrev refused : Text → W → W × Resolution
    refused label w =
        (w, record { label = label; copied = Copied.nowhere; error = some (plain (Error.other 0)) })

    -- the branches of `resolveConflict`
    unfoldable pub resolve_by : ConflictStrategy → FileInfo → FileInfo → W → W × Resolution
    resolve_by ConflictStrategy.newer_wins f1 f2 w =
        if ltb f2.mod_time f1.mod_time
        then first_wins (bytes "newer-wins:path1") f1 f2 w
        else second_wins (bytes "newer-wins:path2") f1 f2 w
    resolve_by ConflictStrategy.larger_wins f1 f2 w =
        if ltz f2.size f1.size
        then first_wins (bytes "larger-wins:path1") f1 f2 w
        else second_wins (bytes "larger-wins:path2") f1 f2 w
    resolve_by ConflictStrategy.source_wins f1 f2 w = first_wins (bytes "source-wins") f1 f2 w
    resolve_by ConflictStrategy.dest_wins f1 f2 w = second_wins (bytes "dest-wins") f1 f2 w
    resolve_by ConflictStrategy.keep_both f1 f2 w = settled (bytes "keep-both") Copied.both (
        unless_dry w (
          if ltb f1.mod_time f2.mod_time
          then keep_both_first_older f1 f2 w
          else keep_both_second_older f1 f2 w))
    resolve_by ConflictStrategy.skip f1 f2 w =
        (w, record { label = bytes "skipped"; copied = Copied.nowhere; error = none })
    resolve_by ConflictStrategy.report f1 f2 w = refused (bytes "error") w
    resolve_by (ConflictStrategy.unknown n) f1 f2 w = refused (bytes "unknown-strategy") w

    -- `resolveConflict`
    unfoldable pub resolve_conflict : FileInfo → FileInfo → W → W × Resolution
    resolve_conflict f1 f2 w = resolve_by opts.conflict_strategy f1 f2 w
