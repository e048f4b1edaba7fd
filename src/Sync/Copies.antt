-- ===== src/Sync/Copies.antt =====
-- object/sync/copy.go: copies of files and trees on top of the sync engine. The callback for progress is
-- left out.
pub mod Outcomes
use omnistorage_core.Base.{
  ℕ, ◌+◌, Bool, true, false, not, ◌&&◌, Option, none, some, List, [], ◌∷◌, pos, if◌then◌else◌, ◌==◌,
  list_eq, nat_eq, Result, ok, err,
}
use omnistorage_core.Base.Text.{Text}
use omnistorage_core.Object.{Error}
use omnistorage_core.Object.Backend.{Backend, WriterOption, Stream}
use omnistorage_core.Object.Copying.{copy_chunks}
use omnistorage_core.Object.FilePath.{join_path}
use omnistorage_core.Sync.Engine.{Env, sync}
use omnistorage_core.Sync.Listing.{relative}
use omnistorage_core.Sync.Options.{
  Options, no_options, Op, FileError, Report, add_error, is_full, success,
}
use omnistorage_core.Sync.Retry.{plain}
use omnistorage_core.Sync.Transfer.{copy_file}

-- a result without any count
abbrev pub empty_report : Options → Report
empty_report opts = record {
  copied = 0;
  updated = 0;
  deleted = 0;
  skipped = 0;
  errors = [];
  bytes_transferred = pos 0;
  dry_run = opts.dry_run;
}

abbrev pub copy_error : Text → Error → FileError
copy_error p e = record { path = p; op = Op.copy; error = plain e }

-- `isSingleFile`
unfoldable pub is_single_file : Text → Bool → List Text → Bool
is_single_file p there [] = false
is_single_file p there (q ∷ []) = there && q == p
is_single_file p there (q ∷ q' ∷ qs) = false

module _ {W : Type 0} (env : Env W) where
  -- the result of a copied file, with its size where it is known
  unfoldable pub with_size : Text → Report → W → Report
  with_size p r w = elim env.src.extended [
    | none ↦ r
    | some ext ↦ elim (ext.stat p w) [
      | err _ ↦ r
      | ok info ↦ record r { bytes_transferred = info.size }
    ]
  ]

  -- the part of `Copy` for a single file behind the look at the destination
  unfoldable pub copy_single : Options → Text → Text → W → W × Option Report × Option Error
  copy_single opts p q w =
      let copied : Report = record (empty_report opts) { copied = 1 } in
      let (w', r) = copy_file env.src env.dst env.same_backend p q w in
      if opts.dry_run then (w, some (with_size p copied w), none) else elim r [
        | ok _ ↦ (w', some (with_size p copied w'), none)
        | err e ↦ (w', some (add_error (copy_error p e) (empty_report opts)), none)
      ]

  -- `Copy`
  unfoldable pub copy : Options → Text → Text → W → W × Option Report × Option Error
  copy opts p q w = elim (env.src.exists p w) [
    | err e ↦ (w, none, some e)
    | ok there ↦ elim (env.src.list p w) [
      | err e ↦ (w, none, some e)
      | ok paths ↦
          if not (is_single_file p there paths)
          then sync env (record opts { delete_extra = false }) p q w
          else if not opts.ignore_existing
          then copy_single opts p q w
          else elim (env.dst.exists q w) [
            | err e ↦ (w, none, some e)
            | ok true ↦ (w, some (record (empty_report opts) { skipped = 1 }), none)
            | ok false ↦ copy_single opts p q w
          ]
    ]
  ]

  -- `MustCopy`, where `none` is a panic
  unfoldable pub must_copy : Text → Text → W → W × Option Report
  must_copy p q w =
      let (w', r, e) = copy no_options p q w in
      (
        w',
        elim e [
          | some _ ↦ none
          | none ↦ elim r [
            | none ↦ none
            | some report ↦ if success report then some report else none
          ]
        ],
      )

  -- whether `TreeCopy` passes over a path of the destination
  unfoldable pub is_passed : Options → Text → W → Bool
  is_passed opts q w =
      opts.ignore_existing && elim (env.dst.exists q w) [ ok there ↦ there | err _ ↦ false ]

  -- the loop of `TreeCopy`
  unfoldable pub tree_each :
      Options → Text → Text → List Text → Report → W → W × Report × Option Error
  tree_each opts src_path dst_path [] r w = (w, r, none)
  tree_each opts src_path dst_path (p ∷ ps) r w =
      let q = join_path dst_path (relative src_path p) in
      let done : Report = record r { copied = r.copied + 1 } in
      let skipped = tree_each opts src_path dst_path ps (record r { skipped = r.skipped + 1 }) w in
      let dry = tree_each opts src_path dst_path ps done w in
      let (w', copied) = copy_file env.src env.dst env.same_backend p q w in
      let gone = tree_each opts src_path dst_path ps done w' in
      let failed : Error → Report = λ e. add_error (copy_error p e) r in
      let rest : Error → W × Report × Option Error =
        λ e. tree_each opts src_path dst_path ps (failed e) w' in
      elim (env.cancelled w) [
        | some e ↦ (w, r, some e)
        | none ↦ if is_passed opts q w then skipped else if opts.dry_run then dry else elim copied [
          | ok _ ↦ gone
          | err e ↦ if is_full opts (failed e) then (w', failed e, none) else rest e
        ]
      ]

  -- `TreeCopy`
  unfoldable pub tree_copy : Options → Text → Text → W → W × Option Report × Option Error
  tree_copy opts src_path dst_path w = elim (env.src.list src_path w) [
    | err e ↦ (w, none, some e)
    | ok paths ↦
        let (w', r, e) = tree_each opts src_path dst_path paths (empty_report opts) w in
        (w', some r, e)
  ]

-- `copyFileWithReader` and `CopyToPath`
unfoldable pub copy_to_path :
    {W : Type 0} → Backend W → Stream → Text → Text → W → W × Result Error (Unit {0})
copy_to_path dst reader q content_type w =
    let os : List WriterOption =
      if not (content_type == []) then WriterOption.content_type content_type ∷ [] else [] in
    let (w1, opened) = dst.new_writer q os w in
    elim opened [
      | err e ↦ (w1, err e)
      | ok h ↦
          let (w2, failed) = copy_chunks dst h reader.chunks reader.failure w1 in
          let (w3, closed) = dst.close_writer h w2 in
          (w3, elim failed [ none ↦ closed | some e ↦ err e ])
    ]

-- `CopyBetweenPaths`
unfoldable pub copy_between_paths :
    {W : Type 0} → Backend W → Backend W → Bool → Text → Text → W → W × Result Error (Unit {0})
copy_between_paths src dst same_backend p q w =
    let streamed = copy_file src dst same_backend p q w in
    if not same_backend then streamed else elim src.extended [
      | none ↦ streamed
      | some ext ↦ if ext.copies then ext.copy p q w else streamed
    ]
