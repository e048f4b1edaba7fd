-- ===== src/Sync/Engine.antt =====
-- object/sync/sync.go: `Sync`, `CopyDir` and `Move`. The workers' copies are taken one after another, in
-- an order that is a parameter, as is the order in which Go's map of the extra files is walked.
pub mod Planning
pub mod Accounting
pub mod Outcome
pub mod Mirror
pub mod Untouched
use omnistorage_core.Base.{
  ℕ, ◌+◌, Bool, true, false, not, ◌&&◌, Option, none, some, List, [], ◌∷◌, pos, if◌then◌else◌,
  list_eq, nat_eq, ok, err, ◌+ℤ◌,
}
use omnistorage_core.Base.Dict
use omnistorage_core.Base.Dict.{Dict}
use omnistorage_core.Base.Text.{Text}
use omnistorage_core.Object.{Error}
use omnistorage_core.Object.Backend.{Backend}
use omnistorage_core.Object.FilePath.{join_path}
use omnistorage_core.Sync.Listing.{list_files}
use omnistorage_core.Sync.Options.{
  Options, no_options, FileInfo, Op, Report, add_error, is_full, needs_update,
}
use omnistorage_core.Sync.Retry.{plain}
use omnistorage_core.Sync.Transfer.{copy_file_with_context}

-- `copyAction`
pub record Action : Type 0 where
  pub file : FileInfo
  pub is_update : Bool

-- What the comparison finds: the copies to make, the number of files skipped, and the destination's
-- files that no file of the source has taken away.
pub record Plan : Type 0 where
  pub to_copy : List Action
  pub skipped : ℕ
  pub extra : Dict Text FileInfo

-- The backends, the context, and what Go's library, the scheduler and the clock decide.
pub record Env (W : Type 0) : Type 0 where
  pub src : Backend W
  pub dst : Backend W
  pub same_backend : Bool
  pub cancelled : W → Option Error
  pub interrupted : W → Option Error
  pub scale : ℕ → ℕ
  pub jittered : ℕ → ℕ → ℕ
  pub glob : Text → Text → Bool
  pub now : ℕ
  pub same_time : ℕ → ℕ → Bool
  pub copy_order : List Action → List Action
  pub delete_order : List Text → List Text

-- `dstMap`
unfoldable pub file_map : List FileInfo → Dict Text FileInfo → Dict Text FileInfo
file_map [] d = d
file_map (f ∷ fs) d = file_map fs (Dict.insert f.path f d)

-- the loop that compares the source's files with `dstMap`
unfoldable pub compare : (ℕ → ℕ → Bool) → Options → List FileInfo → Dict Text FileInfo → Plan
compare same_time opts [] d = record { to_copy = []; skipped = 0; extra = d }
compare same_time opts (f ∷ fs) d =
    let rest = compare same_time opts fs (if f.is_dir then d else Dict.erase f.path d) in
    let skip : Plan = record rest { skipped = rest.skipped + 1 } in
    let copy : Bool → Plan = λ is_update. record rest {
      to_copy = record { file = f; is_update = is_update } ∷ rest.to_copy;
    } in
    if f.is_dir then rest else elim (Dict.lookup f.path d) [
      | none ↦ copy false
      | some g ↦
          if not g.is_dir && needs_update same_time f g opts
          then (if not opts.ignore_existing then copy true else skip)
          else skip
    ]

-- `toDelete`, in the order of the map
unfoldable pub to_delete : Options → Dict Text FileInfo → List Text
to_delete opts extra =
    if opts.delete_extra then Dict.keys (Dict.retain (λ _ f. not f.is_dir) extra) else []

unfoldable pub count_copy : Action → Report → Report
count_copy a r = record r {
  copied = if a.is_update then r.copied else r.copied + 1;
  updated = if a.is_update then r.updated + 1 else r.updated;
  bytes_transferred = r.bytes_transferred +ℤ a.file.size;
}

-- the result before the first copy
unfoldable pub initial : Options → Plan → Report
initial opts plan = record {
  copied = 0;
  updated = 0;
  deleted = 0;
  skipped = plan.skipped;
  errors = [];
  bytes_transferred = pos 0;
  dry_run = opts.dry_run;
}

module _ {W : Type 0} (env : Env W) (opts : Options) (src_path dst_path : Text) where
  -- One round of a worker's loop, and whether it stops the workers.
  unfoldable pub copy_one : Action → Report → W → W × Report × Bool
  copy_one a r w =
      let (w', copied) =
        copy_file_with_context env.src env.dst env.same_backend env.cancelled env.interrupted
          env.scale env.jittered opts (join_path src_path a.file.path)
          (join_path dst_path a.file.path) w in
      if opts.dry_run then (w, count_copy a r, false) else elim copied [
        | ok _ ↦ (w', count_copy a r, false)
        | err e ↦
            let failed = add_error (record { path = a.file.path; op = Op.copy; error = e }) r in
            (w', failed, is_full opts failed)
      ]

  -- the workers' loops
  unfoldable pub copy_all : List Action → Report → W → W × Report
  copy_all [] r w = (w, r)
  copy_all (a ∷ actions) r w =
      let (w', r', stop) = copy_one a r w in
      let rest = copy_all actions r' w' in
      elim (env.cancelled w) [ some _ ↦ (w, r) | none ↦ if stop then (w', r') else rest ]

  -- the loop that deletes the extra files, with the error that `Sync` then returns
  unfoldable pub delete_all : List Text → Report → W → W × Report × Option Error
  delete_all [] r w = (w, r, none)
  delete_all (p ∷ ps) r w =
      let done : Report = record r { deleted = r.deleted + 1 } in
      let dry = delete_all ps done w in
      let (w', deleted) = env.dst.delete (join_path dst_path p) w in
      let gone = delete_all ps done w' in
      let failed : Error → Report =
        λ e. add_error (record { path = p; op = Op.delete; error = plain e }) r in
      let rest : Error → W × Report × Option Error = λ e. delete_all ps (failed e) w' in
      elim (env.cancelled w) [
        | some e ↦ (w, r, some e)
        | none ↦ if opts.dry_run then dry else elim deleted [
          | ok _ ↦ gone
          | err e ↦ if is_full opts (failed e) then (w', failed e, none) else rest e
        ]
      ]

  -- `Sync` behind the two listings
  unfoldable pub transfer : List FileInfo → List FileInfo → W → W × Option Report × Option Error
  transfer src_files dst_files w =
      let plan = compare env.same_time opts src_files (file_map dst_files []) in
      let (w', r) = copy_all (env.copy_order plan.to_copy) (initial opts plan) w in
      let (w'', r', e) = delete_all (env.delete_order (to_delete opts plan.extra)) r w' in
      elim (env.cancelled w') [ some c ↦ (w', some r, some c) | none ↦ (w'', some r', e) ]

  unfoldable pub sync : W → W × Option Report × Option Error
  sync w = elim (list_files env.glob env.now opts env.src src_path w) [
    | err e ↦ (w, none, some e)
    | ok src_files ↦ elim (list_files env.glob env.now opts env.dst dst_path w) [
      | err e ↦ (w, none, some e)
      | ok dst_files ↦ transfer src_files dst_files w
    ]
  ]

  -- the loop of `Move` over the source's files
  unfoldable pub move_each : List FileInfo → Report → W → W × Option Report × Option Error
  move_each [] r w = (w, some r, none)
  move_each (f ∷ fs) r w =
      let skipped = move_each fs r w in
      let (w', deleted) = env.src.delete (join_path src_path f.path) w in
      let gone = move_each fs r w' in
      let failed : Op → Error → Report =
        λ op e. add_error (record { path = f.path; op = op; error = plain e }) r in
      let unverified : Error → W × Option Report × Option Error =
        λ e. move_each fs (failed Op.verify e) w in
      let kept : Error → W × Option Report × Option Error =
        λ e. move_each fs (failed Op.delete_source e) w' in
      if f.is_dir then skipped else elim (env.cancelled w) [
        | some c ↦ (w, some r, some c)
        | none ↦ elim (env.dst.exists (join_path dst_path f.path) w) [
          | err e ↦ unverified e
          | ok false ↦ skipped
          | ok true ↦ elim deleted [
            | ok _ ↦ gone
            | err e ↦
                if is_full opts (failed Op.delete_source e)
                then (w', some (failed Op.delete_source e), none)
                else kept e
          ]
        ]
      ]

-- `CopyDir`
unfoldable pub copy_dir : {W : Type 0} → Env W → Text → Text → W → W × Option Report × Option Error
copy_dir env src_path dst_path w = sync env no_options src_path dst_path w

-- `Move`
unfoldable pub move :
    {W : Type 0} → Env W → Options → Text → Text → W → W × Option Report × Option Error
move env opts src_path dst_path w =
    let opts' : Options = record opts { delete_extra = false } in
    let (w', r, e) = sync env opts' src_path dst_path w in
    elim e [
      | some c ↦ (w', r, some c)
      | none ↦ if opts.dry_run then (w', r, none) else elim r [
        | none ↦ (w', none, none)
        | some report ↦ elim (list_files env.glob env.now opts' env.src src_path w') [
          | err c ↦ (w', some report, some c)
          | ok files ↦ move_each env opts' src_path dst_path files report w'
        ]
      ]
    ]
