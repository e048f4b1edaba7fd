-- ===== src/Sync/Engine/Untouched.antt =====
-- What `Sync`, `CopyDir` and `Move` of object/sync/sync.go leave alone.
use omnistorage_core.Base.{
  ◌+◌, ◌≡◌, refl, inl, inr, true, false, List, [], ◌∷◌, arith, list_eq, nat_eq, Result-cases,
}
use omnistorage_core.Base.Text.{Text}
use omnistorage_core.Sync.Options.{Options, FileInfo, Report}
use omnistorage_core.Sync.Listing.{list_files}
use omnistorage_core.Sync.Engine.{
  initial, compare, file_map, to_delete, count_copy, Env, Action, copy_one, copy_all, delete_all,
  transfer, sync, move,
}

module _ {W : Type 0} (env : Env W) where
  module _ (opts : Options) (dry : opts.dry_run ≡ true) (src_path dst_path : Text) where
    copy_all_dry :
        (actions : List Action) (r : Report) (w : W)
        → (copy_all env opts src_path dst_path actions r w).0 ≡ w
    unfolding copy_all copy_one
    copy_all_dry [] r w = refl
    copy_all_dry (a ∷ actions) r w = ground (arith, dry, copy_all_dry actions (count_copy a r) w)

    delete_all_dry :
        (ps : List Text) (r : Report) (w : W) → (delete_all env opts src_path dst_path ps r w).0 ≡ w
    unfolding delete_all
    delete_all_dry [] r w = refl
    delete_all_dry (p ∷ ps) r w =
        ground (arith, dry, delete_all_dry ps (record r { deleted = r.deleted + 1 }) w)

    transfer_dry :
        (src_files dst_files : List FileInfo) (w : W)
        → (transfer env opts src_path dst_path src_files dst_files w).0 ≡ w
    unfolding transfer
    transfer_dry src_files dst_files w =
        let plan = compare env.same_time opts src_files (file_map dst_files []) in
        let p =
          copy_all env opts src_path dst_path (env.copy_order plan.to_copy) (initial opts plan) w in
        ground (
          arith,
          copy_all_dry (env.copy_order plan.to_copy) (initial opts plan) w,
          delete_all_dry (env.delete_order (to_delete opts plan.extra)) p.1 p.0,
        )

    pub sync_dry : (w : W) → (sync env opts src_path dst_path w).0 ≡ w
    unfolding sync
    sync_dry w = elim (Result-cases (list_files env.glob env.now opts env.src src_path w)) [
      | inr (e, f) ↦ rw (sync, f) refl
      | inl (src_files, f) ↦
          elim (Result-cases (list_files env.glob env.now opts env.dst dst_path w)) [
            | inr (e, g) ↦ rw (sync, f, g) refl
            | inl (dst_files, g) ↦ rw (sync, f, g) (transfer_dry src_files dst_files w)
          ]
    ]

  -- A dry run of `Sync` or of `Move` changes neither backend.
  pub dry_run_changes_nothing :
      (opts : Options) (src_path dst_path : Text) (w : W)
      → opts.dry_run ≡ true
      → ((sync env opts src_path dst_path w).0 ≡ w) × ((move env opts src_path dst_path w).0 ≡ w)
  unfolding move
  dry_run_changes_nothing opts src_path dst_path w dry =
      let opts' : Options = record opts { delete_extra = false } in
      (
        sync_dry opts dry src_path dst_path w,
        ground (arith, dry, sync_dry opts' dry src_path dst_path w),
      )
