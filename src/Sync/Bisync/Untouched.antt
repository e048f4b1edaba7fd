-- ===== src/Sync/Bisync/Untouched.antt =====
-- What a dry run of object/sync/bisync.go leaves alone.
use omnistorage_core.Base.{◌≡◌, refl, true, List, [], ◌∷◌, arith, inl, inr, Result-cases}
use omnistorage_core.Base.Text.{Text}
use omnistorage_core.Sync.Bisync.Conflicts.{Ends, resolve_by, resolve_conflict}
use omnistorage_core.Sync.Bisync.Plan.{Action, compare_sides}
use omnistorage_core.Sync.Bisync.Run.{act, act_each, reconcile, bisync, first_result}
use omnistorage_core.Sync.Bisync.Types.{
  ConflictStrategy, BisyncOptions, BisyncResult, with_defaults, scan_options,
}
use omnistorage_core.Sync.Listing.{list_files}
use omnistorage_core.Sync.Options.{FileInfo}

module _ {W : Type 0} (ends : Ends W) (path1 path2 : Text) where
  module _ (opts : BisyncOptions) (dry : opts.dry_run ≡ true) where
    resolve_by_dry :
        (s : ConflictStrategy) (f1 f2 : FileInfo) (w : W)
        → (resolve_by ends opts path1 path2 s f1 f2 w).0 ≡ w
    unfolding resolve_by
    resolve_by_dry s f1 f2 w = ground (arith, dry)

    act_dry : (a : Action) (r : BisyncResult) (w : W) → (act ends opts path1 path2 a r w).0 ≡ w
    unfolding act resolve_conflict
    act_dry (Action.to2 f) r w = ground (arith, dry)
    act_dry (Action.to1 f) r w = ground (arith, dry)
    act_dry (Action.conflict f1 f2) r w = resolve_by_dry opts.conflict_strategy f1 f2 w

    act_each_dry :
        (actions : List Action) (r : BisyncResult) (w : W)
        → (act_each ends opts path1 path2 actions r w).0 ≡ w
    unfolding act_each
    act_each_dry [] r w = refl
    act_each_dry (a ∷ actions) r w =
        let (w', r', stop) = act ends opts path1 path2 a r w in
        ground (arith, act_dry a r w, act_each_dry actions r' w')

  -- A dry run of `Bisync` changes neither backend, whatever the strategy for conflicts.
  pub bisync_dry :
      (given : BisyncOptions) (w : W)
      → given.dry_run ≡ true
      → (bisync ends path1 path2 given w).0 ≡ w
  unfolding bisync reconcile with_defaults
  bisync_dry given w dry =
      let opts = with_defaults given in
      elim (Result-cases
        (list_files ends.glob ends.now (scan_options opts) ends.backend1 path1 w)) [
          | inr (e, f) ↦ rw (bisync, f) refl
          | inl (files1, f) ↦
              elim (Result-cases
                (list_files ends.glob ends.now (scan_options opts) ends.backend2 path2 w)) [
                  | inr (e, g) ↦ rw (bisync, f, g) refl
                  | inl (files2, g) ↦
                      let (actions, skipped) =
                        compare_sides ends.same_time ends.map_order (scan_options opts) files1
                          files2 in
                      rw (bisync, f, g)
                        (act_each_dry opts dry actions (first_result opts skipped) w)
                ]
        ]
