-- ===== src/Sync/Bisync/Counts.antt =====
-- How the result of `Bisync` of object/sync/bisync.go accounts for the files.
use omnistorage_core.Base.{
  ℕ, ◌+◌, ◌≡◌, refl, false, none, List, [], ◌∷◌, ◌++◌, arith, length, length-append, is_positive,
  list_eq, nat_eq, Option-cases, Result-cases, inl, inr, if◌then◌else◌, Bool, filter, not, contains,
  ok, some,
}
use omnistorage_core.Base.Dict
use omnistorage_core.Base.Dict.{Dict}
use omnistorage_core.Base.Text.{Text}
use omnistorage_core.Sync.Listing.{list_files}
use omnistorage_core.Object.{Error}
use omnistorage_core.Object.FilePath.{join_path}
use omnistorage_core.Sync.Bisync.Conflicts.{
  Ends, Resolution, copy_to1, copy_to2, unless_dry, resolve_conflict,
}
use omnistorage_core.Sync.Bisync.Plan.{
  Action, compare_first, compare_second, compare_sides, file_map,
}
use omnistorage_core.Sync.Bisync.Run.{
  act, note_error, note_conflict, count_update, count_to1, count_to2, max_errors_reached, act_each,
  bisync, reconcile, first_result,
}
use omnistorage_core.Sync.Bisync.Types.{
  BisyncOptions, BisyncResult, Conflict, with_defaults, scan_options,
}
use omnistorage_core.Sync.Options.{FileInfo, Op, Options}
use omnistorage_core.Sync.Retry.{Failure}

-- the conflicts that are recorded with an error
abbrev pub unresolved : List Conflict → ℕ
unresolved [] = 0
unresolved (c ∷ cs) = let rest = unresolved cs in if Dict.is_some c.error then rest + 1 else rest

-- the copies, conflicts and errors of a result
abbrev pub tally : BisyncResult → ℕ
tally r = r.copied_to_path1 + r.copied_to_path2 + length r.conflicts + length r.errors

unresolved-append : (xs ys : List Conflict) → unresolved (xs ++ ys) ≡ unresolved xs + unresolved ys
unresolved-append [] ys = omega arith
unresolved-append (x ∷ xs) ys = ground (arith, unresolved-append xs ys)

-- One more action is accounted for.
abbrev Counts : BisyncResult → BisyncResult → Type 0
Counts r r' = tally r' + unresolved r.conflicts ≡ tally r + 1 + unresolved r'.conflicts

note_error-Counts :
    (p : Text) (op : Op) (e : Failure Error) (r : BisyncResult) → Counts r (note_error p op e r)
unfolding note_error
note_error-Counts p op e r =
    omega (arith, length-append r.errors (record { path = p; op = op; error = e } ∷ []))

note_conflict-Counts :
    (opts : BisyncOptions) (f1 f2 : FileInfo) (resolution : Resolution) (r : BisyncResult)
    → Counts r (note_conflict opts f1 f2 resolution r)
unfolding note_conflict note_error count_update
note_conflict-Counts opts f1 f2 resolution r =
    let c : Conflict = record {
      path = f1.path;
      path1_info = f1;
      path2_info = f2;
      resolution = resolution.label;
      error = resolution.error;
    } in
    let grown = length-append r.conflicts (c ∷ []) in
    let marked = unresolved-append r.conflicts (c ∷ []) in
    elim (Option-cases resolution.error) [
      | inl fine ↦ ground (arith, fine, grown, marked)
      | inr (e, failed) ↦ ground (
        arith,
        failed,
        grown,
        marked,
        length-append r.errors (record { path = f1.path; op = Op.conflict; error = e } ∷ []),
      )
    ]

module _ {W : Type 0} (ends : Ends W) (opts : BisyncOptions)
    (alive : (w : W) → ends.cancelled w ≡ none) (patient : is_positive opts.max_errors ≡ false)
    (path1 path2 : Text) where
  act-Counts :
      (a : Action) (r : BisyncResult) (w : W)
      → let (w', r', stop) = act ends opts path1 path2 a r w in Counts r r' × (stop ≡ false)
  unfolding act count_to1 count_to2 max_errors_reached
  act-Counts (Action.to2 f) r w =
      let outcome =
        unless_dry ends opts w
          (copy_to2 ends opts (join_path path1 f.path) (join_path path2 f.path) w) in
      elim (Result-cases outcome.1) [
        | inl (_, fine) ↦ (ground (arith, fine), ground (arith, fine))
        | inr (e, failed) ↦ (
          ground (arith, failed, note_error-Counts f.path Op.copy_to_path2 e r),
          ground (arith, failed, patient),
        )
      ]
  act-Counts (Action.to1 f) r w =
      let outcome =
        unless_dry ends opts w
          (copy_to1 ends opts (join_path path2 f.path) (join_path path1 f.path) w) in
      elim (Result-cases outcome.1) [
        | inl (_, fine) ↦ (ground (arith, fine), ground (arith, fine))
        | inr (e, failed) ↦ (
          ground (arith, failed, note_error-Counts f.path Op.copy_to_path1 e r),
          ground (arith, failed, patient),
        )
      ]
  act-Counts (Action.conflict f1 f2) r w =
      let (w', resolution) = resolve_conflict ends opts path1 path2 f1 f2 w in
      (note_conflict-Counts opts f1 f2 resolution r, refl)

  skipped-act :
      (a : Action) (r : BisyncResult) (w : W)
      → (act ends opts path1 path2 a r w).1.skipped ≡ r.skipped
  unfolding act count_to1 count_to2 note_error note_conflict count_update
  skipped-act (Action.to2 f) r w = ground arith
  skipped-act (Action.to1 f) r w = ground arith
  skipped-act (Action.conflict f1 f2) r w = ground arith

  act_each_counts :
      (actions : List Action) (r : BisyncResult) (w : W)
      → let (w', r', e) = act_each ends opts path1 path2 actions r w in
        (tally r' + unresolved r.conflicts ≡ tally r + length actions + unresolved r'.conflicts)
        × (r'.skipped ≡ r.skipped)
        × (e ≡ none)
  unfolding act_each
  act_each_counts [] r w = (omega arith, refl, refl)
  act_each_counts (a ∷ actions) r w =
      let (w', r', stop) = act ends opts path1 path2 a r w in
      let (one_more, go_on) = act-Counts a r w in
      let (others, same, no_error) = act_each_counts actions r' w' in
      (
        ground (arith, alive w, one_more, go_on, others),
        ground (arith, alive w, go_on, same, skipped-act a r w),
        ground (arith, alive w, go_on, no_error),
      )

compare_first_counts :
    (same_time : ℕ → ℕ → Bool) (opts : Options) (d other : Dict Text FileInfo)
    → let (actions, skipped) = compare_first same_time opts d other in
      length actions + skipped ≡ length d
unfolding compare_first
compare_first_counts same_time opts [] other = refl
compare_first_counts same_time opts ((p, f) ∷ d) other =
    ground (arith, compare_first_counts same_time opts d other)

compare_second_counts :
    (processed : List Text) (d : Dict Text FileInfo)
    → length (compare_second processed d)
      ≡ length (filter (λ p. not (contains processed p)) (Dict.keys d))
unfolding compare_second Dict.keys
compare_second_counts processed [] = refl
compare_second_counts processed ((p, f) ∷ d) = ground (arith, compare_second_counts processed d)

-- While nothing cancels the context and `MaxErrors` is not positive, `Bisync` of two backends that can be
-- listed returns no error, and its result accounts once for each of the first side's files and for each of the second side's
-- that the first lacks: as copied, as a conflict, as skipped, or as an error that is no conflict's.
pub handled-bisync :
    {W : Type 0} (ends : Ends W) (given : BisyncOptions) (path1 path2 : Text)
    (files1 files2 : List FileInfo) (w : W)
    → ((w : W) → ends.cancelled w ≡ none)
    → is_positive given.max_errors ≡ false
    → let opts = with_defaults given in
      let map1 = file_map files1 [] in
      let map2 = file_map files2 [] in
      list_files ends.glob ends.now (scan_options opts) ends.backend1 path1 w ≡ ok files1
      → list_files ends.glob ends.now (scan_options opts) ends.backend2 path2 w ≡ ok files2
      → (r : BisyncResult) × ((bisync ends path1 path2 given w).1 ≡ some r)
        × ((bisync ends path1 path2 given w).2 ≡ none)
        × (tally r + r.skipped
            ≡ length (ends.map_order map1)
              + length (
                  filter (λ p. not (contains (Dict.keys map1) p)) (Dict.keys (ends.map_order map2)))
              + unresolved r.conflicts)
unfolding bisync reconcile with_defaults compare_sides
handled-bisync ends given path1 path2 files1 files2 w alive patient listed1 listed2 =
    let opts = with_defaults given in
    let map1 = file_map files1 [] in
    let map2 = ends.map_order (file_map files2 []) in
    let (actions, skipped) =
      compare_sides ends.same_time ends.map_order (scan_options opts) files1 files2 in
    let (w', r, e) = act_each ends opts path1 path2 actions (first_result opts skipped) w in
    let (counted, same, no_error) =
      act_each_counts ends opts alive patient path1 path2 actions (first_result opts skipped) w in
    let (first, _) =
      compare_first ends.same_time (scan_options opts) (ends.map_order map1) (file_map files2 []) in
    (
      r,
      rw (bisync, listed1, listed2) refl,
      rw (bisync, listed1, listed2) no_error,
      omega (
        arith,
        counted,
        same,
        length-append first (compare_second (Dict.keys map1) map2),
        compare_first_counts ends.same_time (scan_options opts) (ends.map_order map1)
            (file_map files2 []),
        compare_second_counts (Dict.keys map1) map2,
      ),
    )
