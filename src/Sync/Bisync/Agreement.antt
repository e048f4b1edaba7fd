-- ===== src/Sync/Bisync/Agreement.antt =====
-- What `Bisync` of object/sync/bisync.go makes of two backends that do not fail, where a strategy
-- lets one of two conflicting files win.
use omnistorage_core.Base.{
  ◌≡◌, refl, ◌∙◌, false, none, some, List, [], ◌∷◌, map, arith, ◌==◌, contains, ==-refl, list_eq,
  nat_eq, ok, All, Option, ℕ,
}
use omnistorage_core.Base.Sort.{Distinct}
use omnistorage_core.Base.Text.{Text}
use omnistorage_core.Object.{Error}
use mathlib.Core.Path.{subst, sym}
use omnistorage_core.Sync.Bisync.Conflicts.{Ends}
use omnistorage_core.Sync.Bisync.Plan.{Action, compare_sides}
use omnistorage_core.Sync.Bisync.Run.{act, act_each, bisync, reconcile, first_result}
use omnistorage_core.Sync.Bisync.Settling.{
  Sides, Cooperate, at1, at2, winner, Ready, Settles, act_lem,
}
use omnistorage_core.Sync.Bisync.Types.{BisyncOptions, BisyncResult, with_defaults, scan_options}
use omnistorage_core.Sync.Listing.{list_files}
use omnistorage_core.Sync.Options.{FileInfo}

module _ {W : Type 0} (ends : Ends W) (s : Sides W) (opts : BisyncOptions)
    (c : Cooperate ends s opts) (path1 path2 : Text) where
  abbrev first : Action → Text
  first a = at1 ends s opts c path1 path2 a

  abbrev second : Action → Text
  second a = at2 ends s opts c path1 path2 a

  abbrev content_of : W → Action → Option (List ℕ)
  content_of w a = winner ends s opts c path1 path2 w a

  -- Both sides have the content that an action should leave there.
  abbrev pub Agrees : W → W → Action → Type 0
  Agrees w w' a = (s.in1 w' (first a) ≡ content_of w a) × (s.in2 w' (second a) ≡ content_of w a)

  Settles-winner :
      (a b : Action) (w w' : W)
      → Settles ends s opts c path1 path2 a w w'
      → (first a == first b) ≡ false
      → (second a == second b) ≡ false
      → content_of w' b ≡ content_of w b
  Settles-winner a b w w' (now1, now2) apart1 apart2 =
      ground (arith, now1 (first b), now2 (second b), apart1, apart2)

  Settles-Ready :
      (a : Action) (actions : List Action) (w w' : W)
      → Settles ends s opts c path1 path2 a w w'
      → contains (map first actions) (first a) ≡ false
      → contains (map second actions) (second a) ≡ false
      → All (Ready ends s opts c path1 path2 w) actions
      → All (Ready ends s opts c path1 path2 w') actions
  Settles-Ready a [] w w' settled fresh1 fresh2 ready = tt
  Settles-Ready a (b ∷ actions) w w' settled fresh1 fresh2
        (((content, there), good1, good2, same), ready) =
      (
        (
          (
            content,
            Settles-winner a b w w' settled (ground (arith, fresh1)) (ground (arith, fresh2))
                ∙ there,
          ),
          good1,
          good2,
          same,
        ),
        Settles-Ready a actions w w' settled (ground (arith, fresh1)) (ground (arith, fresh2))
            ready,
      )

  Settles-Agrees :
      (a : Action) (actions : List Action) (w w' w'' : W)
      → Settles ends s opts c path1 path2 a w w'
      → contains (map first actions) (first a) ≡ false
      → contains (map second actions) (second a) ≡ false
      → All (Agrees w' w'') actions
      → All (Agrees w w'') actions
  Settles-Agrees a [] w w' w'' settled fresh1 fresh2 agree = tt
  Settles-Agrees a (b ∷ actions) w w' w'' settled fresh1 fresh2 ((x, y), agree) =
      let same =
        Settles-winner a b w w' settled (ground (arith, fresh1)) (ground (arith, fresh2)) in
      (
        (x ∙ same, y ∙ same),
        Settles-Agrees a actions w w' w'' settled (ground (arith, fresh1)) (ground (arith, fresh2))
            agree,
      )

  -- Nothing but the files of the actions differs.
  abbrev pub Keeps : List Action → W → W → Type 0
  Keeps actions w w' =
      ((x : Text) → contains (map first actions) x ≡ false → s.in1 w' x ≡ s.in1 w x)
      × ((x : Text) → contains (map second actions) x ≡ false → s.in2 w' x ≡ s.in2 w x)

  -- a run of actions that has come off
  abbrev Succeeds : List Action → BisyncResult → W → W × BisyncResult × Option Error → Type 0
  Succeeds actions r w (w', r', e) =
      (e ≡ none) × (r'.errors ≡ r.errors) × All (Agrees w w') actions × Keeps actions w w'

  act_each-cons :
      (a : Action) (actions : List Action) (r : BisyncResult) (w : W)
      → let (w', r', stop) = act ends opts path1 path2 a r w in
        stop ≡ false
        → act_each ends opts path1 path2 (a ∷ actions) r w
          ≡ act_each ends opts path1 path2 actions r' w'
  unfolding act_each
  act_each-cons a actions r w go_on = ground (arith, c.alive w, go_on)

  act_each_lem :
      (actions : List Action) (r : BisyncResult) (w : W)
      → Distinct (map first actions)
      → Distinct (map second actions)
      → All (Ready ends s opts c path1 path2 w) actions
      → Succeeds actions r w (act_each ends opts path1 path2 actions r w)
  unfolding act_each
  act_each_lem [] r w u1 u2 ready = (refl, refl, tt, (λ x h. refl, λ x h. refl))
  act_each_lem (a ∷ actions) r w (fresh1, u1) (fresh2, u2) (ready, readies) =
      let (w1, r1, stop) = act ends opts path1 path2 a r w in
      let (go_on, same_errors, (now1, now2)) = act_lem ends s opts c path1 path2 a r w ready in
      let (no_error, same_errors', agree, (kept1, kept2)) =
        act_each_lem actions r1 w1 u1 u2
          (Settles-Ready a actions w w1 (now1, now2) fresh1 fresh2 readies) in
      let (w2, r2, e) = act_each ends opts path1 path2 actions r1 w1 in
      subst (Succeeds (a ∷ actions) r w) (sym (act_each-cons a actions r w go_on)) (
        no_error,
        same_errors' ∙ same_errors,
        (
          (
            ground (arith, kept1 (first a) fresh1, now1 (first a), ==-refl (first a)),
            ground (arith, kept2 (second a) fresh2, now2 (second a), ==-refl (second a)),
          ),
          Settles-Agrees a actions w w1 w2 (now1, now2) fresh1 fresh2 agree,
        ),
        (
          λ x h. kept1 x (ground (arith, h)) ∙ ground (arith, now1 x, h),
          λ x h. kept2 x (ground (arith, h)) ∙ ground (arith, now2 x, h),
        ),
      )

-- `Bisync`, with a strategy that lets one of two conflicting files win, with writing allowed and a
-- context that stays alive, between two distinct backends that keep what their interface promises: it reports no error, and leaves at the path of each action, on
-- both sides, the content of the file that is only there or wins; at any other path it leaves what
-- was there. The files of the actions are there, their paths are accepted on both sides, and no two of them are the same.
pub bisync-Agrees :
    {W : Type 0} (ends : Ends W) (s : Sides W) (given : BisyncOptions)
    (c : Cooperate ends s (with_defaults given)) (path1 path2 : Text)
    (files1 files2 : List FileInfo) (w : W)
    → let opts = with_defaults given in
      let actions =
        (compare_sides ends.same_time ends.map_order (scan_options opts) files1 files2).0 in
      list_files ends.glob ends.now (scan_options opts) ends.backend1 path1 w ≡ ok files1
      → list_files ends.glob ends.now (scan_options opts) ends.backend2 path2 w ≡ ok files2
      → Distinct (map (at1 ends s opts c path1 path2) actions)
      → Distinct (map (at2 ends s opts c path1 path2) actions)
      → All (Ready ends s opts c path1 path2 w) actions
      → let w' = (bisync ends path1 path2 given w).0 in
        ((r : BisyncResult) × ((bisync ends path1 path2 given w).1 ≡ some r) × (r.errors ≡ []))
        × ((bisync ends path1 path2 given w).2 ≡ none)
        × All (Agrees ends s opts c path1 path2 w w') actions
        × Keeps ends s opts c path1 path2 actions w w'
unfolding bisync reconcile
bisync-Agrees ends s given c path1 path2 files1 files2 w listed1 listed2 u1 u2 ready =
    let opts = with_defaults given in
    let (actions, skipped) =
      compare_sides ends.same_time ends.map_order (scan_options opts) files1 files2 in
    let (no_error, no_errors, agree, kept) =
      act_each_lem ends s opts c path1 path2 actions (first_result opts skipped) w u1 u2 ready in
    rw (bisync, listed1, listed2, reconcile) ((_, refl, no_errors), no_error, agree, kept)
