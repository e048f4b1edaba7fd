-- ===== src/Sync/Bisync/Settling.antt =====
-- What one action of object/sync/bisync.go makes of two backends that do not fail, where a strategy
-- lets one of two conflicting files win.
use omnistorage_core.Base.{
  ℕ, ◌≡◌, refl, ◌∙◌, Bool, true, false, Option, none, some, List, arith, ltb, ltz, if◌then◌else◌,
  ◌==◌, list_eq, nat_eq, ok, Bool-cases, inl, inr,
}
use omnistorage_core.Base.Text.{Text}
use omnistorage_core.Object.FilePath.{join_path}
use omnistorage_core.Sync.Bisync.Conflicts.{
  Resolution, settled, Copied, unless_dry, Ends, copy_to1, copy_to2, resolve_conflict, resolve_by,
}
use omnistorage_core.Sync.Bisync.Plan.{Action}
use omnistorage_core.Sync.Bisync.Run.{act, note_conflict, count_update, count_to1, count_to2}
use omnistorage_core.Sync.Bisync.Types.{BisyncOptions, BisyncResult, ConflictStrategy, copy_options}
use omnistorage_core.Sync.Options.{FileInfo}
use omnistorage_core.Sync.Transfer.Contents.{Views, IsLawful, Differs, copy_file_with_context_lem}

-- What stands in the two backends, at the paths that they accept.
pub record Sides (W : Type 0) : Type 0 where
  pub is_path1 : Text → Bool
  pub is_path2 : Text → Bool
  pub in1 : W → Text → Option (List ℕ)
  pub in2 : W → Text → Option (List ℕ)
  pub pending1 : W → ℕ → Option (Text × List ℕ)
  pub pending2 : W → ℕ → Option (Text × List ℕ)

module _ {W : Type 0} (s : Sides W) where
  -- a copy from the first backend to the second, and one the other way
  abbrev pub forward : Views W
  forward = record { is_path = s.is_path2; in_src = s.in1; in_dst = s.in2; pending = s.pending2 }

  abbrev pub backward : Views W
  backward = record { is_path = s.is_path1; in_src = s.in2; in_dst = s.in1; pending = s.pending1 }

-- whether a strategy lets one of the two files replace the other
abbrev pub is_decisive : ConflictStrategy → Bool
is_decisive ConflictStrategy.newer_wins = true
is_decisive ConflictStrategy.larger_wins = true
is_decisive ConflictStrategy.source_wins = true
is_decisive ConflictStrategy.dest_wins = true
is_decisive ConflictStrategy.keep_both = false
is_decisive ConflictStrategy.skip = false
is_decisive ConflictStrategy.report = false
is_decisive (ConflictStrategy.unknown n) = false

-- whether the first of two conflicting files wins
abbrev pub prefers_first : ConflictStrategy → FileInfo → FileInfo → Bool
prefers_first ConflictStrategy.newer_wins f1 f2 = ltb f2.mod_time f1.mod_time
prefers_first ConflictStrategy.larger_wins f1 f2 = ltz f2.size f1.size
prefers_first ConflictStrategy.source_wins f1 f2 = true
prefers_first ConflictStrategy.dest_wins f1 f2 = false
prefers_first ConflictStrategy.keep_both f1 f2 = false
prefers_first ConflictStrategy.skip f1 f2 = false
prefers_first ConflictStrategy.report f1 f2 = false
prefers_first (ConflictStrategy.unknown n) f1 f2 = false

-- whether an action's file is the first backend's
abbrev pub is_from_first : ConflictStrategy → Action → Bool
is_from_first s (Action.to2 f) = true
is_from_first s (Action.to1 f) = false
is_from_first s (Action.conflict f1 f2) = prefers_first s f1 f2

abbrev pub path_of : Action → Text
path_of (Action.to2 f) = f.path
path_of (Action.to1 f) = f.path
path_of (Action.conflict f1 f2) = f1.path

-- A conflict is between two files of the same path.
abbrev pub IsOfOnePath : Action → Type 0
IsOfOnePath (Action.to2 f) = Unit
IsOfOnePath (Action.to1 f) = Unit
IsOfOnePath (Action.conflict f1 f2) = f2.path ≡ f1.path

-- A run that may write, with a decisive strategy and a context that stays alive, between two distinct
-- backends that keep what their interface promises.
pub record Cooperate {W : Type 0} (ends : Ends W) (s : Sides W) (opts : BisyncOptions)
    : Type 0 where
  pub distinct : ends.same_backend ≡ false
  pub alive : (w : W) → ends.cancelled w ≡ none
  pub for_real : opts.dry_run ≡ false
  pub decisive : is_decisive opts.conflict_strategy ≡ true
  pub to2_lawful : IsLawful (forward s) ends.backend1 ends.backend2
  pub to1_lawful : IsLawful (backward s) ends.backend2 ends.backend1

errors-count_update :
    (copied : Copied) (f1 f2 : FileInfo) (r : BisyncResult)
    → (count_update copied f1 f2 r).errors ≡ r.errors
unfolding count_update
errors-count_update copied f1 f2 r = ground arith

errors-note_conflict :
    (opts : BisyncOptions) (f1 f2 : FileInfo) (resolution : Resolution) (r : BisyncResult)
    → resolution.error ≡ none
    → (note_conflict opts f1 f2 resolution r).errors ≡ r.errors
unfolding note_conflict
errors-note_conflict opts f1 f2 resolution r fine =
    ground (arith, fine, errors-count_update resolution.copied f1 f2 r)

module _ {W : Type 0} (ends : Ends W) (s : Sides W) (opts : BisyncOptions)
    (c : Cooperate ends s opts) (path1 path2 : Text) where
  copied_to2 :
      (p q : Text) (w : W) {content : List ℕ}
      → s.in1 w p ≡ some content
      → s.is_path2 q ≡ true
      → ((copy_to2 ends opts p q w).1 ≡ ok tt)
        × Differs (forward s) q (some content) w (copy_to2 ends opts p q w).0
  copied_to2 p q w there good = rw c.distinct (
      copy_file_with_context_lem ends.backend1 ends.backend2 (forward s) c.to2_lawful ends.cancelled
        ends.interrupted ends.scale ends.jittered (copy_options opts) p q w there good)

  copied_to1 :
      (p q : Text) (w : W) {content : List ℕ}
      → s.in2 w p ≡ some content
      → s.is_path1 q ≡ true
      → ((copy_to1 ends opts p q w).1 ≡ ok tt)
        × Differs (backward s) q (some content) w (copy_to1 ends opts p q w).0
  copied_to1 p q w there good = rw c.distinct (
      copy_file_with_context_lem ends.backend2 ends.backend1 (backward s) c.to1_lawful
        ends.cancelled ends.interrupted ends.scale ends.jittered (copy_options opts) p q w there
        good)

  abbrev pub at1 : Action → Text
  at1 a = join_path path1 (path_of a)

  abbrev pub at2 : Action → Text
  at2 a = join_path path2 (path_of a)

  -- the content that an action leaves on both sides
  abbrev pub winner : W → Action → Option (List ℕ)
  winner w a = if is_from_first opts.conflict_strategy a then s.in1 w (at1 a) else s.in2 w (at2 a)

  -- The file of an action is there, and its path is accepted on both sides.
  abbrev pub Ready : W → Action → Type 0
  Ready w a =
      ((content : List ℕ) × (winner w a ≡ some content))
      × (s.is_path1 (at1 a) ≡ true)
      × (s.is_path2 (at2 a) ≡ true)
      × IsOfOnePath a

  -- What an action makes of the two backends.
  abbrev pub Settles : Action → W → W → Type 0
  Settles a w w' =
      ((x : Text) → s.in1 w' x ≡ (if x == at1 a then winner w a else s.in1 w x))
      × ((x : Text) → s.in2 w' x ≡ (if x == at2 a then winner w a else s.in2 w x))

  -- What a resolution makes of the two backends, where the winner's content is known.
  abbrev Resolves : Text → List ℕ → W → W × Resolution → Type 0
  Resolves p content w (w', resolution) =
      (resolution.error ≡ none)
      × ((x : Text) → s.in1 w' x ≡ (if x == join_path path1 p then some content else s.in1 w x))
      × ((x : Text) → s.in2 w' x ≡ (if x == join_path path2 p then some content else s.in2 w x))

  first_wins_lem :
      (label p : Text) (w : W) {content : List ℕ}
      → s.in1 w (join_path path1 p) ≡ some content
      → s.is_path2 (join_path path2 p) ≡ true
      → Resolves p content w (
          settled label Copied.to2
            (unless_dry ends opts w (copy_to2 ends opts (join_path path1 p) (join_path path2 p) w)))
  first_wins_lem label p w there good =
      let (fine, (now1, now2)) = copied_to2 (join_path path1 p) (join_path path2 p) w there good in
      (
        ground (arith, c.for_real, fine),
        λ x. ground (arith, c.for_real, fine, now1 x, there),
        λ x. ground (arith, c.for_real, fine, now2 x),
      )

  second_wins_lem :
      (label p : Text) (w : W) {content : List ℕ}
      → s.in2 w (join_path path2 p) ≡ some content
      → s.is_path1 (join_path path1 p) ≡ true
      → Resolves p content w (
          settled label Copied.to1
            (unless_dry ends opts w (copy_to1 ends opts (join_path path2 p) (join_path path1 p) w)))
  second_wins_lem label p w there good =
      let (fine, (now2, now1)) = copied_to1 (join_path path2 p) (join_path path1 p) w there good in
      (
        ground (arith, c.for_real, fine),
        λ x. ground (arith, c.for_real, fine, now1 x),
        λ x. ground (arith, c.for_real, fine, now2 x, there),
      )

  resolve_by_lem :
      (strategy : ConflictStrategy) (f1 f2 : FileInfo) (w : W) {content : List ℕ}
      → is_decisive strategy ≡ true
      → (if prefers_first strategy f1 f2
          then s.in1 w (join_path path1 f1.path)
          else s.in2 w (join_path path2 f1.path))
        ≡ some content
      → s.is_path1 (join_path path1 f1.path) ≡ true
      → s.is_path2 (join_path path2 f1.path) ≡ true
      → f2.path ≡ f1.path
      → Resolves f1.path content w (resolve_by ends opts path1 path2 strategy f1 f2 w)
  unfolding resolve_by
  resolve_by_lem ConflictStrategy.newer_wins f1 f2 w d there good1 good2 same =
      elim (Bool-cases (ltb f2.mod_time f1.mod_time)) [
        | inl newer ↦
            rw (newer, same) (first_wins_lem _ f1.path w (ground (arith, newer, there)) good2)
        | inr older ↦
            rw (older, same) (second_wins_lem _ f1.path w (ground (arith, older, there)) good1)
      ]
  resolve_by_lem ConflictStrategy.larger_wins f1 f2 w d there good1 good2 same =
      elim (Bool-cases (ltz f2.size f1.size)) [
        | inl larger ↦
            rw (larger, same) (first_wins_lem _ f1.path w (ground (arith, larger, there)) good2)
        | inr smaller ↦
            rw (smaller, same) (second_wins_lem _ f1.path w (ground (arith, smaller, there)) good1)
      ]
  resolve_by_lem ConflictStrategy.source_wins f1 f2 w d there good1 good2 same =
      rw same (first_wins_lem _ f1.path w there good2)
  resolve_by_lem ConflictStrategy.dest_wins f1 f2 w d there good1 good2 same =
      rw same (second_wins_lem _ f1.path w there good1)
  resolve_by_lem ConflictStrategy.keep_both f1 f2 w d there good1 good2 same =
      absurd (ground (arith, d))
  resolve_by_lem ConflictStrategy.skip f1 f2 w d there good1 good2 same = absurd (ground (arith, d))
  resolve_by_lem ConflictStrategy.report f1 f2 w d there good1 good2 same =
      absurd (ground (arith, d))
  resolve_by_lem (ConflictStrategy.unknown n) f1 f2 w d there good1 good2 same =
      absurd (ground (arith, d))

  act-conflict :
      (f1 f2 : FileInfo) (r : BisyncResult) (w : W)
      → Ready w (Action.conflict f1 f2)
      → let (w', r', stop) = act ends opts path1 path2 (Action.conflict f1 f2) r w in
        (stop ≡ false) × (r'.errors ≡ r.errors) × Settles (Action.conflict f1 f2) w w'
  unfolding act resolve_conflict
  act-conflict f1 f2 r w ((content, there), good1, good2, same) =
      let (fine, now1, now2) =
        resolve_by_lem opts.conflict_strategy f1 f2 w c.decisive there good1 good2 same in
      let (w', resolution) = resolve_conflict ends opts path1 path2 f1 f2 w in
      (
        refl,
        errors-note_conflict opts f1 f2 resolution r fine,
        (λ x. now1 x ∙ ground (arith, there), λ x. now2 x ∙ ground (arith, there)),
      )

  pub act_lem :
      (a : Action) (r : BisyncResult) (w : W)
      → Ready w a
      → let (w', r', stop) = act ends opts path1 path2 a r w in
        (stop ≡ false) × (r'.errors ≡ r.errors) × Settles a w w'
  unfolding act count_to1 count_to2
  act_lem (Action.to2 f) r w ((content, there), good1, good2, same) =
      let p = join_path path1 f.path in
      let q = join_path path2 f.path in
      let (fine, (now1, now2)) = copied_to2 p q w there good2 in
      (
        ground (arith, c.for_real, fine),
        ground (arith, c.for_real, fine),
        (
          λ x. ground (arith, c.for_real, fine, now1 x),
          λ x. ground (arith, c.for_real, fine, now2 x, there),
        ),
      )
  act_lem (Action.to1 f) r w ((content, there), good1, good2, same) =
      let p = join_path path1 f.path in
      let q = join_path path2 f.path in
      let (fine, (now2, now1)) = copied_to1 q p w there good1 in
      (
        ground (arith, c.for_real, fine),
        ground (arith, c.for_real, fine),
        (
          λ x. ground (arith, c.for_real, fine, now1 x, there),
          λ x. ground (arith, c.for_real, fine, now2 x),
        ),
      )
  act_lem (Action.conflict f1 f2) r w ready = act-conflict f1 f2 r w ready
