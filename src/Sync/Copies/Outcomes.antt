-- ===== src/Sync/Copies/Outcomes.antt =====
-- What the copies of object/sync/copy.go count, and what a dry run of them leaves alone.
use omnistorage_core.Base.{
  ◌+◌, ◌≡◌, refl, true, false, none, some, List, [], ◌∷◌, arith, length, list_eq, nat_eq,
  is_positive, Bool-cases, Result-cases, inl, inr, ok,
}
use omnistorage_core.Base.Text.{Text}
use omnistorage_core.Object.FilePath.{join_path}
use omnistorage_core.Sync.Copies.{
  copy, copy_single, tree_copy, tree_each, is_passed, empty_report, copy_error,
}
use omnistorage_core.Sync.Engine.{Env}
use omnistorage_core.Sync.Engine.Accounting.{handled, handled-add_error, impatient}
use omnistorage_core.Sync.Engine.Untouched.{sync_dry}
use omnistorage_core.Sync.Listing.{relative}
use omnistorage_core.Sync.Options.{Options, Report, add_error}
use omnistorage_core.Sync.Transfer.{copy_file}

module _ {W : Type 0} (env : Env W) (opts : Options) where
  module _ (alive : (w : W) → env.cancelled w ≡ none)
      (patient : is_positive opts.max_errors ≡ false) (src_path dst_path : Text) where
    handled-tree_each :
        (ps : List Text) (r : Report) (w : W)
        → (handled (tree_each env opts src_path dst_path ps r w).1 ≡ handled r + length ps)
          × ((tree_each env opts src_path dst_path ps r w).2 ≡ none)
    unfolding tree_each
    handled-tree_each [] r w = (omega arith, refl)
    handled-tree_each (p ∷ ps) r w =
        let q = join_path dst_path (relative src_path p) in
        let skipped : Report = record r { skipped = r.skipped + 1 } in
        let done : Report = record r { copied = r.copied + 1 } in
        let (w', copied) = copy_file env.src env.dst env.same_backend p q w in
        elim (Bool-cases (is_passed env opts q w)) [
          | inl passed ↦
              let (a, b) = handled-tree_each ps skipped w in
              (ground (arith, alive w, passed, a), ground (arith, alive w, passed, b))
          | inr fresh ↦ elim (Bool-cases opts.dry_run) [
            | inl dry ↦
                let (a, b) = handled-tree_each ps done w in
                (ground (arith, alive w, fresh, dry, a), ground (arith, alive w, fresh, dry, b))
            | inr wet ↦ elim (Result-cases copied) [
              | inl (_, fine) ↦
                  let (a, b) = handled-tree_each ps done w' in
                  (
                    ground (arith, alive w, fresh, wet, fine, a),
                    ground (arith, alive w, fresh, wet, fine, b),
                  )
              | inr (e, broken) ↦
                  let failed = add_error (copy_error p e) r in
                  let (a, b) = handled-tree_each ps failed w' in
                  let go_on = impatient opts failed patient in
                  (
                    ground (
                      arith,
                      alive w,
                      fresh,
                      wet,
                      broken,
                      go_on,
                      a,
                      handled-add_error (copy_error p e) r,
                    ),
                    ground (arith, alive w, fresh, wet, broken, go_on, b),
                  )
            ]
          ]
        ]

    -- While nothing cancels the context and `MaxErrors` is not positive, `TreeCopy` returns no error and
    -- counts each path that the source lists once: as copied, skipped or failed.
    pub handled-tree_copy :
        (ps : List Text) (w : W)
        → env.src.list src_path w ≡ ok ps
        → (r : Report) × ((tree_copy env opts src_path dst_path w).1 ≡ some r)
          × ((tree_copy env opts src_path dst_path w).2 ≡ none)
          × (handled r ≡ length ps)
    unfolding tree_copy
    handled-tree_copy ps w listed =
        let (w', r, e) = tree_each env opts src_path dst_path ps (empty_report opts) w in
        let (all, fine) = handled-tree_each ps (empty_report opts) w in
        (r, rw (tree_copy, listed) refl, rw (tree_copy, listed) fine, omega (arith, all))

  module _ (dry : opts.dry_run ≡ true) (p q : Text) where
    copy_single_dry : (w : W) → (copy_single env opts p q w).0 ≡ w
    unfolding copy_single
    copy_single_dry w = ground (arith, dry)

    copy_dry : (w : W) → (copy env opts p q w).0 ≡ w
    unfolding copy
    copy_dry w =
        ground
          (arith, copy_single_dry w, sync_dry env (record opts { delete_extra = false }) dry p q w)

    tree_each_dry : (ps : List Text) (r : Report) (w : W) → (tree_each env opts p q ps r w).0 ≡ w
    unfolding tree_each
    tree_each_dry [] r w = refl
    tree_each_dry (x ∷ ps) r w = ground (
      arith,
      dry,
      tree_each_dry ps (record r { copied = r.copied + 1 }) w,
      tree_each_dry ps (record r { skipped = r.skipped + 1 }) w,
    )

    -- A dry run of `Copy` or of `TreeCopy` changes neither backend.
    pub dry_copies_change_nothing :
        (w : W) → ((copy env opts p q w).0 ≡ w) × ((tree_copy env opts p q w).0 ≡ w)
    unfolding tree_copy
    dry_copies_change_nothing w = (
      copy_dry w,
      elim (Result-cases (env.src.list p w)) [
        | inl (ps, listed) ↦ rw (tree_copy, listed) (tree_each_dry ps (empty_report opts) w)
        | inr (e, listed) ↦ rw (tree_copy, listed) refl
      ],
    )
