-- ===== src/Sync/Engine/Accounting.antt =====
-- How the result of `Sync` of object/sync/sync.go accounts for the files.
use omnistorage_core.Base.{
  ℕ, ◌+◌, ◌≡◌, false, none, List, [], ◌∷◌, arith, list_eq, nat_eq, length, length-append,
  is_positive, refl, Bool-cases, inl, inr, Result-cases, ok, some,
}
use omnistorage_core.Base.Text.{Text}
use omnistorage_core.Sync.Engine.{
  compare, file_map, Env, Action, count_copy, copy_one, copy_all, join_path, sync,
  copy_file_with_context, transfer, initial, to_delete, FileInfo, list_files, Op, delete_all,
}
use omnistorage_core.Sync.Engine.Planning.{file_paths, skipped-compare}
use omnistorage_core.Sync.Options.{Options, Report, add_error, is_full, FileError}

-- the number of files that a result speaks of, deletions aside
abbrev pub handled : Report → ℕ
handled r = r.copied + r.updated + r.skipped + length r.errors

pub handled-add_error : (e : FileError) (r : Report) → handled (add_error e r) ≡ handled r + 1
unfolding add_error
handled-add_error e r = omega (arith, length-append r.errors (e ∷ []))

handled-count_copy : (a : Action) (r : Report) → handled (count_copy a r) ≡ handled r + 1
unfolding count_copy
handled-count_copy a r = ground arith

pub impatient :
    (opts : Options) (r : Report) → is_positive opts.max_errors ≡ false → is_full opts r ≡ false
unfolding is_full
impatient opts r h = rw h refl

module _ {W : Type 0} (env : Env W) (opts : Options) (src_path dst_path : Text)
    (alive : (w : W) → env.cancelled w ≡ none) (patient : is_positive opts.max_errors ≡ false) where
  handled-copy_one :
      (a : Action) (r : Report) (w : W)
      → (handled (copy_one env opts src_path dst_path a r w).1 ≡ handled r + 1)
        × ((copy_one env opts src_path dst_path a r w).2 ≡ false)
  unfolding copy_one
  handled-copy_one a r w =
      let p = join_path src_path a.file.path in
      let q = join_path dst_path a.file.path in
      let copy =
        copy_file_with_context env.src env.dst env.same_backend env.cancelled env.interrupted
          env.scale env.jittered opts p q w in
      elim (Bool-cases opts.dry_run) [
        | inl dry ↦ (ground (arith, dry, handled-count_copy a r), ground (arith, dry))
        | inr wet ↦ elim (Result-cases copy.1) [
          | inl (_, fine) ↦
              (ground (arith, wet, fine, handled-count_copy a r), ground (arith, wet, fine))
          | inr (e, failed) ↦
              let x : FileError = record { path = a.file.path; op = Op.copy; error = e } in
              (
                ground (arith, wet, failed, handled-add_error x r),
                ground (arith, wet, failed, impatient opts (add_error x r) patient),
              )
        ]
      ]

  handled-copy_all :
      (actions : List Action) (r : Report) (w : W)
      → handled (copy_all env opts src_path dst_path actions r w).1 ≡ handled r + length actions
  unfolding copy_all
  handled-copy_all [] r w = omega arith
  handled-copy_all (a ∷ actions) r w =
      let (w', r', stop) = copy_one env opts src_path dst_path a r w in
      let (one_more, go_on) = handled-copy_one a r w in
      ground (arith, alive w, one_more, go_on, handled-copy_all actions r' w')

  -- While nothing cancels the context and `MaxErrors` is not positive, a `Sync` that deletes nothing counts
  -- each file of the source that is no directory once: as copied, updated, skipped or failed. Both backends
  -- can be listed, and the schedule runs as many copies as there are.
  pub handled-sync :
      (src_files dst_files : List FileInfo) (w : W)
      → ((actions : List Action) → length (env.copy_order actions) ≡ length actions)
      → opts.delete_extra ≡ false
      → env.delete_order [] ≡ []
      → list_files env.glob env.now opts env.src src_path w ≡ ok src_files
      → list_files env.glob env.now opts env.dst dst_path w ≡ ok dst_files
      → (r : Report) × ((sync env opts src_path dst_path w).1 ≡ some r)
        × ((sync env opts src_path dst_path w).2 ≡ none)
        × (handled r ≡ length (file_paths src_files))
  unfolding sync transfer initial to_delete delete_all
  handled-sync src_files dst_files w same_length keep none_to_order listed_src listed_dst =
      let plan = compare env.same_time opts src_files (file_map dst_files []) in
      let (w', r) =
        copy_all env opts src_path dst_path (env.copy_order plan.to_copy) (initial opts plan) w in
      (
        r,
        rw (sync, listed_src, listed_dst, transfer, alive w', to_delete, keep, none_to_order) refl,
        rw (sync, listed_src, listed_dst, transfer, alive w', to_delete, keep, none_to_order) refl,
        omega (
          arith,
          handled-copy_all (env.copy_order plan.to_copy) (initial opts plan) w,
          same_length plan.to_copy,
          skipped-compare env.same_time opts src_files (file_map dst_files []),
        ),
      )
