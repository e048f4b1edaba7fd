-- ===== src/Sync/Engine/Mirror.antt =====
-- What `Sync` of object/sync/sync.go makes of the destination, for backends that do not fail.
use omnistorage_core.Base.{
  ℕ, ◌≡◌, ◌∙◌, true, false, Option, none, some, List, [], ◌∷◌, arith, if◌then◌else◌, ◌==◌, list_eq,
  nat_eq, refl, All, ap, ◌+◌, ok,
}
use omnistorage_core.Sync.Engine.{
  to_delete, Env, Action, count_copy, copy_one, copy_file_with_context, copy_all, delete_all,
  transfer, initial, FileInfo, list_files, compare, file_map, sync,
}
use omnistorage_core.Object.FilePath.{join_path}
use omnistorage_core.Base.Text.{Text}
use omnistorage_core.Sync.Options.{Options, Report}
use omnistorage_core.Sync.Transfer.Contents.{Differs, Views, IsLawful, copy_file_with_context_lem}

-- The objects of a backend, by their paths.
abbrev pub Objects : Type 0
Objects = Text → Option (List ℕ)

-- A run of `Sync` that may write, with a context that stays alive, from one backend to another.
pub record Works {W : Type 0} (env : Env W) (v : Views W) (opts : Options) : Type 0 where
  pub distinct : env.same_backend ≡ false
  pub alive : (w : W) → env.cancelled w ≡ none
  pub lawful : IsLawful v env.src env.dst
  pub for_real : opts.dry_run ≡ false

module _ (src_path dst_path : Text) where
  -- the objects once the files of some actions have been copied
  abbrev pub placed : Objects → List Action → Objects → Objects
  placed from [] m = m
  placed from (a ∷ actions) m = placed from actions (λ q.
      if q == join_path dst_path a.file.path then from (join_path src_path a.file.path) else m q)

  -- the objects once some paths have been deleted
  abbrev pub removed : List Text → Objects → Objects
  removed [] m = m
  removed (p ∷ ps) m = removed ps (λ q. if q == join_path dst_path p then none else m q)

module _ {W : Type 0} (env : Env W) (v : Views W) (opts : Options) (works : Works env v opts)
    (src_path dst_path : Text) where
  -- The file of an action is there, and the destination accepts its path.
  abbrev pub Copyable : Objects → Action → Type 0
  Copyable from a =
      ((content : List ℕ) × (from (join_path src_path a.file.path) ≡ some content))
      × (v.is_path (join_path dst_path a.file.path) ≡ true)

  copied :
      (p q : Text) (w : W) {content : List ℕ}
      → v.in_src w p ≡ some content
      → v.is_path q ≡ true
      → let copy =
          copy_file_with_context env.src env.dst env.same_backend env.cancelled env.interrupted
            env.scale env.jittered opts p q w in
        (copy.1 ≡ ok tt) × Differs v q (some content) w copy.0
  copied p q w there good = rw works.distinct (
      copy_file_with_context_lem env.src env.dst v works.lawful env.cancelled env.interrupted
        env.scale env.jittered opts p q w there good)

  copy_one_lem :
      (from m : Objects) (a : Action) (r : Report) (w : W)
      → ((p : Text) → v.in_src w p ≡ from p)
      → ((q : Text) → v.in_dst w q ≡ m q)
      → Copyable from a
      → let (w', r', stop) = copy_one env opts src_path dst_path a r w in
        (stop ≡ false)
        × (r' ≡ count_copy a r)
        × ((p : Text) → v.in_src w' p ≡ from p)
        × ((q : Text)
            → v.in_dst w' q ≡ (
                if q == join_path dst_path a.file.path
                then from (join_path src_path a.file.path)
                else m q))
  unfolding copy_one
  copy_one_lem from m a r w same_src same_dst ((content, there), good) =
      let q = join_path dst_path a.file.path in
      let p = join_path src_path a.file.path in
      let (fine, (now_src, now_dst)) = copied p q w (same_src p ∙ there) good in
      (
        ground (arith, works.for_real, fine),
        ground (arith, works.for_real, fine),
        λ x. ground (arith, works.for_real, fine, now_src x, same_src x),
        λ x. ground (arith, works.for_real, fine, now_dst x, same_dst x, there),
      )

  copy_all_lem :
      (from : Objects) (actions : List Action) (m : Objects) (r : Report) (w : W)
      → ((p : Text) → v.in_src w p ≡ from p)
      → ((q : Text) → v.in_dst w q ≡ m q)
      → All (Copyable from) actions
      → let (w', r') = copy_all env opts src_path dst_path actions r w in
        (r'.errors ≡ r.errors)
        × ((p : Text) → v.in_src w' p ≡ from p)
        × ((q : Text) → v.in_dst w' q ≡ placed src_path dst_path from actions m q)
  unfolding copy_all count_copy
  copy_all_lem from [] m r w same_src same_dst c = (refl, same_src, same_dst)
  copy_all_lem from (a ∷ actions) m r w same_src same_dst (c, cs) =
      let (go_on, counted, same_src', same_dst') = copy_one_lem from m a r w same_src same_dst c in
      let (w', r', _) = copy_one env opts src_path dst_path a r w in
      let (same_errors, now_src, now_dst) =
        copy_all_lem from actions _ r' w' same_src' same_dst' cs in
      rw (copy_all, works.alive w, go_on)
        (same_errors ∙ ap (λ (x : Report). x.errors) counted, now_src, now_dst)

  delete_all_lem :
      (from : Objects) (ps : List Text) (m : Objects) (r : Report) (w : W)
      → ((p : Text) → v.in_src w p ≡ from p)
      → ((q : Text) → v.in_dst w q ≡ m q)
      → All (λ p. v.is_path (join_path dst_path p) ≡ true) ps
      → let (w', r', e) = delete_all env opts src_path dst_path ps r w in
        (e ≡ none)
        × (r'.errors ≡ r.errors)
        × ((p : Text) → v.in_src w' p ≡ from p)
        × ((q : Text) → v.in_dst w' q ≡ removed src_path dst_path ps m q)
  unfolding delete_all
  delete_all_lem from [] m r w same_src same_dst g = (refl, refl, same_src, same_dst)
  delete_all_lem from (p ∷ ps) m r w same_src same_dst (g, gs) =
      let q = join_path dst_path p in
      let (gone, (now_src, now_dst)) = works.lawful.deletes q w g in
      let (fine, same_errors, now_src', now_dst') =
        delete_all_lem from ps (λ x. if x == q then none else m x)
          (record r { deleted = r.deleted + 1 }) (env.dst.delete q w).0
          (λ x. now_src x ∙ same_src x) (λ x. ground (arith, now_dst x, same_dst x)) gs in
      (
        ground (arith, works.alive w, works.for_real, gone, fine),
        ground (arith, works.alive w, works.for_real, gone, same_errors),
        λ x. ground (arith, works.alive w, works.for_real, gone, now_src' x),
        λ x. ground (arith, works.alive w, works.for_real, gone, now_dst' x),
      )

  -- Between two distinct backends that keep what their interface promises, a `Sync` whose files are there
  -- succeeds without an error, leaves the source as it is, and turns the destination into what it was with
  -- the planned files copied and then the extra ones deleted.
  pub sync_refines :
      (src_files dst_files : List FileInfo) (w : W)
      → list_files env.glob env.now opts env.src src_path w ≡ ok src_files
      → list_files env.glob env.now opts env.dst dst_path w ≡ ok dst_files
      → let plan = compare env.same_time opts src_files (file_map dst_files []) in
        let extra = env.delete_order (to_delete opts plan.extra) in
        All (Copyable (v.in_src w)) (env.copy_order plan.to_copy)
        → All (λ p. v.is_path (join_path dst_path p) ≡ true) extra
        → (r : Report) × ((sync env opts src_path dst_path w).1 ≡ some r)
          × ((sync env opts src_path dst_path w).2 ≡ none)
          × (r.errors ≡ [])
          × ((p : Text) → v.in_src (sync env opts src_path dst_path w).0 p ≡ v.in_src w p)
          × ((q : Text)
              → v.in_dst (sync env opts src_path dst_path w).0 q
                ≡ removed src_path dst_path extra
                    (placed src_path dst_path
                      (v.in_src w)
                      (env.copy_order plan.to_copy)
                      (v.in_dst w))
                    q)
  unfolding sync transfer initial
  sync_refines src_files dst_files w listed_src listed_dst copyable deletable =
      let plan = compare env.same_time opts src_files (file_map dst_files []) in
      let copies = env.copy_order plan.to_copy in
      let (same_errors, now_src, now_dst) =
        copy_all_lem (v.in_src w) copies (v.in_dst w) (initial opts plan) w (λ p. refl) (λ q. refl)
          copyable in
      let (w', r') = copy_all env opts src_path dst_path copies (initial opts plan) w in
      let extra = env.delete_order (to_delete opts plan.extra) in
      let (fine, same_errors', now_src', now_dst') =
        delete_all_lem (v.in_src w) extra _ r' w' now_src now_dst deletable in
      let (w'', r'', e) = delete_all env opts src_path dst_path extra r' w' in
      rw (sync, listed_src, listed_dst, transfer, works.alive w')
        (r'', refl, fine, same_errors' ∙ same_errors, now_src', now_dst')
