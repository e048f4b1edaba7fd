-- ===== src/Sync/Engine/Outcome.antt =====
-- What `Sync` of object/sync/sync.go leaves at each path of the destination.
use omnistorage_core.Base.{
  ◌≡◌, refl, false, none, List, [], ◌∷◌, map, arith, if◌then◌else◌, ◌==◌, contains, ==-refl,
  list_eq, nat_eq, All, ◌||◌, ok, ◌++◌, true,
}
use omnistorage_core.Sync.Options.{Options, FileInfo}
use omnistorage_core.Sync.Engine.{Env, Action, file_map, compare, to_delete, sync}
use omnistorage_core.Sync.Engine.Mirror.{Objects, Works, Copyable, placed, removed, sync_refines}
use omnistorage_core.Sync.Transfer.Contents.{Views}
use omnistorage_core.Sync.Listing.{list_files}
use omnistorage_core.Object.FilePath.{join_path}
use omnistorage_core.Base.Sort.{Distinct}
use omnistorage_core.Base.Text.{Text}

module _ (src_path dst_path : Text) where
  abbrev pub source : Action → Text
  source a = join_path src_path a.file.path

  abbrev pub target : Action → Text
  target a = join_path dst_path a.file.path

  removed_lem :
      (ps : List Text) (m : Objects) (q : Text)
      → removed src_path dst_path ps m q
        ≡ (if contains (map (join_path dst_path) ps) q then none else m q)
  removed_lem [] m q = refl
  removed_lem (p ∷ ps) m q =
      ground (arith, removed_lem ps (λ x. if x == join_path dst_path p then none else m x) q)

  placed_elsewhere :
      (from : Objects) (actions : List Action) (m : Objects) (q : Text)
      → contains (map target actions) q ≡ false
      → placed src_path dst_path from actions m q ≡ m q
  placed_elsewhere from [] m q h = refl
  placed_elsewhere from (a ∷ actions) m q h =
      ground (
        arith,
        placed_elsewhere from actions (λ x. if x == target a then from (source a) else m x) q,
      )

  placed_lem :
      (from : Objects) (actions : List Action) (m : Objects)
      → Distinct (map target actions)
      → All (λ a. placed src_path dst_path from actions m (target a) ≡ from (source a)) actions
  placed_lem from [] m u = tt
  placed_lem from (a ∷ actions) m (fresh, u) =
      let m' : Objects = λ x. if x == target a then from (source a) else m x in
      (
        ground (arith, placed_elsewhere from actions m' (target a) fresh, ==-refl (target a)),
        placed_lem from actions m' u,
      )

contains-append :
    (xs ys : List Text) (x : Text) → contains (xs ++ ys) x ≡ (contains xs x || contains ys x)
contains-append [] ys x = refl
contains-append (z ∷ xs) ys x = ground (arith, contains-append xs ys x)

Distinct-append :
    (xs ys : List Text) → Distinct (xs ++ ys) → Distinct xs × All (λ x. contains ys x ≡ false) xs
Distinct-append [] ys u = (tt, tt)
Distinct-append (x ∷ xs) ys (fresh, u) =
    let (distinct, apart) = Distinct-append xs ys u in
    (
      (ground (arith, contains-append xs ys x), distinct),
      (ground (arith, contains-append xs ys x), apart),
    )

All-map :
    {A B : Type 0} (P : B → Type 0) (f : A → B) (xs : List A)
    → All P (map f xs)
    → All (λ x. P (f x)) xs
All-map P f [] _ = tt
All-map P f (x ∷ xs) (h, hs) = (h, All-map P f xs hs)

All-zip :
    {A : Type 0} (P Q R : A → Type 0) (xs : List A)
    → ((x : A) → P x → Q x → R x)
    → All P xs
    → All Q xs
    → All R xs
All-zip P Q R [] g _ _ = tt
All-zip P Q R (x ∷ xs) g (h, hs) (k, ks) = (g x h k, All-zip P Q R xs g hs ks)

-- `Sync`, with writing allowed and a context that stays alive, from one backend to another that keep
-- what their interface promises, where both can be listed, the files to copy are there, the paths to
-- write and to delete are accepted, and no two of them are the same: it leaves at each path that it copies to the content of the source's file, nothing at a path that it
-- deletes, and at any other path what was there.
pub sync_mirrors :
    {W : Type 0} (env : Env W) (v : Views W) (opts : Options) (works : Works env v opts)
    (src_path dst_path : Text) (src_files dst_files : List FileInfo) (w : W)
    → list_files env.glob env.now opts env.src src_path w ≡ ok src_files
    → list_files env.glob env.now opts env.dst dst_path w ≡ ok dst_files
    → let plan = compare env.same_time opts src_files (file_map dst_files []) in
      let copies = env.copy_order plan.to_copy in
      let extra = env.delete_order (to_delete opts plan.extra) in
      let targets = map (target src_path dst_path) copies in
      let deleted = map (join_path dst_path) extra in
      let objects = v.in_dst (sync env opts src_path dst_path w).0 in
      All (Copyable env v opts works src_path dst_path (v.in_src w)) copies
      → All (λ p. v.is_path (join_path dst_path p) ≡ true) extra
      → Distinct (targets ++ deleted)
      → All
          (λ a. objects (target src_path dst_path a) ≡ v.in_src w (source src_path dst_path a))
          copies
        × ((q : Text) → contains deleted q ≡ true → objects q ≡ none)
        × ((q : Text)
            → contains targets q ≡ false
            → contains deleted q ≡ false
            → objects q ≡ v.in_dst w q)
sync_mirrors env v opts works src_path dst_path src_files dst_files w listed_src listed_dst copyable
      deletable u =
    let plan = compare env.same_time opts src_files (file_map dst_files []) in
    let copies = env.copy_order plan.to_copy in
    let extra = env.delete_order (to_delete opts plan.extra) in
    let targets = map (target src_path dst_path) copies in
    let deleted = map (join_path dst_path) extra in
    let (r, same, fine, no_errors, in_src, in_dst) =
      sync_refines env v opts works src_path dst_path src_files dst_files w listed_src listed_dst
        copyable deletable in
    let m = placed src_path dst_path (v.in_src w) copies (v.in_dst w) in
    let (distinct, apart) = Distinct-append targets deleted u in
    (
      All-zip _ _ _ copies
          (λ a h k. ground (
            arith,
            in_dst (target src_path dst_path a),
            removed_lem src_path dst_path extra m (target src_path dst_path a),
            h,
            k,
          ))
          (placed_lem src_path dst_path (v.in_src w) copies (v.in_dst w) distinct)
          (All-map _ (target src_path dst_path) copies apart),
      λ q h. ground (arith, in_dst q, removed_lem src_path dst_path extra m q),
      λ q h k. ground (
        arith,
        in_dst q,
        removed_lem src_path dst_path extra m q,
        placed_elsewhere src_path dst_path (v.in_src w) copies (v.in_dst w) q,
      ),
    )
