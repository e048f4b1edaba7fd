-- ===== src/Sync/Verify/Overlooked.antt =====
-- What a verification of object/sync/verify.go overlooks.
use omnistorage_core.Base.{
  ℕ, ◌≡◌, refl, Bool, true, false, ◌||◌, none, some, List, [], ◌∷◌, arith, contains, ==-refl,
  list_eq, nat_eq, ok, any,
}
use omnistorage_core.Base.Dict
use omnistorage_core.Base.Dict.{Dict}
use omnistorage_core.Base.Sort.{Distinct}
use omnistorage_core.Base.Text.{Text}
use omnistorage_core.Object.Backend.{Backend}
use omnistorage_core.Sync.Check.{file_map, in_sync}
use omnistorage_core.Sync.Check.Classes.{Class, is_different, is_missing}
use omnistorage_core.Sync.Check.Partition.{class_of, paths_in, check_lem}
use omnistorage_core.Sync.Engine.Planning.{file_paths}
use omnistorage_core.Sync.Listing.{list_files}
use omnistorage_core.Sync.Options.{Options, FileInfo}
use omnistorage_core.Sync.Verify.{verify}

-- whether a file counts against a verification
abbrev pub is_wanting : Class → Bool
is_wanting c = is_different c || is_missing c

no_keys : (d : Dict Text FileInfo) → ((p : Text) → Dict.lookup p d ≡ none) → Dict.keys d ≡ []
unfolding Dict.lookup Dict.keys
no_keys [] h = refl
no_keys ((p, f) ∷ d) h = absurd (ground (arith, h p, ==-refl p))

module _ {W : Type 0} (src dst : Backend W) (opts : Options) (src_path dst_path : Text)
    (w : W) where
  paths_in-none :
      (d : Dict Text FileInfo) (fs : List FileInfo)
      → any (λ f. is_wanting (class_of src dst opts src_path dst_path w d f)) fs ≡ false
      → (paths_in src dst opts src_path dst_path w is_different d fs ≡ [])
        × (paths_in src dst opts src_path dst_path w is_missing d fs ≡ [])
  paths_in-none d [] h = (refl, refl)
  paths_in-none d (f ∷ fs) h =
      let (a, b) = paths_in-none d fs (ground (arith, h)) in
      (ground (arith, h, a), ground (arith, h, b))

  -- Where each file of the source is the same as its counterpart or could not be compared with it, and the
  -- destination has no other files, `Verify` answers that all is well: a file that cannot be read
  -- does not count against it. Both backends can be listed, and the source lists no file twice.
  pub verify_overlooks :
      (glob : Text → Text → Bool) (now : ℕ) (order : List Text → List Text)
      (src_files dst_files : List FileInfo)
      → list_files glob now opts src src_path w ≡ ok src_files
      → list_files glob now opts dst dst_path w ≡ ok dst_files
      → Distinct (file_paths src_files)
      → order [] ≡ []
      → let m = file_map src dst opts src_path dst_path dst_files [] in
        any (λ f. is_wanting (class_of src dst opts src_path dst_path w m f)) src_files ≡ false
        → ((p : Text) → contains (file_paths src_files) p ≡ false → Dict.lookup p m ≡ none)
        → verify src dst glob now order src_path dst_path opts w ≡ some (ok true)
  unfolding verify in_sync nat_eq
  verify_overlooks glob now order src_files dst_files listed_src listed_dst distinct none_to_order
        unwanting no_others =
      let m = file_map src dst opts src_path dst_path dst_files [] in
      let (r, left, checked, same, different, missing, extra, remaining) =
        check_lem src dst opts src_path dst_path w glob now order src_files dst_files listed_src
          listed_dst distinct in
      let (none_different, none_missing) = paths_in-none m src_files unwanting in
      let nothing_left = no_keys left (λ p. ground (arith, remaining p, no_others p)) in
      rw
        (
          verify, checked, different, none_different, missing, none_missing, extra, nothing_left,
          none_to_order,
        )
        refl
