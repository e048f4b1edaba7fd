-- ===== src/Sync/Check/Partition.antt =====
-- How `Check` of object/sync/check.go sorts the files of two backends.
use omnistorage_core.Base.{
  ◌≡◌, refl, sym, inl, inr, Bool, true, false, not, ◌||◌, Option, none, some, List, [], ◌∷◌, ◌++◌,
  arith, if◌then◌else◌, Bool-cases, Option-cases, ◌==◌, contains, list_eq, nat_eq, Result, ok, err,
  Result-cases, ℕ, ap, ◌∙◌,
}
use mathlib.Core.List.{append-nil, append_assoc}
use omnistorage_core.Base.Dict
use omnistorage_core.Base.Dict.{Dict, is_some}
use omnistorage_core.Base.Sort.{Distinct}
use omnistorage_core.Base.Text.{Text}
use omnistorage_core.Sync.Options.{Op, Options, FileInfo, FileError}
use omnistorage_core.Sync.Retry.{plain}
use omnistorage_core.Sync.Check.{check, file_map, CheckResult, files_match, check_each}
use omnistorage_core.Sync.Check.Classes.{
  Class, class_of_answer, is_same, is_different, is_missing, noted, noted_lem,
}
use omnistorage_core.Sync.Listing.{list_files}
use omnistorage_core.Object.{Error}
use omnistorage_core.Object.Backend.{Backend}
use omnistorage_core.Sync.Engine.Planning.{file_paths, tail-Distinct}
use omnistorage_core.Sync.Check.Answers.{files_match_total}

module _ {W : Type 0} (src dst : Backend W) (opts : Options) (src_path dst_path : Text)
    (w : W) where
  abbrev pub class_of : Dict Text FileInfo → FileInfo → Class
  class_of d f = if f.is_dir then Class.directory else elim (Dict.lookup f.path d) [
    | none ↦ Class.missing
    | some g ↦ class_of_answer (files_match src dst opts src_path dst_path f g w)
  ]

  -- the paths of the files of some classes
  abbrev pub paths_in : (Class → Bool) → Dict Text FileInfo → List FileInfo → List Text
  paths_in test d [] = []
  paths_in test d (f ∷ fs) =
      let rest = paths_in test d fs in if test (class_of d f) then f.path ∷ rest else rest

  class_of-erase :
      (p : Text) (d : Dict Text FileInfo) (f : FileInfo)
      → (f.is_dir || not (f.path == p)) ≡ true
      → class_of (Dict.erase p d) f ≡ class_of d f
  class_of-erase p d f h = ground (arith, Dict.lookup-erase f.path p d)

  paths_in-erase :
      (test : Class → Bool) (p : Text) (d : Dict Text FileInfo) (fs : List FileInfo)
      → contains (file_paths fs) p ≡ false
      → paths_in test (Dict.erase p d) fs ≡ paths_in test d fs
  paths_in-erase test p d [] h = refl
  paths_in-erase test p d (f ∷ fs) h =
      ground (arith, class_of-erase p d f, paths_in-erase test p d fs)

  -- The loop comes to its end with each path in the list of its class.
  pub record Sorted (fs : List FileInfo) (d : Dict Text FileInfo) (r : CheckResult) : Type 0 where
    pub result : CheckResult
    pub left : Dict Text FileInfo
    pub ends : check_each src dst opts src_path dst_path fs d r w ≡ some (result, left)
    pub matching : result.match ≡ r.match ++ paths_in is_same d fs
    pub differing : result.differ ≡ r.differ ++ paths_in is_different d fs
    pub lacking : result.src_only ≡ r.src_only ++ paths_in is_missing d fs
    pub waiting : result.dst_only ≡ r.dst_only
    pub remaining :
        (p : Text)
        → Dict.lookup p left ≡ (if contains (file_paths fs) p then none else Dict.lookup p d)

  abbrev failures_of : FileInfo → Option (Result Error Bool) → List FileError
  failures_of f none = []
  failures_of f (some (err e)) = record { path = f.path; op = Op.compare; error = plain e } ∷ []
  failures_of f (some (ok b)) = []

  abbrev failures : Dict Text FileInfo → FileInfo → List FileError
  failures d f = elim (Dict.lookup f.path d) [
    | none ↦ []
    | some g ↦ failures_of f (files_match src dst opts src_path dst_path f g w)
  ]

  abbrev without : FileInfo → Dict Text FileInfo → Dict Text FileInfo
  without f d = if f.is_dir then d else Dict.erase f.path d

  -- one round of the loop
  check_each-cons :
      (f : FileInfo) (fs : List FileInfo) (d : Dict Text FileInfo) (r : CheckResult)
      → check_each src dst opts src_path dst_path (f ∷ fs) d r w
        ≡ check_each src dst opts src_path dst_path fs
            (without f d)
            (noted (class_of d f) f.path (failures d f) r)
            w
  unfolding check_each
  check_each-cons f fs d r = elim (Bool-cases f.is_dir) [
    | inl e ↦ ground (arith, e)
    | inr e ↦ elim (Option-cases (Dict.lookup f.path d)) [
      | inl gone ↦ ground (arith, e, gone, Dict.erase_absent f.path d gone)
      | inr (g, there) ↦ elim (Option-cases (files_match src dst opts src_path dst_path f g w)) [
        | inl never ↦
            absurd (ground (arith, never, files_match_total src dst opts src_path dst_path f g w))
        | inr (answer, m) ↦ elim (Result-cases answer) [
          | inr (x, failed) ↦ ground (arith, e, there, m, failed)
          | inl (b, fine) ↦ elim (Bool-cases b) [
            | inl equal ↦ ground (arith, e, there, m, fine, equal)
            | inr unequal ↦ ground (arith, e, there, m, fine, unequal)
          ]
        ]
      ]
    ]
  ]

  paths_in-cons :
      (test : Class → Bool) (f : FileInfo) (fs : List FileInfo) (d : Dict Text FileInfo)
      (xs : List Text)
      → Distinct (file_paths (f ∷ fs))
      → xs ++ paths_in test d (f ∷ fs)
        ≡ xs ++ (if test (class_of d f) then f.path ∷ [] else []) ++ paths_in test (without f d) fs
  paths_in-cons test f fs d xs u =
      let (distinct, fresh) = tail-Distinct f fs u in
      ground (
        arith,
        append_assoc xs (f.path ∷ []) (paths_in test d fs),
        append-nil xs,
        paths_in-erase test f.path d fs,
      )

  pub check_each_lem :
      (fs : List FileInfo) (d : Dict Text FileInfo) (r : CheckResult)
      → Distinct (file_paths fs)
      → Sorted fs d r
  unfolding check_each
  check_each_lem [] d r u = record {
    result = r;
    left = d;
    ends = refl;
    matching = sym (append-nil r.match);
    differing = sym (append-nil r.differ);
    lacking = sym (append-nil r.src_only);
    waiting = refl;
    remaining = λ p. refl;
  }
  check_each_lem (f ∷ fs) d r u =
      let c = class_of d f in
      let r' = noted c f.path (failures d f) r in
      let s = check_each_lem fs (without f d) r' (tail-Distinct f fs u).0 in
      let (matching, differing, lacking, waiting) = noted_lem c f.path (failures d f) r in
      record {
        result = s.result;
        left = s.left;
        ends = check_each-cons f fs d r ∙ s.ends;
        matching =
            s.matching
            ∙ ap (λ xs. xs ++ paths_in is_same (without f d) fs) matching
            ∙ sym (paths_in-cons is_same f fs d r.match u);
        differing =
            s.differing
            ∙ ap (λ xs. xs ++ paths_in is_different (without f d) fs) differing
            ∙ sym (paths_in-cons is_different f fs d r.differ u);
        lacking =
            s.lacking
            ∙ ap (λ xs. xs ++ paths_in is_missing (without f d) fs) lacking
            ∙ sym (paths_in-cons is_missing f fs d r.src_only u);
        waiting = s.waiting ∙ waiting;
        remaining = λ p. ground (arith, s.remaining p, Dict.lookup-erase p f.path d);
      }

  -- When both backends can be listed and the source lists no file twice, `Check` ends and sorts the source's
  -- files, in their order: those without a counterpart as only in the source, the others by whether the
  -- comparison of the two files found them the same or different. As only in the destination it reports the
  -- keys of a map that has lost exactly the source's paths.
  pub check_lem :
      (glob : Text → Text → Bool) (now : ℕ) (order : List Text → List Text)
      (src_files dst_files : List FileInfo)
      → list_files glob now opts src src_path w ≡ ok src_files
      → list_files glob now opts dst dst_path w ≡ ok dst_files
      → Distinct (file_paths src_files)
      → let m = file_map src dst opts src_path dst_path dst_files [] in
        (r : CheckResult) × (left : Dict Text FileInfo) × (check src dst opts src_path dst_path glob
            now order w
          ≡ some (ok r))
        × (r.match ≡ paths_in is_same m src_files)
        × (r.differ ≡ paths_in is_different m src_files)
        × (r.src_only ≡ paths_in is_missing m src_files)
        × (r.dst_only ≡ order (Dict.keys left))
        × ((p : Text)
            → Dict.lookup p left
              ≡ (if contains (file_paths src_files) p then none else Dict.lookup p m))
  unfolding check
  check_lem glob now order src_files dst_files listed_src listed_dst u =
      let m = file_map src dst opts src_path dst_path dst_files [] in
      let start : CheckResult = record {
        match = [];
        differ = [];
        src_only = [];
        dst_only = [];
        errors = [];
      } in
      let s = check_each_lem src_files m start u in
      (
        record s.result { dst_only = order (Dict.keys s.left) },
        s.left,
        rw (check, listed_src, listed_dst, s.ends, s.waiting) refl,
        s.matching,
        s.differing,
        s.lacking,
        refl,
        s.remaining,
      )
