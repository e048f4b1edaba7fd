-- ===== src/Sync/Engine/Planning.antt =====
-- What `Sync` of object/sync/sync.go plans to do.
use omnistorage_core.Base.{
  ℕ, ◌+◌, ◌≡◌, refl, inl, inr, Bool, true, false, not, ◌&&◌, ◌||◌, Option, none, some, List, [],
  ◌∷◌, arith, if◌then◌else◌, Bool-cases, ◌==◌, contains, list_eq, nat_eq, length,
}
use omnistorage_core.Base.Dict
use omnistorage_core.Base.Dict.{Dict, NodupKeys}
use mathlib.Core.Path.{subst}
use omnistorage_core.Sync.Engine.{to_delete, Action, compare}
use omnistorage_core.Base.Sort.{Distinct}
use omnistorage_core.Base.Text.{Text}
use omnistorage_core.Sync.Options.{Options, FileInfo, needs_update}

-- the paths of the files that are not directories
abbrev pub file_paths : List FileInfo → List Text
file_paths [] = []
file_paths (f ∷ fs) = let rest = file_paths fs in if f.is_dir then rest else f.path ∷ rest

pub tail-Distinct :
    (f : FileInfo) (fs : List FileInfo)
    → Distinct (file_paths (f ∷ fs))
    → Distinct (file_paths fs) × ((f.is_dir || not (contains (file_paths fs) f.path)) ≡ true)
tail-Distinct f fs u = elim (Bool-cases f.is_dir) [
  | inl e ↦ (rw e at u, ground arith)
  | inr e ↦ let (fresh, distinct) = rw e at u in (distinct, ground arith)
]

-- whether an entry is there that is no directory
abbrev pub is_file : Option FileInfo → Bool
is_file none = false
is_file (some f) = not f.is_dir

module _ (same_time : ℕ → ℕ → Bool) (opts : Options) where
  -- The copy that a file asks for where the destination has the files of a map.
  abbrev pub wanted : Dict Text FileInfo → FileInfo → Option Action
  wanted d f = if f.is_dir then none else elim (Dict.lookup f.path d) [
    | none ↦ some (record { file = f; is_update = false })
    | some g ↦
        if not g.is_dir && needs_update same_time f g opts && not opts.ignore_existing
        then some (record { file = f; is_update = true })
        else none
  ]

  abbrev pub all_wanted : Dict Text FileInfo → List FileInfo → List Action
  all_wanted d [] = []
  all_wanted d (f ∷ fs) =
      let rest = all_wanted d fs in elim (wanted d f) [ none ↦ rest | some a ↦ a ∷ rest ]

  wanted-erase :
      (p : Text) (d : Dict Text FileInfo) (f : FileInfo)
      → (f.is_dir || not (f.path == p)) ≡ true
      → wanted (Dict.erase p d) f ≡ wanted d f
  wanted-erase p d f h = ground (arith, Dict.lookup-erase f.path p d)

  all_wanted-erase :
      (p : Text) (d : Dict Text FileInfo) (fs : List FileInfo)
      → contains (file_paths fs) p ≡ false
      → all_wanted (Dict.erase p d) fs ≡ all_wanted d fs
  all_wanted-erase p d [] h = refl
  all_wanted-erase p d (f ∷ fs) h = ground (arith, wanted-erase p d f, all_wanted-erase p d fs)

  pub to_copy-compare :
      (fs : List FileInfo) (d : Dict Text FileInfo)
      → Distinct (file_paths fs)
      → (compare same_time opts fs d).to_copy ≡ all_wanted d fs
  unfolding compare
  to_copy-compare [] d u = refl
  to_copy-compare (f ∷ fs) d u =
      let (distinct, fresh) = tail-Distinct f fs u in
      ground (
        arith,
        all_wanted-erase f.path d fs,
        to_copy-compare fs d distinct,
        to_copy-compare fs (Dict.erase f.path d) distinct,
      )

  pub skipped-compare :
      (fs : List FileInfo) (d : Dict Text FileInfo)
      → (compare same_time opts fs d).skipped + length (compare same_time opts fs d).to_copy
        ≡ length (file_paths fs)
  unfolding compare
  skipped-compare [] d = refl
  skipped-compare (f ∷ fs) d =
      ground (arith, skipped-compare fs d, skipped-compare fs (Dict.erase f.path d))

  pub extra-compare :
      (fs : List FileInfo) (d : Dict Text FileInfo) (p : Text)
      → Dict.lookup p (compare same_time opts fs d).extra
        ≡ (if contains (file_paths fs) p then none else Dict.lookup p d)
  unfolding compare
  extra-compare [] d p = refl
  extra-compare (f ∷ fs) d p = ground (
    arith,
    extra-compare fs d p,
    extra-compare fs (Dict.erase f.path d) p,
    Dict.lookup-erase p f.path d,
  )

  extra_erased :
      (f : FileInfo) (fs : List FileInfo) (d : Dict Text FileInfo)
      → f.is_dir ≡ false
      → (compare same_time opts fs (Dict.erase f.path d)).extra
        ≡ (compare same_time opts (f ∷ fs) d).extra
  unfolding compare
  extra_erased f fs d e = ground (arith, e)

  NodupKeys-extra :
      (fs : List FileInfo) (d : Dict Text FileInfo)
      → NodupKeys d
      → NodupKeys (compare same_time opts fs d).extra
  unfolding compare
  NodupKeys-extra [] d u = u
  NodupKeys-extra (f ∷ fs) d u = elim (Bool-cases f.is_dir) [
    | inl e ↦ rw (compare, e) (NodupKeys-extra fs d u)
    | inr e ↦
        subst NodupKeys (extra_erased f fs d e)
          (NodupKeys-extra fs (Dict.erase f.path d) (Dict.erase-NodupKeys f.path d u))
  ]

  contains-to_delete :
      (d : Dict Text FileInfo) (p : Text)
      → NodupKeys d
      → contains (to_delete opts d) p ≡ (opts.delete_extra && is_file (Dict.lookup p d))
  unfolding to_delete
  contains-to_delete d p u =
      let files : Text → FileInfo → Bool = λ _ f. not f.is_dir in
      ground (arith, Dict.contains-keys (Dict.retain files d) p, Dict.lookup-retain files p d u)

  -- Where the source lists no file twice, and the map of the destination no path, `Sync` plans to copy, in their order, exactly the files that the
  -- destination lacks, and those that need an update and are a file there, unless existing files are to be
  -- left alone; it skips the others, and with `DeleteExtra`, and only then, it is to delete exactly the files of
  -- the destination that are none of the source's.
  pub compare_lem :
      (fs : List FileInfo) (d : Dict Text FileInfo)
      → NodupKeys d
      → Distinct (file_paths fs)
      → let plan = compare same_time opts fs d in
        (plan.to_copy ≡ all_wanted d fs)
        × (plan.skipped + length plan.to_copy ≡ length (file_paths fs))
        × ((p : Text)
            → contains (to_delete opts plan.extra) p ≡ (
                opts.delete_extra && is_file (Dict.lookup p d) && not (contains (file_paths fs) p)))
  compare_lem fs d u distinct =
      let plan = compare same_time opts fs d in
      (
        to_copy-compare fs d distinct,
        skipped-compare fs d,
        λ p.
            ground (
              arith,
              contains-to_delete plan.extra p (NodupKeys-extra fs d u),
              extra-compare fs d p,
            ),
      )
