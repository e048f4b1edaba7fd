-- ===== src/Sync/Bisync/Plan.antt =====
-- object/sync/bisync.go: the comparison of the two listings in `Bisync`.
use omnistorage_core.Base.{
  ℕ, ◌+◌, Bool, ◌||◌, none, some, List, [], ◌∷◌, ◌++◌, if◌then◌else◌, contains, list_eq, nat_eq,
}
use omnistorage_core.Base.Dict
use omnistorage_core.Base.Dict.{Dict}
use omnistorage_core.Base.Text.{Text}
use omnistorage_core.Sync.Options.{Options, FileInfo, needs_update}

-- `action`, by its direction: "to2", "to1", or "conflict" with the file of the other side
pub data Action : Type 0 where
  to2 : FileInfo → Action
  to1 : FileInfo → Action
  conflict : FileInfo → FileInfo → Action

-- `map1` and `map2`, with the files that are no directories
unfoldable pub file_map : List FileInfo → Dict Text FileInfo → Dict Text FileInfo
file_map [] d = d
file_map (f ∷ fs) d = if f.is_dir then file_map fs d else file_map fs (Dict.insert f.path f d)

-- The loop over the files of the first side: its actions, and how many files are in sync.
unfoldable pub compare_first :
    (ℕ → ℕ → Bool) → Options → Dict Text FileInfo → Dict Text FileInfo → List Action × ℕ
compare_first same_time opts [] other = ([], 0)
compare_first same_time opts ((p, f1) ∷ d) other =
    let (actions, skipped) = compare_first same_time opts d other in
    elim (Dict.lookup p other) [
      | none ↦ (to2 f1 ∷ actions, skipped)
      | some f2 ↦
          if needs_update same_time f1 f2 opts || needs_update same_time f2 f1 opts
          then (conflict f1 f2 ∷ actions, skipped)
          else (actions, skipped + 1)
    ]

-- The loop over the files of the second side, with the paths that are processed.
unfoldable pub compare_second : List Text → Dict Text FileInfo → List Action
compare_second processed [] = []
compare_second processed ((p, f2) ∷ d) =
    let rest = compare_second processed d in if contains processed p then rest else to1 f2 ∷ rest

-- Both loops; `order` is the one in which Go walks a map.
unfoldable pub compare_sides :
    (ℕ → ℕ → Bool)
    → (Dict Text FileInfo → Dict Text FileInfo)
    → Options
    → List FileInfo
    → List FileInfo
    → List Action × ℕ
compare_sides same_time order opts files1 files2 =
    let map1 = file_map files1 [] in
    let map2 = file_map files2 [] in
    let (actions, skipped) = compare_first same_time opts (order map1) map2 in
    (actions ++ compare_second (Dict.keys map1) (order map2), skipped)
