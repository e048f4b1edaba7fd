-- ===== src/Sync/Check.antt =====
-- object/sync/check.go: comparing the files of two backends. The order in which Go's map is walked is a
-- parameter.
pub mod Answers
pub mod Classes
pub mod Partition
use omnistorage_core.Base.{
  ℕ, ◌+◌, Bool, true, false, not, ◌&&◌, Option, none, some, List, [], ◌∷◌, ◌++◌, ltb, length,
  if◌then◌else◌, ◌==◌, list_eq, nat_eq, Result, ok, err, eqz, ℤ, pos_part, neg_part, negsuc, pos,
}
use omnistorage_core.Sync.Filter.{max_duration, sub_time}
use omnistorage_core.Object.{Error}
use omnistorage_core.Object.Backend.{Backend}
use omnistorage_core.Base.Dict
use omnistorage_core.Base.Dict.{Dict}
use omnistorage_core.Base.Text.{Text}
use omnistorage_core.Object.FilePath.{join_path}
use omnistorage_core.Sync.Listing.{list_files}
use omnistorage_core.Sync.Options.{Options, FileInfo, FileError, Op}
use omnistorage_core.Sync.Retry.{plain}
use omnistorage_core.Sync.Content.{opened, compare_loop, buffer_size}

-- `CheckResult`
pub record CheckResult : Type 0 where
  pub match : List Text
  pub differ : List Text
  pub src_only : List Text
  pub dst_only : List Text
  pub errors : List FileError

-- `InSync`
unfoldable pub in_sync : CheckResult → Bool
in_sync r = length r.differ == 0 && length r.src_only == 0 && length r.dst_only == 0

-- Whether `timeDiff > 1e9` once a negative duration has been negated; the least one, of -2^63, is its own
-- negative.
unfoldable pub is_far : ℤ → Bool
is_far (pos n) = ltb 1000000000 n
is_far (negsuc n) = not (n == max_duration) && ltb 1000000000 (n + 1)

module _ {W : Type 0} (src dst : Backend W) (opts : Options) (src_path dst_path : Text) where
  -- `compareContent`, whose loop takes no more rounds than the source's file has bytes, and one
  unfoldable pub compare_content : Text → Text → W → Option (Result Error Bool)
  compare_content p q w = elim (src.new_reader (join_path src_path p) w) [
    | err e ↦ some (err e)
    | ok a ↦ elim (dst.new_reader (join_path dst_path q) w) [
      | err e ↦ some (err e)
      | ok b ↦ compare_loop (length (opened a).content + 1) buffer_size (opened a) (opened b)
    ]
  ]

  -- `filesMatch`
  unfoldable pub files_match : FileInfo → FileInfo → W → Option (Result Error Bool)
  files_match f g w =
      if not opts.ignore_size && not (eqz f.size g.size)
      then some (ok false)
      else if opts.checksum && not (f.hash == []) && not (g.hash == [])
      then some (ok (f.hash == g.hash))
      else if not opts.ignore_time && not opts.checksum && is_far (sub_time f.mod_time g.mod_time)
      then some (ok false)
      else if opts.checksum
      then compare_content f.path g.path w
      else some (ok true)

  -- `dstMap`
  unfoldable pub file_map : List FileInfo → Dict Text FileInfo → Dict Text FileInfo
  file_map [] d = d
  file_map (g ∷ gs) d = file_map gs (if g.is_dir then d else Dict.insert g.path g d)

  -- the loop of `Check`, with the entries of `dstMap` that are left; `none` where a comparison has no end
  unfoldable pub check_each :
      List FileInfo
      → Dict Text FileInfo
      → CheckResult
      → W
      → Option (CheckResult × Dict Text FileInfo)
  check_each [] d r w = some (r, d)
  check_each (f ∷ fs) d r w =
      let skipped = check_each fs d r w in
      let missing = check_each fs d (record r { src_only = r.src_only ++ f.path ∷ [] }) w in
      let d' = Dict.erase f.path d in
      let failed : Error → Option (CheckResult × Dict Text FileInfo) = λ e.
        check_each fs d'
          (record r {
            errors = r.errors ++ record { path = f.path; op = Op.compare; error = plain e } ∷ [];
          })
          w in
      let same = check_each fs d' (record r { match = r.match ++ f.path ∷ [] }) w in
      let other = check_each fs d' (record r { differ = r.differ ++ f.path ∷ [] }) w in
      if f.is_dir then skipped else elim (Dict.lookup f.path d) [
        | none ↦ missing
        | some g ↦ elim (files_match f g w) [
          | none ↦ none
          | some (err e) ↦ failed e
          | some (ok true) ↦ same
          | some (ok false) ↦ other
        ]
      ]

  -- `Check`
  unfoldable pub check :
      (Text → Text → Bool) → ℕ → (List Text → List Text) → W → Option (Result Error CheckResult)
  check glob now order w = elim (list_files glob now opts src src_path w) [
    | err e ↦ some (err e)
    | ok src_files ↦ elim (list_files glob now opts dst dst_path w) [
      | err e ↦ some (err e)
      | ok dst_files ↦
          let start : CheckResult = record {
            match = [];
            differ = [];
            src_only = [];
            dst_only = [];
            errors = [];
          } in
          elim (check_each src_files (file_map dst_files []) start w) [
            | none ↦ none
            | some (r, d) ↦ some (ok (record r { dst_only = r.dst_only ++ order (Dict.keys d) }))
          ]
    ]
  ]

-- `DiffStatus`
pub data DiffStatus : Type 0 where
  new modified deleted : DiffStatus

-- `DiffEntry`
pub record DiffEntry : Type 0 where
  pub path : Text
  pub status : DiffStatus

abbrev pub entries : DiffStatus → List Text → List DiffEntry
entries status [] = []
entries status (p ∷ ps) = record { path = p; status = status } ∷ entries status ps

-- What `Diff` makes of the result of `Check`.
unfoldable pub diff_entries : CheckResult → List DiffEntry
diff_entries r =
    entries DiffStatus.new r.src_only
    ++ entries DiffStatus.modified r.differ
    ++ entries DiffStatus.deleted r.dst_only

module _ {W : Type 0} (src dst : Backend W) (opts : Options) (src_path dst_path : Text) where
  -- `Diff`
  unfoldable pub diff :
      (Text → Text → Bool)
      → ℕ
      → (List Text → List Text)
      → W
      → Option (Result Error (List DiffEntry))
  diff glob now order w = elim (check src dst opts src_path dst_path glob now order w) [
    | none ↦ none
    | some (err e) ↦ some (err e)
    | some (ok r) ↦ some (ok (diff_entries r))
  ]
