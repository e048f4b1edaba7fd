-- ===== src/Sync/Verify.antt =====
-- object/sync/verify.go: verification on top of the check. The text of a report is left out; `none` is
-- where a comparison has no end, which none of them has.
pub mod Overlooked
use omnistorage_core.Base.{
  ℕ, ◌+◌, Bool, true, false, not, ◌&&◌, Option, none, some, List, [], ◌∷◌, ltb, if◌then◌else◌, ◌==◌,
  list_eq, nat_eq, length, Result, ok, err, is_ok, eqz,
}
use omnistorage_core.Base.Text.{Text}
use omnistorage_core.Object.{Error}
use omnistorage_core.Object.Backend.{Backend}
use omnistorage_core.Object.FilePath.{join_path}
use omnistorage_core.Sync.Check.{CheckResult, check, in_sync, compare_content}
use omnistorage_core.Sync.Options.{Options, FileError, no_options}

-- `VerifyResult`
pub record VerifyResult : Type 0 where
  pub verified : Bool
  pub total_files : ℕ
  pub matching_files : ℕ
  pub mismatched_files : List Text
  pub missing_in_dst : List Text
  pub extra_in_dst : List Text
  pub errors : List FileError

-- What `VerifyWithDetails` makes of the result of a check.
unfoldable pub details : CheckResult → VerifyResult
unfolding in_sync
details r = record {
  verified = in_sync r;
  total_files = length r.match + length r.differ + length r.src_only + length r.dst_only;
  matching_files = length r.match;
  mismatched_files = r.differ;
  missing_in_dst = r.src_only;
  extra_in_dst = r.dst_only;
  errors = r.errors;
}

module _ {W : Type 0} (src dst : Backend W) (glob : Text → Text → Bool) (now : ℕ)
    (order : List Text → List Text) (src_path dst_path : Text) where
  -- `Verify`
  unfoldable pub verify : Options → W → Option (Result Error Bool)
  verify opts w = elim (check src dst opts src_path dst_path glob now order w) [
    | none ↦ none
    | some (err e) ↦ some (err e)
    | some (ok r) ↦ some (ok (in_sync r))
  ]

  -- `VerifyChecksum`
  unfoldable pub verify_checksum : W → Option (Result Error Bool)
  verify_checksum w = verify (record no_options { checksum = true }) w

  -- `QuickVerify`
  unfoldable pub quick_verify : W → Option (Result Error Bool)
  quick_verify w = verify (record no_options { size_only = true }) w

  -- `VerifyWithDetails`
  unfoldable pub verify_with_details : Options → W → Option (Result Error VerifyResult)
  verify_with_details opts w = elim (check src dst opts src_path dst_path glob now order w) [
    | none ↦ none
    | some (err e) ↦ some (err e)
    | some (ok r) ↦ some (ok (details r))
  ]

  -- What `VerifyFile` finds without reading the files: an answer, or none.
  unfoldable pub verify_metadata : W → Result Error (Option Bool)
  verify_metadata w = elim src.extended [
    | none ↦ ok none
    | some src_ext ↦ elim dst.extended [
      | none ↦ ok none
      | some dst_ext ↦ elim (src_ext.stat src_path w) [
        | err e ↦ err e
        | ok a ↦ elim (dst_ext.stat dst_path w) [
          | err e ↦ err e
          | ok b ↦
              if not (eqz a.size b.size)
              then ok (some false)
              else if not (a.hash == []) && not (b.hash == [])
              then ok (some (a.hash == b.hash))
              else ok none
        ]
      ]
    ]
  ]

  -- `VerifyFile`, with an error of its own where the source has no such file
  unfoldable pub verify_file : W → Option (Result Error Bool)
  verify_file w = elim (src.exists src_path w) [
    | err e ↦ some (err e)
    | ok false ↦ some (err (Error.other 0))
    | ok true ↦ elim (dst.exists dst_path w) [
      | err e ↦ some (err e)
      | ok false ↦ some (ok false)
      | ok true ↦ elim (verify_metadata w) [
        | err e ↦ some (err e)
        | ok (some b) ↦ some (ok b)
        | ok none ↦ compare_content src dst no_options [] [] src_path dst_path w
      ]
    ]
  ]

module _ {W : Type 0} (b : Backend W) where
  -- `VerifyIntegrity`
  unfoldable pub verify_integrity : Text → W → Result Error (Unit {0})
  verify_integrity p w = elim (b.new_reader p w) [
    | err e ↦ err e
    | ok s ↦ elim s.failure [ none ↦ ok tt | some e ↦ err e ]
  ]

  -- the path that `VerifyAllIntegrity` reads
  unfoldable pub full_path : Text → Text → Text
  full_path base p =
      if not (base == []) && ltb (length base) (length p)
      then p
      else if not (base == [])
      then join_path base p
      else p

  unfoldable pub corrupted : Text → List Text → W → List Text
  corrupted base [] w = []
  corrupted base (p ∷ ps) w =
      let rest = corrupted base ps w in
      if is_ok (verify_integrity (full_path base p) w) then rest else p ∷ rest

  -- `VerifyAllIntegrity`
  unfoldable pub verify_all_integrity : Text → W → Result Error (List Text)
  verify_all_integrity base w = elim (b.list base w) [
    | err e ↦ err e
    | ok ps ↦ ok (corrupted base ps w)
  ]
