-- ===== src/Tests/Syncs/Checks.antt =====
-- Runs of the check and of the verification of object/sync, and instances of the theorems on them.
use omnistorage_core.Base.{
  ◌≡◌, refl, true, false, none, some, [], ◌∷◌, arith, if◌then◌else◌, contains, list_eq, nat_eq, ok,
  err,
}
use omnistorage_core.Base.Dict
use omnistorage_core.Base.Dict.{Dict}
use omnistorage_core.Base.Text.{Text, bytes}
use omnistorage_core.Object.{Error}
use omnistorage_core.Object.Backend.{Backend}
use omnistorage_core.Sync.Check.{CheckResult, compare_content, files_match, check}
use omnistorage_core.Sync.Check.Answers.{compare_content_lem}
use omnistorage_core.Sync.Check.Partition.{check_lem}
use omnistorage_core.Sync.Verify.{verify}
use omnistorage_core.Sync.Verify.Overlooked.{verify_overlooks}
use omnistorage_core.Sync.Options.{Options, FileInfo, no_options}
use omnistorage_core.Sync.Check
use omnistorage_core.Tests.Syncs.{
  World, source_backend, destination, program, env, world, file, ours, theirs, listed_ours,
  listed_theirs,
}

compare_content_example :
    compare_content source_backend destination no_options
      (bytes "in")
      (bytes "in")
      (bytes "a")
      (bytes "a")
      world
    ≡ some (ok false)
unfolding program
compare_content_example =
    compare_content_lem source_backend destination no_options (bytes "in") (bytes "in") (bytes "a")
      (bytes "a") world (record { chunks = (1 ∷ []) ∷ []; failure = none })
      (record { chunks = (9 ∷ []) ∷ []; failure = none }) refl refl refl refl

abbrev late : FileInfo
late = record (file (bytes "a")) { mod_time = 9223372036854775808 }

check_example :
    (r : CheckResult) × (left : Dict Text FileInfo) × (check source_backend destination no_options
        (bytes "in")
        (bytes "in")
        env.glob
        0
        (λ ps. ps)
        world
      ≡ some (ok r))
    × (r.match ≡ bytes "a" ∷ [])
    × (r.differ ≡ [])
    × (r.src_only ≡ bytes "b" ∷ [])
    × (r.dst_only ≡ Dict.keys left)
    × ((p : Text)
        → Dict.lookup p left ≡ (
            if contains (bytes "a" ∷ bytes "b" ∷ []) p
            then none
            else Dict.lookup p (
                Check.file_map source_backend destination no_options
                  (bytes "in")
                  (bytes "in")
                  theirs
                  [])))
unfolding program
check_example =
    check_lem source_backend destination no_options (bytes "in") (bytes "in") world env.glob 0
      (λ ps. ps) ours theirs listed_ours listed_theirs (refl, (refl, tt))

-- a destination that lists its files, but cannot read them
abbrev unreadable : Backend World
unreadable = record destination { new_reader = λ p w. err Error.backend_closed }

abbrev single : World
single = record {
  from = (bytes "in/a", 1 ∷ []) ∷ [];
  into = (bytes "in/a", 9 ∷ []) ∷ [];
  writing = none;
}

abbrev hashed : Options
hashed = record no_options { checksum = true }

overlooked_example :
    verify source_backend unreadable env.glob 0 (λ ps. ps) (bytes "in") (bytes "in") hashed single
    ≡ some (ok true)
unfolding program
overlooked_example =
    verify_overlooks source_backend unreadable hashed (bytes "in") (bytes "in") single env.glob 0
      (λ ps. ps) (file (bytes "a") ∷ []) (file (bytes "a") ∷ []) refl refl (refl, tt) refl refl
      (λ p h. ground (arith, h))
