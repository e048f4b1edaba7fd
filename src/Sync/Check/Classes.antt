-- ===== src/Sync/Check/Classes.antt =====
-- What `Check` of object/sync/check.go can find a file to be, and where it notes that.
use omnistorage_core.Base.{
  ◌≡◌, refl, sym, Bool, true, false, Option, none, some, List, [], ◌∷◌, ◌++◌, if◌then◌else◌,
  list_eq, nat_eq, Result, ok, err,
}
use mathlib.Core.List.{append-nil}
use omnistorage_core.Base.Text.{Text}
use omnistorage_core.Object.{Error}
use omnistorage_core.Sync.Options.{FileError}
use omnistorage_core.Sync.Check.{CheckResult}

-- What a file of the source is, against the files of the destination.
pub data Class : Type 0 where
  directory missing failing same different : Class

abbrev pub class_of_answer : Option (Result Error Bool) → Class
class_of_answer none = Class.failing
class_of_answer (some (err _)) = Class.failing
class_of_answer (some (ok true)) = Class.same
class_of_answer (some (ok false)) = Class.different

abbrev pub is_same : Class → Bool
is_same Class.directory = false
is_same Class.missing = false
is_same Class.failing = false
is_same Class.same = true
is_same Class.different = false

abbrev pub is_different : Class → Bool
is_different Class.directory = false
is_different Class.missing = false
is_different Class.failing = false
is_different Class.same = false
is_different Class.different = true

abbrev pub is_missing : Class → Bool
is_missing Class.directory = false
is_missing Class.missing = true
is_missing Class.failing = false
is_missing Class.same = false
is_missing Class.different = false

-- the result once a file of some class has been noted, with the errors if there are any
abbrev pub noted : Class → Text → List FileError → CheckResult → CheckResult
noted Class.directory p es r = r
noted Class.missing p es r = record r { src_only = r.src_only ++ p ∷ [] }
noted Class.failing p es r = record r { errors = r.errors ++ es }
noted Class.same p es r = record r { match = r.match ++ p ∷ [] }
noted Class.different p es r = record r { differ = r.differ ++ p ∷ [] }

pub noted_lem :
    (c : Class) (p : Text) (es : List FileError) (r : CheckResult)
    → ((noted c p es r).match ≡ r.match ++ (if is_same c then p ∷ [] else []))
      × ((noted c p es r).differ ≡ r.differ ++ (if is_different c then p ∷ [] else []))
      × ((noted c p es r).src_only ≡ r.src_only ++ (if is_missing c then p ∷ [] else []))
      × ((noted c p es r).dst_only ≡ r.dst_only)
noted_lem Class.directory p es r =
    (sym (append-nil r.match), sym (append-nil r.differ), sym (append-nil r.src_only), refl)
noted_lem Class.missing p es r = (sym (append-nil r.match), sym (append-nil r.differ), refl, refl)
noted_lem Class.failing p es r =
    (sym (append-nil r.match), sym (append-nil r.differ), sym (append-nil r.src_only), refl)
noted_lem Class.same p es r = (refl, sym (append-nil r.differ), sym (append-nil r.src_only), refl)
noted_lem Class.different p es r =
    (sym (append-nil r.match), refl, sym (append-nil r.src_only), refl)
