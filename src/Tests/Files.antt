-- ===== src/Tests/Files.antt =====
-- Runs of the backend on the local filesystem, over a disk on which a path's file is the one with the
-- number of its length, long paths are refused, and a second close fails.
use omnistorage_core.Base.{
  ℕ, ◌≡◌, refl, inl, inr, Bool, false, Option, none, some, List, [], ◌++◌, ◌+◌, ltb, arith,
  if◌then◌else◌, ◌==◌, nat_eq, list_eq, length, ok, err, pos, Option-cases,
}
use omnistorage_core.Base.Text.{Text, bytes, has_prefix}
use omnistorage_core.Object.{Error, Fault}
use omnistorage_core.Object.FilePath.{
  split, join, is_dot_dot, is_idle, clean_part, clean_parts, elements, clean, join_path,
  contains_text,
}
use omnistorage_core.Object.FilePath.Traversal.{any_dot_dot}
use omnistorage_core.Object.Files.{
  Os, Backend, FileInfo, default_config, new, full_path, validate_path, check_both, check,
  check_open, dir, ext_loop, make_parents, ext, up_to_slash,
}
use omnistorage_core.Object.Files.Extended.{copy, copy_file}
use omnistorage_core.Object.Files.Paths.{full_path_below}
use omnistorage_core.Object.Files.Escape.{climb, full_path_escapes}
use omnistorage_core.Object.Files.Laws.{IsFileSystem}
use omnistorage_core.Object.Files.Copies.{copy_spares}

-- `files` has the content of each file that exists, `handles` the file that each open handle is on.
record Disk : Type 0 where
  files : ℕ → Option (List ℕ)
  handles : ℕ → Option ℕ
  next : ℕ

-- a long path is refused
abbrev usable : Text → Bool
usable p = ltb (length p) 40

abbrev held : Option (List ℕ) → List ℕ
held none = []
held (some c) = c

abbrev content : ℕ → Disk → List ℕ
content n d = held (d.files n)

abbrev put : ℕ → List ℕ → Disk → Disk
put n c d = record d { files = λ k. if k == n then some c else d.files k }

abbrev handle : ℕ → Disk → Option ℕ
handle h d = if ltb h d.next then d.handles h else none

abbrev opened : ℕ → Disk → Disk
opened n d = record d {
  handles = λ h. if h == d.next then some n else d.handles h;
  next = d.next + 1;
}

-- A second close fails, as does a call on a handle that is not open.
abbrev not_open : Fault
not_open = Fault.broken 9

abbrev disk_os : Os Disk
disk_os = record {
  stat = λ p d. elim (d.files (length p)) [
    | none ↦ err Fault.not_exist
    | some c ↦ ok (record { size = pos (length c); mod_time = 0; is_dir = false })
  ];
  mkdir_all = λ p mode d. (d, none);
  create = λ p mode d.
      if usable p
      then (opened (length p) (put (length p) [] d), ok d.next)
      else (d, err Fault.permission);
  open_file = λ p d. elim (d.files (length p)) [
    | none ↦ (d, err Fault.not_exist)
    | some c ↦ (opened (length p) d, ok d.next)
  ];
  seek = λ h n d. (d, none);
  read = λ h n d. (d, ok none);
  write = λ h chunk d. (d, err not_open);
  copy = λ to from d. elim (handle to d) [
    | none ↦ (d, some not_open)
    | some m ↦ elim (handle from d) [
      | none ↦ (d, some not_open)
      | some n ↦ (put m (content m d ++ content n d) d, none)
    ]
  ];
  close = λ h d. elim (handle h d) [
    | none ↦ (d, some not_open)
    | some n ↦ (record d { handles = λ k. if k == h then none else d.handles k }, none)
  ];
  remove = λ p d. (d, none);
  rename = λ p q d. (d, none);
  walk = λ p d. [];
  rel = λ base p. ok p;
  type_by_extension = λ e. [];
}

disk-open_file :
    (p : Text) (d : Disk) (info : FileInfo)
    → disk_os.stat p d ≡ ok info
    → (h : ℕ) × ((disk_os.open_file p d).1 ≡ ok h)
      × (handle h (disk_os.open_file p d).0 ≡ some (length p))
disk-open_file p d info there = elim (Option-cases (d.files (length p))) [
  | inl missing ↦ absurd (ground (arith, there, missing))
  | inr (c, found) ↦ (d.next, rw found refl, rw found (ground arith))
]

disk-open_file-content :
    (p : Text) (n : ℕ) (d : Disk) → content n (disk_os.open_file p d).0 ≡ content n d
disk-open_file-content p n d = elim (Option-cases (d.files (length p))) [
  | inl missing ↦ rw missing refl
  | inr (c, found) ↦ rw found refl
]

disk-copy :
    (to from m n : ℕ) (d : Disk)
    → handle to d ≡ some m
    → handle from d ≡ some n
    → ((disk_os.copy to from d).1 ≡ none)
      × (handle to (disk_os.copy to from d).0 ≡ some m)
      × ((k : ℕ)
          → content k (disk_os.copy to from d).0
            ≡ (if k == m then content m d ++ content n d else content k d))
disk-copy to from m n d e f =
    (ground (arith, e, f), ground (arith, e, f), λ k. ground (arith, e, f))

disk-IsFileSystem : IsFileSystem disk_os (λ p. length p) usable content handle handle
disk-IsFileSystem = record {
  mkdir_all = λ p mode d h. refl;
  mkdir_all-content = λ p mode n d. refl;
  mkdir_all-stat = λ p q mode d info there file. there;
  open_file = λ p d info u there file. disk-open_file p d info there;
  open_file-content = disk-open_file-content;
  create = λ p mode d u. (d.next, rw u refl);
  create-target = λ p mode h d made. ground (arith, made);
  create-content = λ p mode h n d made. ground (arith, made);
  create-others = λ p mode n d other. ground (arith, other);
  create-source = λ p mode h n d on. ground (arith, on);
  copy = λ to from m n d e f other. disk-copy to from m n d e f;
  copy-others = λ to from m k d e other. ground (arith, e, other);
  close = λ h n d on. ground (arith, on);
  close-content = λ h n d. ground arith;
}

abbrev backend : Backend
backend = new (record default_config { root = bytes "/srv/data" })

program : Unit {0}
unfolding new clean split clean_parts clean_part is_idle is_dot_dot join has_prefix nat_eq list_eq
    validate_path contains_text climb check check_both check_open full_path join_path
program = tt

full_path_below_example :
    (full_path backend (bytes "a/../b") ≡ bytes "/srv/data/b")
    × (any_dot_dot (elements (bytes "a/../b")) ≡ false)
unfolding program validate_path contains_text
full_path_below_example =
    full_path_below backend (bytes "a/../b") (λ e. cc) (λ e. cc) refl refl (λ e. cc)

full_path_escapes_example :
    (validate_path (bytes "/../../etc/passwd") ≡ ok tt)
    × (full_path backend (bytes "/../../etc/passwd") ≡ bytes "/etc/passwd")
unfolding program validate_path contains_text climb
full_path_escapes_example = full_path_escapes backend (bytes "etc/passwd") refl refl

abbrev disk : Disk
disk = record {
  files = λ n. if n == length (bytes "/srv/data/a") then some (bytes "text") else none;
  handles = λ h. none;
  next = 0;
}

-- The destination's path is refused, and the source's file stays.
copy_spares_example :
    content 11
      (copy disk_os none
        (bytes "a")
        (bytes "a_name_that_is_far_too_long_for_this_disk")
        backend
        disk).0
    ≡ bytes "text"
unfolding program
copy_spares_example =
    copy_spares disk_os (λ p. length p) usable content handle handle disk-IsFileSystem none
      (bytes "a") (bytes "a_name_that_is_far_too_long_for_this_disk") backend disk 11 refl

refused_copy :
    (copy disk_os none
      (bytes "a")
      (bytes "a_name_that_is_far_too_long_for_this_disk")
      backend
      disk).1
    ≡ err (Error.wrapped Fault.permission)
unfolding program copy make_parents copy_file
refused_copy = refl

-- A second close of a handle fails.
closed_twice : (disk_os.close 0 (disk_os.close 0 (opened 5 disk)).0).1 ≡ some not_open
unfolding nat_eq
closed_twice = refl

-- A copy of a file onto itself leaves it empty.
copied_onto_itself : content 11 (copy disk_os none (bytes "a") (bytes "./a") backend disk).0 ≡ []
unfolding program copy make_parents copy_file
copied_onto_itself = refl

-- A name that begins with two dots is refused.
refused : validate_path (bytes "..hidden") ≡ err Error.invalid_path
unfolding program
refused = refl

parent : dir (bytes "/srv/data/a") ≡ bytes "/srv/data"
unfolding program dir up_to_slash
parent = refl

extension : ext (bytes "v1.2/report.tar.gz") ≡ bytes ".gz"
unfolding ext_loop nat_eq
extension = refl

no_extension : ext (bytes "v1.2/report") ≡ []
unfolding ext_loop nat_eq
no_extension = refl
