-- ===== src/Object/Files/Escape.antt =====
-- How object/backend/file/backend.go is led out of its root: `validatePath` looks at a path by itself,
-- and `fullPath` joins it to the root.
use omnistorage_core.Base.{
  ℕ, zero, suc, ◌≡◌, refl, sym, ap, ◌∙◌, ◌≢◌, true, false, List, [], ◌∷◌, ◌++◌, arith, list_eq,
  nat_eq, length, ok,
}
use mathlib.Core.List.{reverse}
use omnistorage_core.Base.Text.{Text, bytes, has_prefix}
use omnistorage_core.Object.FilePath.{
  split, join, is_dot_dot, is_idle, clean_part, clean_parts, elements, clean, join_path,
}
use omnistorage_core.Object.FilePath.Traversal.{any_dot_dot, clean_parts_rooted}
use omnistorage_core.Object.Files.{Backend, full_path, validate_path}
use omnistorage_core.Object.Files.Paths.{split-append, clean_parts-append, has_slash-append}

-- as many elements ".." in front of a path
unfoldable pub climb : ℕ → Text → Text
climb zero q = q
climb (suc n) q = bytes ".." ++ b'/' ∷ climb n q

split_up : split (bytes "..") ≡ bytes ".." ∷ []
unfolding split nat_eq
split_up = refl

split_empty : split [] ≡ [] ∷ []
unfolding split
split_empty = refl

step_up :
    (top : Text) (below : List Text)
    → is_dot_dot top ≡ false
    → clean_part true (bytes "..") (top ∷ below) ≡ below
unfolding clean_part is_idle is_dot_dot nat_eq list_eq
step_up top below h = ground arith

step_top : clean_part true (bytes "..") [] ≡ []
unfolding clean_part is_idle is_dot_dot nat_eq list_eq
step_top = refl

step_idle : (kept : List Text) → clean_part true [] kept ≡ kept
unfolding clean_part is_idle nat_eq list_eq
step_idle kept = refl

climb_parts :
    (n : ℕ) (q : Text) (kept : List Text)
    → clean_parts true (split (climb (suc n) q)) kept
      ≡ clean_parts true (split (climb n q)) (clean_part true (bytes "..") kept)
unfolding climb clean_parts
climb_parts n q kept =
    ap (λ ps. clean_parts true ps kept)
      (split-append (bytes "..") (climb n q) ∙ ap (λ ps. ps ++ split (climb n q)) split_up)

-- At the top, ".." leads nowhere.
climb_top :
    (n : ℕ) (q : Text) → clean_parts true (split (climb n q)) [] ≡ clean_parts true (split q) []
unfolding climb
climb_top zero q = refl
climb_top (suc n) q =
    climb_parts n q []
    ∙ ap (λ kept. clean_parts true (split (climb n q)) kept) step_top
    ∙ climb_top n q

-- As many ".." as there are elements lead to the top.
climb_out :
    (q : Text) (kept : List Text)
    → any_dot_dot kept ≡ false
    → clean_parts true (split (climb (length kept) q)) kept ≡ clean_parts true (split q) []
unfolding climb
climb_out q [] h = refl
climb_out q (top ∷ below) h =
    let fine : is_dot_dot top ≡ false = ground arith in
    climb_parts (length below) q (top ∷ below)
    ∙ ap (λ kept. clean_parts true (split (climb (length below) q)) kept) (step_up top below fine)
    ∙ climb_out q below (ground arith)

-- a slash in front is an idle element
slash_parts :
    (q : Text) (kept : List Text)
    → clean_parts true (split (b'/' ∷ q)) kept ≡ clean_parts true (split q) kept
unfolding clean_parts
slash_parts q kept =
    ap (λ ps. clean_parts true ps kept) (split-append [] q ∙ ap (λ ps. ps ++ split q) split_empty)
    ∙ ap (λ k. clean_parts true (split q) k) (step_idle kept)

slash : (q : Text) → has_prefix (b'/' ∷ q) (bytes "/") ≡ true
unfolding has_prefix nat_eq
slash q = refl

-- what `clean` makes of a path from the root
clean_rooted :
    (p : Text)
    → has_prefix p (bytes "/") ≡ true
    → clean p ≡ b'/' ∷ join (reverse (clean_parts true (split p) []))
unfolding clean
clean_rooted p h = rw h refl

same_clean :
    (p q : Text)
    → has_prefix p (bytes "/") ≡ true
    → clean_parts true (split p) [] ≡ clean_parts true (split q) []
    → clean p ≡ clean (b'/' ∷ q)
same_clean p q h e =
    clean_rooted p h
    ∙ ap (λ es. b'/' ∷ join (reverse es)) (e ∙ sym (slash_parts q []))
    ∙ sym (clean_rooted (b'/' ∷ q) (slash q))

clean-climb : (n : ℕ) (q : Text) → clean (b'/' ∷ climb n q) ≡ clean (b'/' ∷ q)
clean-climb n q =
    same_clean (b'/' ∷ climb n q) q (slash (climb n q)) (slash_parts (climb n q) [] ∙ climb_top n q)

named : (root : Text) → has_prefix root (bytes "/") ≡ true → root ≢ []
unfolding has_prefix
named [] h e = cc
named (c ∷ root) h e = cc

clean_escape :
    (root q : Text)
    → has_prefix root (bytes "/") ≡ true
    → clean (root ++ b'/' ∷ b'/' ∷ climb (length (elements root)) q) ≡ clean (b'/' ∷ q)
clean_escape root q h =
    let es = clean_parts true (split root) [] in
    let up = b'/' ∷ climb (length (elements root)) q in
    let same : elements root ≡ es = ap (λ r. clean_parts r (split root) []) h in
    same_clean (root ++ b'/' ∷ up) q (has_slash-append root (b'/' ∷ up) (named root h) ∙ h) (
      ap (λ ps. clean_parts true ps []) (split-append root up)
      ∙ clean_parts-append true (split root) (split up) []
      ∙ slash_parts (climb (length (elements root)) q) es
      ∙ ap (λ ks. clean_parts true (split (climb (length ks) q)) es) same
      ∙ climb_out q es (clean_parts_rooted (split root) [] refl))

-- Under an absolute root, any absolute path that `validatePath` accepts can be reached, below the root or
-- not: with as many elements ".." in front of it as the root has elements, `validatePath` accepts it as
-- well, and `fullPath` finds it at its own place in the filesystem.
pub full_path_escapes :
    (b : Backend) (q : Text)
    → has_prefix b.config.root (bytes "/") ≡ true
    → validate_path (b'/' ∷ q) ≡ ok tt
    → let p = b'/' ∷ climb (length (elements b.config.root)) q in
      (validate_path p ≡ ok tt) × (full_path b p ≡ clean (b'/' ∷ q))
unfolding full_path join_path validate_path
full_path_escapes b q h valid =
    let n = length (elements b.config.root) in
    let e = clean-climb n q in
    let far = clean_escape b.config.root q h in
    let here = named b.config.root h in (ground arith, ground arith)
