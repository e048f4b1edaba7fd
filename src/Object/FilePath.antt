-- ===== src/Object/FilePath.antt =====
-- Paths: `path.Clean` of the standard library, and `validatePath` and `normalizePath` of
-- object/backend/memory/backend.go.
pub mod Traversal
use omnistorage_core.Base.{
  Bool, not, ◌||◌, List, [], ◌∷◌, ◌++◌, if◌then◌else◌, ◌==◌, list_eq, nat_eq, Result, ok, err,
}
use mathlib.Core.List.{reverse}
use omnistorage_core.Base.Text.{Text, bytes, has_prefix}
use omnistorage_core.Object.{Error}

-- `strings.Split(s, "/")`
unfoldable pub split : Text → List Text
split [] = [] ∷ []
split (c ∷ s) = elim (split s) [
  | [] ↦ []
  | first ∷ rest ↦ if c == b'/' then [] ∷ first ∷ rest else (c ∷ first) ∷ rest
]

-- `strings.Join(parts, "/")`
unfoldable pub join : List Text → Text
join [] = []
join (part ∷ []) = part
join (part ∷ next ∷ parts) = part ++ b'/' ∷ join (next ∷ parts)

-- `strings.Contains(s, part)`
unfoldable pub contains_text : Text → Text → Bool
contains_text [] part = has_prefix [] part
contains_text (c ∷ s) part = has_prefix (c ∷ s) part || contains_text s part

-- `strings.TrimPrefix(s, "/")`
unfoldable pub trim_slash : Text → Text
trim_slash [] = []
trim_slash (c ∷ s) = if c == b'/' then s else c ∷ s

abbrev pub dot_dot : Text
dot_dot = bytes ".."

unfoldable pub is_dot_dot : Text → Bool
is_dot_dot part = part == dot_dot

-- whether an element names no step: an empty one, or "."
unfoldable pub is_idle : Text → Bool
is_idle part = part == [] || part == bytes "."

-- One element of a path, onto the elements that are kept, the last one first: ".." takes away an
-- element that is not itself "..", and is dropped at the root.
unfoldable pub clean_part : Bool → Text → List Text → List Text
clean_part rooted part kept =
    if is_idle part then kept else if not (is_dot_dot part) then part ∷ kept else elim kept [
      | [] ↦ if rooted then [] else part ∷ []
      | top ∷ below ↦ if is_dot_dot top then part ∷ top ∷ below else below
    ]

unfoldable pub clean_parts : Bool → List Text → List Text → List Text
clean_parts rooted [] kept = kept
clean_parts rooted (part ∷ parts) kept = clean_parts rooted parts (clean_part rooted part kept)

-- the elements of `path.Clean(p)`, the last one first
abbrev pub elements : Text → List Text
elements p = clean_parts (has_prefix p (bytes "/")) (split p) []

-- `path.Clean`
unfoldable pub clean : Text → Text
clean p =
    let body = join (reverse (elements p)) in
    if has_prefix p (bytes "/") then b'/' ∷ body else if body == [] then bytes "." else body

-- `validatePath`
unfoldable pub validate_path : Text → Result Error (Unit {0})
validate_path p =
    if p == []
    then err Error.invalid_path
    else if has_prefix (clean p) dot_dot || contains_text (clean p) (bytes "/../")
    then err Error.invalid_path
    else ok tt

-- `normalizePath`
unfoldable pub normalize_path : Text → Text
normalize_path p =
    if p == []
    then []
    else let cleaned = trim_slash (clean p) in if cleaned == bytes "." then [] else cleaned

-- `path.Join` of two elements
unfoldable pub join_path : Text → Text → Text
join_path base p =
    if base == []
    then (if p == [] then [] else clean p)
    else if p == []
    then clean base
    else clean (base ++ b'/' ∷ p)
