-- ===== src/Sync/Filter.antt =====
-- object/sync/filter/filter.go: the filter of the sync engine. A pattern is tried by `filepath.Match`,
-- of which the model takes the first result, as the code does. A time is a number of nanoseconds since
-- the zero `time.Time`, which is 0.
pub mod Meaning
use omnistorage_core.Base.{
  ℕ, zero, suc, ◌+◌, ◌-◌, ◌*◌, ◌/◌, ◌%◌, ◌≤◌, ◌<◌, ◌≡◌, refl, sym, ap, ◌∙◌, ◌≢◌, ◌↔◌, ◌⊎◌, inl, inr,
  Bool, true, false, not, ◌&&◌, ◌||◌, Option, none, some, List, [], ◌∷◌, ◌++◌, map, arith, ltb, leb,
  if◌then◌else◌, Bool-cases, Option-cases, Eq, ◌==◌, contains, ==-true, ==-refl, ==-false, list_eq,
  nat_eq, length, take, drop, replicate, filter, All, length-append, length-take, length-drop,
  length-filter-le, take-append-drop, Result, ok, err, is_ok, Result-cases, ℤ, pos, negsuc,
  pos_part, neg_part, sub_ℕ, is_positive, ltz,
}
use omnistorage_core.Base.Text.{Text, bytes, has_prefix}
use mathlib.Core.List.{reverse}
use omnistorage_core.Object.FilePath.{split, contains_text}

-- `rule` with its `ruleType`
pub data Rule : Type 0 where
  include exclude : Text → Rule
  min_size max_size : ℤ → Rule
  min_age max_age : ℤ → Rule

-- `Filter`; `none` is a nil one.
abbrev pub Filter : Type 0
Filter = Option (List Rule)

pub record FileInfo : Type 0 where
  pub path : Text
  pub size : ℤ
  pub mod_time : ℕ
  pub is_dir : Bool

-- the options of `New`, each of which appends a rule
unfoldable pub apply_options : List Rule → List Rule → List Rule
apply_options [] rules = rules
apply_options (r ∷ options) rules = apply_options options (rules ++ r ∷ [])

-- `New`
unfoldable pub new : List Rule → Filter
new options = some (apply_options options [])

-- the largest `time.Duration`
abbrev pub max_duration : ℕ
max_duration = 9223372036854775807

-- `t.Sub(u)`, which saturates
unfoldable pub sub_time : ℕ → ℕ → ℤ
sub_time t u =
    if leb u t
    then pos (if ltb max_duration (t - u) then max_duration else t - u)
    else negsuc (if ltb max_duration (u - t - 1) then max_duration else u - t - 1)

-- the elements of a path without the slashes behind it
unfoldable pub drop_empty : List Text → List Text
drop_empty [] = []
drop_empty (part ∷ parts) = if part == [] then drop_empty parts else part ∷ parts

-- `filepath.Base`, where the separator is '/'
unfoldable pub base : Text → Text
base [] = bytes "."
base (c ∷ p) = elim (drop_empty (reverse (split (c ∷ p)))) [ [] ↦ bytes "/" | part ∷ _ ↦ part ]

-- `strings.ReplaceAll(pattern, "**", "*")`
unfoldable pub replace_stars : Text → Text
replace_stars [] = []
replace_stars (c ∷ []) = c ∷ []
replace_stars (c ∷ d ∷ s) =
    let one = replace_stars s in
    let rest = replace_stars (d ∷ s) in if c == b'*' && d == b'*' then b'*' ∷ one else c ∷ rest

-- `IsEmpty`
unfoldable pub is_empty : Filter → Bool
is_empty none = true
is_empty (some []) = true
is_empty (some (_ ∷ _)) = false

module _ (glob : Text → Text → Bool) where
  -- `matchPattern`
  unfoldable pub match_pattern : Text → Text → Bool
  match_pattern pattern path =
      let simple = replace_stars pattern in
      glob pattern path
      || glob pattern (base path)
      || (contains_text pattern (bytes "**") && (glob simple path || glob simple (base path)))

  -- the first loop of `Match`: `hasIncludes` and `matchesInclude`
  unfoldable pub scan_includes : List Rule → Text → Bool → Bool → Bool × Bool
  scan_includes [] path has_includes matches = (has_includes, matches)
  scan_includes (Rule.include pattern ∷ rules) path has_includes matches =
      scan_includes rules path true (if match_pattern pattern path then true else matches)
  scan_includes (Rule.exclude _ ∷ rules) path has_includes matches =
      scan_includes rules path has_includes matches
  scan_includes (Rule.min_size _ ∷ rules) path has_includes matches =
      scan_includes rules path has_includes matches
  scan_includes (Rule.max_size _ ∷ rules) path has_includes matches =
      scan_includes rules path has_includes matches
  scan_includes (Rule.min_age _ ∷ rules) path has_includes matches =
      scan_includes rules path has_includes matches
  scan_includes (Rule.max_age _ ∷ rules) path has_includes matches =
      scan_includes rules path has_includes matches

  -- the body of the second loop of `Match`: whether it returns false
  unfoldable pub rejects : ℕ → FileInfo → Rule → Bool
  rejects now fi (Rule.include _) = false
  rejects now fi (Rule.exclude pattern) = match_pattern pattern fi.path
  rejects now fi (Rule.min_size n) = ltz fi.size n
  rejects now fi (Rule.max_size n) = ltz n fi.size
  rejects now fi (Rule.min_age d) = ltz (sub_time now fi.mod_time) d
  rejects now fi (Rule.max_age d) = ltz d (sub_time now fi.mod_time)

  unfoldable pub check_rules : ℕ → FileInfo → List Rule → Bool
  check_rules now fi [] = true
  check_rules now fi (r ∷ rules) = if rejects now fi r then false else check_rules now fi rules

  -- `Match`
  unfoldable pub matches : ℕ → Filter → FileInfo → Bool
  matches now none fi = true
  matches now (some rules) fi =
      if is_empty (some rules)
      then true
      else let (has_includes, matches_include) = scan_includes rules fi.path false false in
        if has_includes && not matches_include then false else check_rules now fi rules

  -- `MatchPath`
  unfoldable pub match_path : ℕ → Filter → Text → Bool
  match_path now f path =
      matches now f (record { path = path; size = pos 0; mod_time = 0; is_dir = false })

-- What the loop of `FromFile` appends for a line, `trim_space` being `strings.TrimSpace`.
unfoldable pub parse_line : (Text → Text) → Text → List Rule
parse_line trim_space text =
    let line = trim_space text in
    if line == [] || has_prefix line (bytes "#")
    then []
    else if has_prefix line (bytes "+ ")
    then Rule.include (drop 2 line) ∷ []
    else if has_prefix line (bytes "- ")
    then Rule.exclude (drop 2 line) ∷ []
    else Rule.exclude line ∷ []

unfoldable pub parse_lines : (Text → Text) → List Text → List Rule
parse_lines trim_space [] = []
parse_lines trim_space (text ∷ texts) = parse_line trim_space text ++ parse_lines trim_space texts

-- `FromFile`, where opening the file or scanning its lines may fail
unfoldable pub from_file :
    {E : Type 0} → (Text → Text) → Result E (List Text) → Result E (List Rule)
from_file trim_space (err e) = err e
from_file trim_space (ok texts) = ok (parse_lines trim_space texts)
