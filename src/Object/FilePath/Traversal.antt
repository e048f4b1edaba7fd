-- ===== src/Object/FilePath/Traversal.antt =====
-- No path that `validatePath` of object/backend/memory/backend.go accepts leads out of the root.
use omnistorage_core.Base.{
  ◌≡◌, refl, sym, ◌∙◌, ◌≢◌, inl, inr, Bool, true, false, not, ◌&&◌, ◌||◌, List, [], ◌∷◌, ◌++◌,
  arith, Bool-cases, ==-true, list_eq, nat_eq, ok,
}
use mathlib.Core.List.{reverse, reverse-append, append_assoc}
use omnistorage_core.Base.Text.{Text, bytes, has_prefix}
use omnistorage_core.Object.FilePath.{
  split, join, dot_dot, is_dot_dot, clean_part, clean_parts, elements, clean, validate_path,
}

-- whether some element is ".."
abbrev pub any_dot_dot : List Text → Bool
any_dot_dot [] = false
any_dot_dot (part ∷ parts) = is_dot_dot part || any_dot_dot parts

-- whether all of the elements are ".."
abbrev climbs : List Text → Bool
climbs [] = true
climbs (top ∷ below) = is_dot_dot top && climbs below

-- whether below an element ".." (the last element comes first) there are only such
abbrev is_sunk : List Text → Bool
is_sunk [] = true
is_sunk (top ∷ below) = (not (is_dot_dot top) || climbs below) && is_sunk below

clean_part-is_sunk :
    (rooted : Bool) (part : Text) (kept : List Text)
    → is_sunk kept ≡ true
    → is_sunk (clean_part rooted part kept) ≡ true
unfolding clean_part
clean_part-is_sunk rooted part [] h = ground arith
clean_part-is_sunk rooted part (top ∷ below) h = ground arith

clean_parts-is_sunk :
    (rooted : Bool) (parts kept : List Text)
    → is_sunk kept ≡ true
    → is_sunk (clean_parts rooted parts kept) ≡ true
unfolding clean_parts
clean_parts-is_sunk rooted [] kept h = h
clean_parts-is_sunk rooted (part ∷ parts) kept h =
    clean_parts-is_sunk rooted parts _ (clean_part-is_sunk rooted part kept h)

clean_part_rooted :
    (part : Text) (kept : List Text)
    → any_dot_dot kept ≡ false
    → any_dot_dot (clean_part true part kept) ≡ false
unfolding clean_part
clean_part_rooted part [] h = ground arith
clean_part_rooted part (top ∷ below) h = ground arith

pub clean_parts_rooted :
    (parts kept : List Text)
    → any_dot_dot kept ≡ false
    → any_dot_dot (clean_parts true parts kept) ≡ false
unfolding clean_parts
clean_parts_rooted [] kept h = h
clean_parts_rooted (part ∷ parts) kept h =
    clean_parts_rooted parts _ (clean_part_rooted part kept h)

has_prefix-extend : (s q t : Text) → has_prefix s q ≡ true → has_prefix (s ++ t) q ≡ true
unfolding has_prefix
has_prefix-extend s [] t h = refl
has_prefix-extend [] (c ∷ q) t h = cc
has_prefix-extend (d ∷ s) (c ∷ q) t h = ground (arith, has_prefix-extend s q t)

has_prefix-dot_dot : (part : Text) → is_dot_dot part ≡ true → has_prefix part dot_dot ≡ true
unfolding has_prefix is_dot_dot nat_eq
has_prefix-dot_dot part h = rw (==-true part dot_dot h)

-- Another element at the end leaves the beginning of a joined path alone.
join-extend :
    (part : Text) (parts : List Text) (last : Text)
    → (t : Text) × (join ((part ∷ parts) ++ last ∷ []) ≡ join (part ∷ parts) ++ t)
unfolding join
join-extend part [] last = (b'/' ∷ last, refl)
join-extend part (next ∷ parts) last =
    let (t, e) = join-extend next parts last in
    (t, rw e (sym (append_assoc part (b'/' ∷ join (next ∷ parts)) t)))

empty : has_prefix (join []) dot_dot ≡ true → ⊥
unfolding has_prefix join
empty h = cc

nothing : has_prefix [] dot_dot ≡ true → ⊥
unfolding has_prefix
nothing h = cc

clash : ◌≡◌ {A = Bool} false true → ⊥
clash h = cc

-- As `reverse (next ∷ below)` is not empty, one more element extends the joined path.
join-reverse :
    (top next : Text) (below : List Text)
    → has_prefix (join (reverse (next ∷ below))) dot_dot ≡ true
    → has_prefix (join (reverse (next ∷ below) ++ top ∷ [])) dot_dot ≡ true
join-reverse top next below h = go (reverse (next ∷ below)) h
  where
    go :
        (parts : List Text)
        → has_prefix (join parts) dot_dot ≡ true
        → has_prefix (join (parts ++ top ∷ [])) dot_dot ≡ true
    go [] k = absurd (empty k)
    go (part ∷ parts) k =
        let (t, e) = join-extend part parts top in
        rw e (has_prefix-extend (join (part ∷ parts)) dot_dot t k)

-- If ".." is among the kept elements, it is the first of the path.
first_of_sunk :
    (kept : List Text)
    → is_sunk kept ≡ true
    → any_dot_dot kept ≡ true
    → has_prefix (join (reverse kept)) dot_dot ≡ true
first_of_sunk [] h m = cc
first_of_sunk (top ∷ []) h m = unfold join in has_prefix-dot_dot top (ground arith)
first_of_sunk (top ∷ next ∷ below) h m =
    rw (reverse-append (top ∷ []) (next ∷ below))
      (join-reverse top next below (first_of_sunk (next ∷ below) (ground arith) (ground arith)))

pub clean_relative :
    (p : Text)
    → has_prefix p (bytes "/") ≡ false
    → join (reverse (elements p)) ≢ []
    → clean p ≡ join (reverse (elements p))
unfolding clean
clean_relative p h k = ground arith

valid_prefix : (p : Text) → validate_path p ≡ ok tt → has_prefix (clean p) dot_dot ≡ false
unfolding validate_path
valid_prefix p h = ground arith

-- A relative path whose clean form does not begin with ".." has no such element.
pub relative_lem :
    (p : Text)
    → has_prefix (clean p) dot_dot ≡ false
    → has_prefix p (bytes "/") ≡ false
    → any_dot_dot (elements p) ≡ false
relative_lem p h relative = elim (Bool-cases (any_dot_dot (elements p))) [
  | inl m ↦
      let sunk = clean_parts-is_sunk (has_prefix p (bytes "/")) (split p) [] refl in
      let first = first_of_sunk (elements p) sunk m in
      let same = clean_relative p relative (λ e. nothing (rw e at first)) in
      absurd (clash (sym (rw same at h) ∙ first))
  | inr fine ↦ fine
]

-- A path that `validatePath` accepts has, once it is cleaned, no element "..".
pub validate_path-no_dot_dot :
    (p : Text) → validate_path p ≡ ok tt → any_dot_dot (elements p) ≡ false
validate_path-no_dot_dot p h = elim (Bool-cases (has_prefix p (bytes "/"))) [
  | inl rooted ↦ rw rooted (clean_parts_rooted (split p) [] refl)
  | inr relative ↦ relative_lem p (valid_prefix p h) relative
]
