-- ===== src/Object/Files/Paths.antt =====
-- Where object/backend/file/backend.go finds the files: what `fullPath` makes of the paths that
-- `validatePath` accepts.
use omnistorage_core.Base.{
  ◌≡◌, refl, sym, ap, ◌∙◌, ◌≢◌, Bool, true, false, List, [], ◌∷◌, ◌++◌, arith, if◌then◌else◌, ◌==◌,
  list_eq, nat_eq, ok, Bool-cases, inl, inr,
}
use mathlib.Core.List.{reverse, reverse-append, append_assoc}
use omnistorage_core.Base.Text.{Text, bytes, has_prefix}
use omnistorage_core.Object.FilePath.{
  split, join, dot_dot, is_idle, clean_part, clean_parts, elements, clean, join_path,
}
use omnistorage_core.Object.FilePath.Traversal.{any_dot_dot, relative_lem}
use omnistorage_core.Object.Files.{Backend, full_path, validate_path}

split_some : (s : Text) → (first : Text) × (rest : List Text) × (split s ≡ first ∷ rest)
unfolding split
split_some [] = ([], [], refl)
split_some (c ∷ s) =
    let (first, rest, e) = split_some s in
    elim (Bool-cases (c == b'/')) [
      | inl h ↦ ([], first ∷ rest, rw (e, h) refl)
      | inr h ↦ (c ∷ first, rest, rw (e, h) refl)
    ]

-- A slash between two texts parts their elements.
pub split-append : (s t : Text) → split (s ++ b'/' ∷ t) ≡ split s ++ split t
unfolding split nat_eq
split-append [] t = let (first, rest, e) = split_some t in rw e refl
split-append (c ∷ s) t =
    let (first, rest, e) = split_some s in
    rw (split-append s t, e)
      (elim (Bool-cases (c == b'/')) [ inl h ↦ rw h refl | inr h ↦ rw h refl ])

pub clean_parts-append :
    (rooted : Bool) (ps qs kept : List Text)
    → clean_parts rooted (ps ++ qs) kept ≡ clean_parts rooted qs (clean_parts rooted ps kept)
unfolding clean_parts
clean_parts-append rooted [] qs kept = refl
clean_parts-append rooted (p ∷ ps) qs kept =
    clean_parts-append rooted ps qs (clean_part rooted p kept)

-- An element "..", once it is at the bottom, stays.
clean_part_stays :
    (part : Text) (kept : List Text)
    → any_dot_dot (clean_part false part kept) ≡ false
    → any_dot_dot kept ≡ false
unfolding clean_part
clean_part_stays part [] h = refl
clean_part_stays part (top ∷ below) h = ground arith

clean_parts_stays :
    (parts kept : List Text)
    → any_dot_dot (clean_parts false parts kept) ≡ false
    → any_dot_dot kept ≡ false
unfolding clean_parts
clean_parts_stays [] kept h = h
clean_parts_stays (part ∷ parts) kept h =
    clean_part_stays part kept (clean_parts_stays parts (clean_part false part kept) h)

clean_part_onto :
    (rooted : Bool) (part : Text) (kept base : List Text)
    → any_dot_dot (clean_part false part kept) ≡ false
    → clean_part rooted part (kept ++ base) ≡ clean_part false part kept ++ base
unfolding clean_part
clean_part_onto rooted part [] base h = ground arith
clean_part_onto rooted part (top ∷ below) base h = ground arith

-- Elements that do not climb leave what was kept before them alone.
clean_parts_onto :
    (rooted : Bool) (parts kept base : List Text)
    → any_dot_dot (clean_parts false parts kept) ≡ false
    → clean_parts rooted parts (kept ++ base) ≡ clean_parts false parts kept ++ base
unfolding clean_parts
clean_parts_onto rooted [] kept base h = refl
clean_parts_onto rooted (part ∷ parts) kept base h =
    let fine = clean_parts_stays parts (clean_part false part kept) h in
    rw (clean_part_onto rooted part kept base fine)
      (clean_parts_onto rooted parts (clean_part false part kept) base h)

pub has_slash-append :
    (root t : Text) → root ≢ [] → has_prefix (root ++ t) (bytes "/") ≡ has_prefix root (bytes "/")
unfolding has_prefix
has_slash-append [] t h = absurd (h refl)
has_slash-append (c ∷ root) t h = refl

clean_empty : clean [] ≡ bytes "."
unfolding clean split clean_parts clean_part is_idle join has_prefix nat_eq list_eq
clean_empty = refl

-- The elements of a path that does not climb stand behind those of what it is joined to.
elements-join :
    (root p : Text)
    → root ≢ []
    → has_prefix (clean p) dot_dot ≡ false
    → has_prefix p (bytes "/") ≡ false
    → elements (root ++ b'/' ∷ p) ≡ elements p ++ elements root
elements-join root p named fine relative =
    let base = elements root in
    let rooted = has_prefix root (bytes "/") in
    let low : any_dot_dot (clean_parts false (split p) []) ≡ false =
      rw relative at (relative_lem p fine relative) in
    rw (has_slash-append root (b'/' ∷ p) named, split-append root p, relative)
      (clean_parts-append rooted (split root) (split p) []
        ∙ clean_parts_onto rooted (split p) [] base low)

join-append :
    (part : Text) (parts : List Text) (next : Text) (others : List Text)
    → join ((part ∷ parts) ++ next ∷ others) ≡ join (part ∷ parts) ++ b'/' ∷ join (next ∷ others)
unfolding join
join-append part [] next others = refl
join-append part (second ∷ parts) next others =
    rw (join-append second parts next others)
      (sym (append_assoc part (b'/' ∷ join (second ∷ parts)) (b'/' ∷ join (next ∷ others))))

join_both :
    (ps qs : List Text) → join ps ≢ [] → join qs ≢ [] → join (ps ++ qs) ≡ join ps ++ b'/' ∷ join qs
unfolding join
join_both [] qs h k = absurd (h refl)
join_both (part ∷ parts) [] h k = absurd (k refl)
join_both (part ∷ parts) (next ∷ others) h k = join-append part parts next others

-- the text that `clean` makes of elements, the last one first
abbrev as_path : Bool → List Text → Text
as_path rooted kept =
    let body = join (reverse kept) in
    if rooted then b'/' ∷ body else if body == [] then bytes "." else body

body_of : (kept : List Text) → as_path false kept ≢ bytes "." → join (reverse kept) ≢ []
unfolding list_eq
body_of kept h e = h (rw e refl)

rooted_body_of : (kept : List Text) → as_path true kept ≢ bytes "/" → join (reverse kept) ≢ []
rooted_body_of kept h e = h (rw e refl)

as_path_body :
    (kept : List Text) → join (reverse kept) ≢ [] → as_path false kept ≡ join (reverse kept)
as_path_body kept h = ground arith

join_onto :
    (ps base : List Text)
    → join (reverse ps) ≢ []
    → join (reverse base) ≢ []
    → join (reverse (ps ++ base)) ≡ join (reverse base) ++ b'/' ∷ join (reverse ps)
join_onto ps base h k = ap join (reverse-append ps base) ∙ join_both (reverse base) (reverse ps) k h

append_not_empty : (s t : Text) → s ++ b'/' ∷ t ≢ []
append_not_empty [] t e = cc
append_not_empty (c ∷ s) t e = cc

as_path_onto :
    (rooted : Bool) (ps base : List Text)
    → as_path false ps ≢ bytes "."
    → as_path rooted base ≢ bytes "."
    → as_path rooted base ≢ bytes "/"
    → as_path rooted (ps ++ base) ≡ as_path rooted base ++ b'/' ∷ as_path false ps
as_path_onto true ps base h k l =
    rw (as_path_body ps (body_of ps h))
      (ap (λ s. b'/' ∷ s) (join_onto ps base (body_of ps h) (rooted_body_of base l)))
as_path_onto false ps base h k l =
    let e = join_onto ps base (body_of ps h) (body_of base k) in
    rw (as_path_body ps (body_of ps h), as_path_body base (body_of base k))
      (as_path_body (ps ++ base) (λ z. append_not_empty _ _ (sym e ∙ z)) ∙ e)

clean_lem : (p : Text) → clean p ≡ as_path (has_prefix p (bytes "/")) (elements p)
unfolding clean
clean_lem p = refl

clean_join :
    (root p : Text)
    → root ≢ []
    → clean root ≢ bytes "."
    → clean root ≢ bytes "/"
    → has_prefix (clean p) dot_dot ≡ false
    → has_prefix p (bytes "/") ≡ false
    → clean p ≢ bytes "."
    → clean (root ++ b'/' ∷ p) ≡ clean root ++ b'/' ∷ clean p
clean_join root p named deep deep' fine relative inside =
    let rooted = has_prefix root (bytes "/") in
    let e : clean p ≡ as_path false (elements p) =
      clean_lem p ∙ ap (λ r. as_path r (elements p)) relative in
    let joined =
      as_path_onto rooted (elements p) (elements root) (λ z. inside (e ∙ z))
        (λ z. deep (clean_lem root ∙ z)) (λ z. deep' (clean_lem root ∙ z)) in
    clean_lem (root ++ b'/' ∷ p)
    ∙ ap (λ r. as_path r (elements (root ++ b'/' ∷ p))) (has_slash-append root (b'/' ∷ p) named)
    ∙ ap (λ es. as_path rooted es) (elements-join root p named fine relative)
    ∙ joined
    ∙ ap (λ s. s ++ b'/' ∷ as_path false (elements p)) (sym (clean_lem root))
    ∙ ap (λ s. clean root ++ b'/' ∷ s) (sym e)

-- Under a root that is not the current directory and not "/", a relative path that `validatePath`
-- accepts, and that does not name the root itself, is found below the root: `fullPath` puts its clean
-- form, which has no element "..", behind that of the root.
pub full_path_below :
    (b : Backend) (p : Text)
    → clean b.config.root ≢ bytes "."
    → clean b.config.root ≢ bytes "/"
    → validate_path p ≡ ok tt
    → has_prefix p (bytes "/") ≡ false
    → clean p ≢ bytes "."
    → (full_path b p ≡ clean b.config.root ++ b'/' ∷ clean p) × (any_dot_dot (elements p) ≡ false)
unfolding full_path join_path validate_path
full_path_below b p deep deep' valid relative inside =
    let fine : has_prefix (clean p) dot_dot ≡ false = ground arith in
    let named : b.config.root ≢ [] = λ z. deep (ap clean z ∙ clean_empty) in
    let e = clean_join b.config.root p named deep deep' fine relative inside in
    (ground arith, relative_lem p fine relative)
