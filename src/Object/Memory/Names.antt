-- ===== src/Object/Memory/Names.antt =====
-- Names in the in-memory object backend (object/backend/memory/backend.go): listing, directories.
use omnistorage_core.Base.{
  ℕ, zero, suc, ◌+◌, ◌≡◌, refl, ◌∙◌, inl, inr, Bool, true, false, not, ◌&&◌, ◌||◌, Option, none,
  some, List, [], ◌∷◌, ◌++◌, arith, if◌then◌else◌, Option-cases, ◌==◌, contains, list_eq, nat_eq,
  length, take, ok,
}
use omnistorage_core.Base.Dict
use omnistorage_core.Base.Dict.{Dict, NodupKeys}
use omnistorage_core.Base.Sort.{Ascending, contains-sort, sort-Ascending}
use omnistorage_core.Base.Text.{Text, bytes, has_prefix, sort_texts, text_lt, text_lt-IsStrictOrder}
use omnistorage_core.Object.FilePath.{split, join, validate_path, normalize_path}
use omnistorage_core.Object.Memory
use omnistorage_core.Object.Memory.{
  Object, Backend, Writer, Reader, Ctx, check, select, make_dirs, is_listed,
}

-- whether a file (no directory) is stored under a name
abbrev pub is_file : Option Object → Bool
is_file none = false
is_file (some o) = not o.is_dir

has_prefix_append : (s p q : Text) → has_prefix s (p ++ q) ≡ true → has_prefix s p ≡ true
unfolding has_prefix
has_prefix_append s [] q h = refl
has_prefix_append [] (c ∷ p) q h = h
has_prefix_append (d ∷ s) (c ∷ p) q h = ground (arith, has_prefix_append s p q)

listed_lem :
    (prefix k : Text) (b : Backend)
    → NodupKeys b.objects
    → Dict.is_some (Dict.lookup k (Dict.retain (is_listed prefix) b.objects))
      ≡ (is_file (Dict.lookup k b.objects) && has_prefix k prefix)
unfolding is_listed has_prefix
listed_lem prefix k b u = ground (
  arith,
  Dict.lookup-retain (is_listed prefix) k b.objects u,
  has_prefix_append k prefix (bytes "/"),
)

-- On an open backend that lists no path twice, `List` returns, strictly ascending, exactly the stored
-- files whose name begins with the normal form of the prefix.
pub list_lem :
    (prefix : Text) (b : Backend)
    → b.is_closed ≡ false
    → NodupKeys b.objects
    → (ks : List Text) × (Memory.list none prefix b ≡ ok ks)
      × Ascending text_lt ks
      × ((k : Text)
          → contains ks k
            ≡ (is_file (Dict.lookup k b.objects) && has_prefix k (normalize_path prefix)))
unfolding Memory.list
list_lem prefix b alive u =
    let names = Dict.retain (is_listed (normalize_path prefix)) b.objects in
    let ks = Dict.keys names in
    (
      sort_texts ks,
      rw alive,
      sort-Ascending text_lt text_lt-IsStrictOrder ks
          (Dict.keys-Distinct names (Dict.retain-NodupKeys _ b.objects u)),
      λ k.
          contains-sort text_lt k ks
          ∙ Dict.contains-keys names k
          ∙ listed_lem (normalize_path prefix) k b u,
    )

-- the directory that `Mkdir` makes of the first `i + 1` parts
abbrev ancestor : List Text → ℕ → Text
ancestor parts i = join (take (i + 1) parts)

-- whether a name is one of the ancestors from `i` on
abbrev pub is_ancestor : List Text → ℕ → ℕ → Text → Bool
is_ancestor parts zero i k = false
is_ancestor parts (suc left) i k = k == ancestor parts i || is_ancestor parts left (i + 1) k

-- an object, or the directory that takes its place if there is none
abbrev pub or_directory : ℕ → Option Object → Object
or_directory now none = Memory.directory now
or_directory now (some o) = o

lookup-make_dirs :
    (now : ℕ) (parts : List Text) (left i : ℕ) (k : Text) (d : Dict Text Object)
    → Dict.lookup k (make_dirs now parts left i d) ≡ (
        if is_ancestor parts left i k
        then some (or_directory now (Dict.lookup k d))
        else Dict.lookup k d)
unfolding make_dirs
lookup-make_dirs now parts zero i k d = refl
lookup-make_dirs now parts (suc left) i k d =
    let path = join (take (i + 1) parts) in
    let d' =
      if Dict.is_some (Dict.lookup path d) then d else Dict.insert path (Memory.directory now) d in
    ground (
      arith,
      lookup-make_dirs now parts left (i + 1) k d',
      Dict.lookup-insert k path (Memory.directory now) d,
    )

-- `Mkdir` on an open backend makes a directory of every ancestor of the path, and of the path, that
-- is not stored yet, and changes nothing else: what is stored under an ancestor's name stays, also
-- if it is a file.
pub mkdir_lem :
    (now : ℕ) (p k : Text) (b : Backend)
    → b.is_closed ≡ false
    → validate_path p ≡ ok tt
    → let (b', r) = Memory.mkdir none now p b in
      let parts = split (normalize_path p) in
      (r ≡ ok tt)
      × (Dict.lookup k b'.objects ≡ (
          if is_ancestor parts (length parts) 0 k
          then some (or_directory now (Dict.lookup k b.objects))
          else Dict.lookup k b.objects))
unfolding Memory.mkdir check
mkdir_lem now p k b alive valid =
    let parts = split (normalize_path p) in
    let made = lookup-make_dirs now parts (length parts) 0 k b.objects in ground arith

any_under-lookup :
    (prefix k : Text) (d : Dict Text Object)
    → Memory.any_under prefix d ≡ false
    → has_prefix k prefix ≡ true
    → Dict.lookup k d ≡ none
unfolding Memory.any_under Dict.lookup
any_under-lookup prefix k [] h p = refl
any_under-lookup prefix k ((j, o) ∷ d) h p = ground (arith, any_under-lookup prefix k d)

-- An `Rmdir` that succeeds found a directory with nothing stored below it, and removes it alone.
pub rmdir_lem :
    (p k below : Text) (b : Backend)
    → (Memory.rmdir none p b).1 ≡ ok tt
    → has_prefix below (normalize_path p ++ bytes "/") ≡ true
    → (o : Object) × (Dict.lookup (normalize_path p) b.objects ≡ some o)
      × (o.is_dir ≡ true)
      × (Dict.lookup below b.objects ≡ none)
      × (Dict.lookup k (Memory.rmdir none p b).0.objects
          ≡ (if k == normalize_path p then none else Dict.lookup k b.objects))
unfolding Memory.rmdir
rmdir_lem p k below b h u = elim (Option-cases (Dict.lookup (normalize_path p) b.objects)) [
  | inl gone ↦ absurd (ground arith)
  | inr (o, found) ↦ (
    o,
    found,
    ground arith,
    any_under-lookup (normalize_path p ++ bytes "/") below b.objects (ground arith) u,
    ground (arith, Dict.lookup-erase k (normalize_path p) b.objects),
  )
]
