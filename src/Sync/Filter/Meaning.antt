-- ===== src/Sync/Filter/Meaning.antt =====
-- What the filter of object/sync/filter/filter.go lets through.
use omnistorage_core.Base.{
  ℕ, ◌≡◌, refl, Bool, true, false, not, ◌&&◌, ◌||◌, some, List, [], ◌∷◌, arith, list_eq, nat_eq,
  any, any-Perm, ap, ◌∙◌, ◌+◌, ℤ, pos_part, neg_part, leb, ltz,
}
use omnistorage_core.Base.Text.{Text}
use mathlib.Core.List.{Perm}
use omnistorage_core.Sync.Filter.{
  Rule, FileInfo, match_pattern, scan_includes, rejects, check_rules, matches, is_empty, sub_time,
}

abbrev pub is_include : Rule → Bool
is_include (Rule.include _) = true
is_include (Rule.exclude _) = false
is_include (Rule.min_size _) = false
is_include (Rule.max_size _) = false
is_include (Rule.min_age _) = false
is_include (Rule.max_age _) = false

-- `a ≤ b`
abbrev pub at_most : ℤ → ℤ → Bool
at_most a b = leb (pos_part a + neg_part b) (pos_part b + neg_part a)

not-ltz : (a b : ℤ) → not (ltz a b) ≡ at_most b a
not-ltz a b = ground arith

module _ (glob : Text → Text → Bool) where
  abbrev pub includes : Text → Rule → Bool
  includes path (Rule.include pattern) = match_pattern glob pattern path
  includes path (Rule.exclude _) = false
  includes path (Rule.min_size _) = false
  includes path (Rule.max_size _) = false
  includes path (Rule.min_age _) = false
  includes path (Rule.max_age _) = false

  scan_includes_lem :
      (rules : List Rule) (path : Text) (h m : Bool)
      → scan_includes glob rules path h m
        ≡ (h || any is_include rules, m || any (includes path) rules)
  unfolding scan_includes
  scan_includes_lem [] path h m = ground arith
  scan_includes_lem (Rule.include p ∷ rules) path h m =
      ground (arith, scan_includes_lem rules path true true, scan_includes_lem rules path true m)
  scan_includes_lem (Rule.exclude _ ∷ rules) path h m = scan_includes_lem rules path h m
  scan_includes_lem (Rule.min_size _ ∷ rules) path h m = scan_includes_lem rules path h m
  scan_includes_lem (Rule.max_size _ ∷ rules) path h m = scan_includes_lem rules path h m
  scan_includes_lem (Rule.min_age _ ∷ rules) path h m = scan_includes_lem rules path h m
  scan_includes_lem (Rule.max_age _ ∷ rules) path h m = scan_includes_lem rules path h m

  check_rules_lem :
      (now : ℕ) (fi : FileInfo) (rules : List Rule)
      → check_rules glob now fi rules ≡ not (any (rejects glob now fi) rules)
  unfolding check_rules
  check_rules_lem now fi [] = refl
  check_rules_lem now fi (r ∷ rules) = ground (arith, check_rules_lem now fi rules)

  scanned :
      (now : ℕ) (rules : List Rule) (fi : FileInfo)
      → matches glob now (some rules) fi ≡ (
          (not (any is_include rules) || any (includes fi.path) rules)
          && not (any (rejects glob now fi) rules))
  unfolding matches is_empty
  scanned now [] fi = refl
  scanned now (r ∷ rules) fi =
      ground (
        arith,
        scan_includes_lem (r ∷ rules) fi.path false false,
        check_rules_lem now fi (r ∷ rules),
      )

  -- What a rule that is no include asks of a file: that no exclude pattern matches its path, that its size
  -- is at least, or at most, the bound, and that so is its age.
  abbrev pub admits : ℕ → FileInfo → Rule → Bool
  admits now fi (Rule.include pattern) = true
  admits now fi (Rule.exclude pattern) = not (match_pattern glob pattern fi.path)
  admits now fi (Rule.min_size n) = at_most n fi.size
  admits now fi (Rule.max_size n) = at_most fi.size n
  admits now fi (Rule.min_age d) = at_most d (sub_time now fi.mod_time)
  admits now fi (Rule.max_age d) = at_most (sub_time now fi.mod_time) d

  abbrev pub all_admit : ℕ → FileInfo → List Rule → Bool
  all_admit now fi [] = true
  all_admit now fi (r ∷ rules) = admits now fi r && all_admit now fi rules

  rejects_lem : (now : ℕ) (fi : FileInfo) (r : Rule) → not (rejects glob now fi r) ≡ admits now fi r
  unfolding rejects
  rejects_lem now fi (Rule.include pattern) = refl
  rejects_lem now fi (Rule.exclude pattern) = refl
  rejects_lem now fi (Rule.min_size n) = not-ltz fi.size n
  rejects_lem now fi (Rule.max_size n) = not-ltz n fi.size
  rejects_lem now fi (Rule.min_age d) = not-ltz (sub_time now fi.mod_time) d
  rejects_lem now fi (Rule.max_age d) = not-ltz d (sub_time now fi.mod_time)

  rejects_each :
      (now : ℕ) (fi : FileInfo) (rules : List Rule)
      → not (any (rejects glob now fi) rules) ≡ all_admit now fi rules
  rejects_each now fi [] = refl
  rejects_each now fi (r ∷ rules) = ground (arith, rejects_lem now fi r, rejects_each now fi rules)

  -- `Match` lets a file through if and only if some include pattern matches it, or there is none, no
  -- exclude pattern matches it, and its size and its age lie within all of the bounds, the bounds
  -- included.
  pub matches_lem :
      (now : ℕ) (rules : List Rule) (fi : FileInfo)
      → matches glob now (some rules) fi
        ≡ ((not (any is_include rules) || any (includes fi.path) rules) && all_admit now fi rules)
  matches_lem now rules fi =
      scanned now rules fi
      ∙ ap (λ c. (not (any is_include rules) || any (includes fi.path) rules) && c)
          (rejects_each now fi rules)

  -- The order of the rules does not matter.
  pub matches-Perm :
      (now : ℕ) (fi : FileInfo) {rules rules' : List Rule}
      → Perm rules rules'
      → matches glob now (some rules) fi ≡ matches glob now (some rules') fi
  matches-Perm now fi {rules} {rules'} p = ground (
    arith,
    scanned now rules fi,
    scanned now rules' fi,
    any-Perm is_include p,
    any-Perm (includes fi.path) p,
    any-Perm (rejects glob now fi) p,
  )
