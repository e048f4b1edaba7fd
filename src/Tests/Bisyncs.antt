-- ===== src/Tests/Bisyncs.antt =====
-- Runs of the synchronisation in both directions (object/sync/bisync.go), and instances of the theorems
-- on it.
use omnistorage_core.Base.{
  ℕ, ◌≡◌, refl, sym, ap, ◌∙◌, true, false, Option, none, some, List, [], ◌∷◌, ◌++◌, list_eq, nat_eq,
  length, Result, ok, err, pos, contains, ◌+◌, ◌==◌,
}
use mathlib.Core.List.{append-nil}
use mathlib.Core.Path.{subst}
use omnistorage_core.Object.Copying
use omnistorage_core.Object.FilePath
use omnistorage_core.Object.FilePath.{join_path}
use omnistorage_core.Sync.Bisync.Agreement.{bisync-Agrees}
use omnistorage_core.Sync.Bisync.Conflicts
use omnistorage_core.Sync.Bisync.Conflicts.{Ends}
use omnistorage_core.Sync.Bisync.Counts.{handled-bisync, tally, unresolved}
use omnistorage_core.Sync.Bisync.Plan
use omnistorage_core.Sync.Bisync.Run
use omnistorage_core.Sync.Bisync.Run.{bisync}
use omnistorage_core.Sync.Bisync.Settling.{Sides, Cooperate}
use omnistorage_core.Sync.Bisync.Types
use omnistorage_core.Sync.Bisync.Types.{
  BisyncOptions, BisyncResult, ConflictStrategy, default_bisync_options, with_defaults,
  scan_options,
}
use omnistorage_core.Sync.Filter
use omnistorage_core.Sync.Listing
use omnistorage_core.Sync.Listing.{list_files}
use omnistorage_core.Sync.Options
use omnistorage_core.Sync.Options.{FileInfo}
use omnistorage_core.Sync.Transfer
use omnistorage_core.Base.Text.{bytes, has_prefix, Text}
use omnistorage_core.Base.Dict
use omnistorage_core.Base.Dict.{Dict}
use omnistorage_core.Object.{Error}
use omnistorage_core.Object.Backend.{Backend, Stream, Info}
use omnistorage_core.Sync.Transfer.Contents.{Views, IsLawful, Same, Differs}

-- The files of a backend, and the one writer that may be open.
record Shelf : Type 0 where
  files : Dict Text (List ℕ)
  writing : Option (Text × List ℕ)

record Both : Type 0 where
  one : Shelf
  two : Shelf

abbrev store : Text → List ℕ → Shelf → Shelf
store q content s = record { files = Dict.insert q content s.files; writing = none }

abbrev stream : List ℕ → Stream
stream content = record { chunks = content ∷ []; failure = none }

abbrev info : List ℕ → Info
info content = record {
  size = pos (length content);
  mod_time = 0;
  is_dir = false;
  hash = [];
  content_type = [];
  metadata = [];
}

module _ (get : Both → Shelf) (put : Shelf → Both → Both) where
  abbrev write_to : List ℕ → Both → Both × Result Error ℕ
  write_to chunk w = elim (get w).writing [
    | none ↦ (w, err Error.writer_closed)
    | some (q, buffer) ↦
        (put (record (get w) { writing = some (q, buffer ++ chunk) }) w, ok (length chunk))
  ]

  abbrev close_file : Both → Both × Result Error (Unit {0})
  close_file w = elim (get w).writing [
    | none ↦ (w, err Error.writer_closed)
    | some (q, buffer) ↦ (put (store q buffer (get w)) w, ok tt)
  ]

  abbrev look : Text → Both → Result Error Stream
  look p w = elim (Dict.lookup p (get w).files) [
    | none ↦ err Error.not_found
    | some content ↦ ok (stream content)
  ]

  abbrev on_shelf : Backend Both
  on_shelf = record {
    new_writer = λ q os w. (put (record (get w) { writing = some (q, []) }) w, ok 0);
    write = λ h chunk w. write_to chunk w;
    close_writer = λ h w. close_file w;
    new_reader = look;
    exists = λ p w. ok (Dict.is_some (Dict.lookup p (get w).files));
    delete = λ p w. (put (record (get w) { files = Dict.erase p (get w).files }) w, ok tt);
    list = λ prefix w. ok (Dict.keys (get w).files);
    extended = some (record {
      stat = λ p w. elim (Dict.lookup p (get w).files) [
        | none ↦ err Error.not_found
        | some content ↦ ok (info content)
      ];
      copies = false;
      copy = λ p q w. (w, err Error.not_supported);
      moves = false;
      move = λ p q w. (w, err Error.not_supported);
    });
  }

  write_to_lem :
      (chunk : List ℕ) (w : Both) {q : Text} {buffer : List ℕ}
      → (get w).writing ≡ some (q, buffer)
      → write_to chunk w
        ≡ (put (record (get w) { writing = some (q, buffer ++ chunk) }) w, ok (length chunk))
  write_to_lem chunk w e = rw (write_to, e) refl

  close_file_lem :
      (w : Both) {q : Text} {buffer : List ℕ}
      → (get w).writing ≡ some (q, buffer)
      → close_file w ≡ (put (store q buffer (get w)) w, ok tt)
  close_file_lem w e = rw (close_file, e) refl

  look_lem :
      (p : Text) (w : Both) {content : List ℕ}
      → Dict.lookup p (get w).files ≡ some content
      → look p w ≡ ok (stream content)
  look_lem p w e = rw (look, e) refl

module _ (other get : Both → Shelf) (put_other put : Shelf → Both → Both)
    (found : (s : Shelf) (w : Both) → get (put s w) ≡ s)
    (apart : (s : Shelf) (w : Both) → other (put s w) ≡ other w) where
  abbrev views : Views Both
  views = record {
    is_path = λ p. true;
    in_src = λ w p. Dict.lookup p (other w).files;
    in_dst = λ w p. Dict.lookup p (get w).files;
    pending = λ w h. (get w).writing;
  }

  abbrev listed : Shelf → Text → Option (List ℕ)
  listed s p = Dict.lookup p s.files

  -- a new shelf with the same files, or with others
  put-Same :
      (w : Both) (o : Option (Text × List ℕ))
      → Same views w (put (record (get w) { writing = o }) w)
  put-Same w o =
      let s : Shelf = record (get w) { writing = o } in
      (λ p. ap (λ x. listed x p) (apart s w), λ p. ap (λ x. listed x p) (found s w))

  new_file :
      (w : Both) (q : Text) (content : List ℕ)
      → Differs views q (some content) w (put (store q content (get w)) w)
  new_file w q content =
      let s = store q content (get w) in
      (
        λ p. ap (λ x. listed x p) (apart s w),
        λ p. ap (λ x. listed x p) (found s w) ∙ Dict.lookup-insert p q content (get w).files,
      )

  old_file :
      (w : Both) (q : Text)
      → Differs views q none w (put (record (get w) { files = Dict.erase q (get w).files }) w)
  old_file w q =
      let s : Shelf = record (get w) { files = Dict.erase q (get w).files } in
      (
        λ p. ap (λ x. listed x p) (apart s w),
        λ p. ap (λ x. listed x p) (found s w) ∙ Dict.lookup-erase p q (get w).files,
      )

  abbrev opened : Option (Text × List ℕ) → Both → Shelf
  opened o w = record (get w) { writing = o }

  lawful : IsLawful views (on_shelf other put_other) (on_shelf get put)
  lawful = record {
    reads = λ p w {content} e.
        (stream content, look_lem other put_other p w e, append-nil content, refl);
    opens = λ q os w h. (
      0,
      refl,
      ap (λ (s : Shelf). s.writing) (found (opened (some (q, [])) w) w),
      put-Same w (some (q, [])),
    );
    writes = λ h chunk w {q} {buffer} e.
        subst
          (λ (x : Both × Result Error ℕ).
            (x.1 ≡ ok (length chunk))
            × ((get x.0).writing ≡ some (q, buffer ++ chunk))
            × Same views w x.0)
          (sym (write_to_lem get put chunk w e))
          (
            refl,
            ap (λ (s : Shelf). s.writing) (found (opened (some (q, buffer ++ chunk)) w) w),
            put-Same w (some (q, buffer ++ chunk)),
          );
    closes = λ h w {q} {buffer} e.
        subst
          (λ (x : Both × Result Error (Unit {0})).
            (x.1 ≡ ok tt) × Differs views q (some buffer) w x.0)
          (sym (close_file_lem get put w e)) (refl, new_file w q buffer);
    deletes = λ q w h. (refl, old_file w q);
  }

abbrev put_one : Shelf → Both → Both
put_one s w = record w { one = s }

abbrev put_two : Shelf → Both → Both
put_two s w = record w { two = s }

abbrev ends : Ends Both
ends = record {
  backend1 = on_shelf (λ w. w.one) put_one;
  backend2 = on_shelf (λ w. w.two) put_two;
  same_backend = false;
  cancelled = λ w. none;
  interrupted = λ w. none;
  scale = λ d. d;
  jittered = λ i d. d;
  glob = λ pattern name. pattern == name;
  now = 0;
  same_time = λ t u. t == u;
  map_order = λ d. d;
}

abbrev sides : Sides Both
sides = record {
  is_path1 = λ p. true;
  is_path2 = λ p. true;
  in1 = λ w p. Dict.lookup p w.one.files;
  in2 = λ w p. Dict.lookup p w.two.files;
  pending1 = λ w h. w.one.writing;
  pending2 = λ w h. w.two.writing;
}

abbrev larger : BisyncOptions
larger = record default_bisync_options { conflict_strategy = ConflictStrategy.larger_wins }

program : Unit {0}
unfolding join_path FilePath.split FilePath.join FilePath.contains_text FilePath.clean_part
    FilePath.clean_parts FilePath.clean FilePath.is_idle FilePath.is_dot_dot FilePath.trim_slash
    has_prefix Dict.lookup Dict.insert Dict.erase Dict.retain Dict.keys Listing.relative
    Listing.file_info Listing.is_kept Listing.list_each Listing.list_files Filter.matches
    Filter.match_pattern Filter.scan_includes Filter.rejects Filter.check_rules Filter.base
    Filter.drop_empty Filter.replace_stars Filter.is_empty Filter.sub_time Options.needs_update
    Transfer.build_writer_options Copying.copy_chunks Transfer.stream_copy Transfer.copy_file_single
    Transfer.copy_file_with_context Plan.file_map Plan.compare_first Plan.compare_second
    Plan.compare_sides Conflicts.keep_both_first_older Conflicts.keep_both_second_older
    Conflicts.resolve_by Conflicts.resolve_conflict Run.note_error Run.max_errors_reached
    Run.count_to1 Run.count_to2 Run.count_update Run.note_conflict Run.act Run.act_each
    Run.reconcile Run.bisync Types.with_defaults list_eq nat_eq
program = tt

-- The file a differs, b is only on the first side, and c only on the second.
abbrev both : Both
both = record {
  one = record { files = (bytes "x/a", 1 ∷ 1 ∷ []) ∷ (bytes "x/b", 2 ∷ []) ∷ []; writing = none };
  two = record { files = (bytes "y/a", 9 ∷ []) ∷ (bytes "y/c", 3 ∷ []) ∷ []; writing = none };
}

-- With `ConflictKeepBoth` the second side's file is set aside on both sides.
kept_both :
    (bisync ends
      (bytes "x")
      (bytes "y")
      (record default_bisync_options { conflict_strategy = ConflictStrategy.keep_both })
      both).0.two.files
    ≡ (bytes "y/a", 1 ∷ 1 ∷ [])
      ∷ (bytes "y/c", 3 ∷ [])
      ∷ (bytes "y/a.conflict", 9 ∷ [])
      ∷ (bytes "y/b", 2 ∷ [])
      ∷ []
unfolding program
kept_both = refl

abbrev file : Text → ℕ → FileInfo
file p n = record { path = p; size = pos n; mod_time = 0; hash = []; is_dir = false }

abbrev ours : List FileInfo
ours = file (bytes "a") 2 ∷ file (bytes "b") 1 ∷ []

abbrev theirs : List FileInfo
theirs = file (bytes "a") 1 ∷ file (bytes "c") 1 ∷ []

listed_ours :
    list_files ends.glob ends.now
      (scan_options (with_defaults larger))
      ends.backend1
      (bytes "x")
      both
    ≡ ok ours
unfolding program
listed_ours = refl

listed_theirs :
    list_files ends.glob ends.now
      (scan_options (with_defaults larger))
      ends.backend2
      (bytes "y")
      both
    ≡ ok theirs
unfolding program
listed_theirs = refl

cooperate : Cooperate ends sides (with_defaults larger)
unfolding program
cooperate = record {
  distinct = refl;
  alive = λ w. refl;
  for_real = refl;
  decisive = refl;
  to2_lawful = lawful (λ w. w.one) (λ w. w.two) put_one put_two (λ s w. refl) (λ s w. refl);
  to1_lawful = lawful (λ w. w.two) (λ w. w.one) put_two put_one (λ s w. refl) (λ s w. refl);
}

bisync-Agrees_example :
    let w' = (bisync ends (bytes "x") (bytes "y") larger both).0 in
    ((r : BisyncResult) × ((bisync ends (bytes "x") (bytes "y") larger both).1 ≡ some r)
      × (r.errors ≡ []))
    × ((bisync ends (bytes "x") (bytes "y") larger both).2 ≡ none)
    × (((Dict.lookup (bytes "x/a") w'.one.files ≡ some (1 ∷ 1 ∷ []))
          × (Dict.lookup (bytes "y/a") w'.two.files ≡ some (1 ∷ 1 ∷ [])))
        × (((Dict.lookup (bytes "x/b") w'.one.files ≡ some (2 ∷ []))
              × (Dict.lookup (bytes "y/b") w'.two.files ≡ some (2 ∷ [])))
            × (((Dict.lookup (bytes "x/c") w'.one.files ≡ some (3 ∷ []))
                  × (Dict.lookup (bytes "y/c") w'.two.files ≡ some (3 ∷ [])))
                × Unit {0})))
    × (((p : Text)
          → contains (bytes "x/a" ∷ bytes "x/b" ∷ bytes "x/c" ∷ []) p ≡ false
          → Dict.lookup p w'.one.files ≡ Dict.lookup p both.one.files)
        × ((p : Text)
            → contains (bytes "y/a" ∷ bytes "y/b" ∷ bytes "y/c" ∷ []) p ≡ false
            → Dict.lookup p w'.two.files ≡ Dict.lookup p both.two.files))
unfolding program
bisync-Agrees_example =
    bisync-Agrees ends sides larger cooperate (bytes "x") (bytes "y") ours theirs both listed_ours
      listed_theirs (refl, (refl, (refl, tt))) (refl, (refl, (refl, tt)))
      (
        ((1 ∷ 1 ∷ [], refl), refl, refl, refl),
        (((2 ∷ [], refl), refl, refl, tt), (((3 ∷ [], refl), refl, refl, tt), tt)),
      )

handled-bisync_example :
    (r : BisyncResult) × ((bisync ends (bytes "x") (bytes "y") larger both).1 ≡ some r)
    × ((bisync ends (bytes "x") (bytes "y") larger both).2 ≡ none)
    × (tally r + r.skipped ≡ 2 + 1 + unresolved r.conflicts)
unfolding program
handled-bisync_example =
    handled-bisync ends larger (bytes "x") (bytes "y") ours theirs both (λ w. refl) refl listed_ours
      listed_theirs
