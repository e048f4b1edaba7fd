-- ===== src/Tests/Syncs.antt =====
-- Runs of the sync engine, its filter and its check (object/sync), and instances of the theorems on
-- them.
pub mod Copies
pub mod Checks
use omnistorage_core.Base.{
  ℕ, ◌≡◌, refl, true, false, not, ◌&&◌, ◌||◌, Option, none, some, List, [], ◌∷◌, ◌++◌, arith,
  if◌then◌else◌, ◌==◌, contains, list_eq, nat_eq, length, Result, ok, err, pos, any, ◌+◌,
  Bool-cases, inl, inr,
}
use omnistorage_core.Base.Dict
use omnistorage_core.Object.Hashing.{concat}
use mathlib.Core.List.{append-nil}
use omnistorage_core.Base.Dict.{Dict}
use omnistorage_core.Base.Text.{Text, bytes, has_prefix}
use omnistorage_core.Object.{Error}
use omnistorage_core.Object.Backend.{Backend, Stream}
use omnistorage_core.Object.FilePath
use omnistorage_core.Object.Copying
use omnistorage_core.Object.FilePath.{join_path}
use omnistorage_core.Sync.Check.{CheckResult, compare_content, files_match, check}
use omnistorage_core.Sync.Check.Answers.{compare_content_lem, files_match_total, files_match_far}
use omnistorage_core.Sync.Check.Partition.{check_lem}
use omnistorage_core.Sync.Filter.{Rule, matches, rejects}
use omnistorage_core.Sync.Filter.Meaning.{matches_lem, is_include, includes, all_admit}
use omnistorage_core.Sync.Engine.{compare, file_map, move, Env, sync, Action, to_delete}
use omnistorage_core.Sync.Engine.Planning.{compare_lem, is_file}
use omnistorage_core.Sync.Engine.Accounting.{handled, handled-sync}
use omnistorage_core.Sync.Engine.Untouched.{dry_run_changes_nothing}
use omnistorage_core.Sync.Engine.Mirror.{Works}
use omnistorage_core.Sync.Engine.Outcome.{sync_mirrors}
use omnistorage_core.Sync.Retry.{default_config}
use omnistorage_core.Sync.Copies.{copy, tree_copy}
use omnistorage_core.Sync.Copies.Outcomes.{handled-tree_copy, dry_copies_change_nothing}
use omnistorage_core.Sync.Verify.{verify}
use omnistorage_core.Sync.Verify.Overlooked.{verify_overlooks}
use omnistorage_core.Sync.Options.{Report, Options, FileInfo, no_options}
use omnistorage_core.Sync.Transfer.{copy_file_with_context, stream_copy}
use omnistorage_core.Sync.Transfer.Contents.{
  copy_file_with_context_lem, Views, IsLawful, stream_copy_truncates,
}
use omnistorage_core.Sync.Engine
use omnistorage_core.Sync.Listing.{list_files}
use omnistorage_core.Object.FilePath
use omnistorage_core.Sync.Check
use omnistorage_core.Sync.Content
use omnistorage_core.Sync.Transfer
use omnistorage_core.Sync.Options
use omnistorage_core.Sync.Filter
use omnistorage_core.Sync.Listing

-- Two maps of files, and the one writer that may be open.
pub record World : Type 0 where
  pub from : Dict Text (List ℕ)
  pub into : Dict Text (List ℕ)
  pub writing : Option (Text × List ℕ)

pub look : Text → Dict Text (List ℕ) → Result Error Stream
unfolding Dict.lookup
look p d = elim (Dict.lookup p d) [
  | none ↦ err Error.not_found
  | some content ↦ ok (record { chunks = content ∷ []; failure = none })
]

abbrev write_to : ℕ → List ℕ → World → World × Result Error ℕ
write_to h chunk w = elim w.writing [
  | none ↦ (w, err Error.writer_closed)
  | some (q, buffer) ↦ (record w { writing = some (q, buffer ++ chunk) }, ok (length chunk))
]

abbrev close_file : ℕ → World → World × Result Error (Unit {0})
close_file h w = elim w.writing [
  | none ↦ (w, err Error.writer_closed)
  | some (q, buffer) ↦ (record w { into = Dict.insert q buffer w.into; writing = none }, ok tt)
]

abbrev pub source_backend : Backend World
source_backend = record {
  new_writer = λ q os w. (w, err Error.context);
  write = λ h chunk w. (w, err Error.context);
  close_writer = λ h w. (w, err Error.context);
  new_reader = λ p w. look p w.from;
  exists = λ p w. ok (Dict.is_some (Dict.lookup p w.from));
  delete = λ p w. (record w { from = Dict.erase p w.from }, ok tt);
  list = λ prefix w. ok (Dict.keys w.from);
  extended = none;
}

abbrev pub destination : Backend World
destination = record {
  new_writer = λ q os w. (record w { writing = some (q, []) }, ok 0);
  write = write_to;
  close_writer = close_file;
  new_reader = λ p w. look p w.into;
  exists = λ p w. ok (Dict.is_some (Dict.lookup p w.into));
  delete = λ p w. (record w { into = Dict.erase p w.into }, ok tt);
  list = λ prefix w. ok (Dict.keys w.into);
  extended = none;
}

abbrev pub views : Views World
views = record {
  is_path = λ p. true;
  in_src = λ w p. Dict.lookup p w.from;
  in_dst = λ w p. Dict.lookup p w.into;
  pending = λ w h. w.writing;
}

pub reads :
    (p : Text) (w : World) {content : List ℕ}
    → Dict.lookup p w.from ≡ some content
    → (s : Stream) × (look p w.from ≡ ok s) × (concat s.chunks ≡ content) × (s.failure ≡ none)
unfolding look
reads p w {content} h =
    (record { chunks = content ∷ []; failure = none }, rw (look, h) refl, append-nil content, refl)

pub lawful : IsLawful views source_backend destination
lawful = record {
  reads = reads;
  opens = λ q os w h. (0, refl, refl, (λ p. refl, λ p. refl));
  writes = λ h chunk w {q} {buffer} e.
      (rw e refl, rw e refl, (λ p. ground (arith, e), λ p. ground (arith, e)));
  closes = λ h w {q} {buffer} e. (
    rw e refl,
    (λ p. ground (arith, e), λ p. ground (arith, e, Dict.lookup-insert p q buffer w.into)),
  );
  deletes = λ q w h. (refl, (λ p. refl, λ p. Dict.lookup-erase p q w.into));
}

pub program : Unit {0}
unfolding look join_path FilePath.split FilePath.join FilePath.contains_text FilePath.clean_part
    FilePath.clean_parts FilePath.clean FilePath.is_idle FilePath.is_dot_dot FilePath.trim_slash
    has_prefix Dict.lookup Dict.insert Dict.erase Dict.retain Dict.keys Listing.relative
    Listing.file_info Listing.is_kept Listing.list_each Listing.list_files Filter.matches
    Filter.match_pattern Filter.scan_includes Filter.rejects Filter.check_rules Filter.base
    Filter.drop_empty Filter.replace_stars Filter.is_empty Filter.sub_time Options.needs_update
    Options.add_error Options.is_full Options.success Transfer.build_writer_options
    Copying.copy_chunks Transfer.stream_copy Transfer.copy_file_single
    Transfer.copy_file_with_context Engine.file_map Engine.compare Engine.to_delete
    Engine.count_copy Engine.initial Engine.copy_one Engine.copy_all Engine.delete_all
    Engine.transfer Engine.sync Engine.copy_dir Engine.move_each Engine.move Content.ended
    Content.read_full Content.verdict Content.compare_loop Content.opened Check.is_far
    Check.compare_content Check.files_match Check.file_map Check.check_each Check.check
    Check.diff_entries Check.diff list_eq nat_eq
program = tt

-- No pattern matches, and times are compared as they are.
abbrev pub env : Env World
env = record {
  src = source_backend;
  dst = destination;
  same_backend = false;
  cancelled = λ w. none;
  interrupted = λ w. none;
  scale = λ d. d;
  jittered = λ i d. d;
  glob = λ pattern name. pattern == name;
  now = 0;
  same_time = λ t u. t == u;
  copy_order = λ actions. actions;
  delete_order = λ ps. ps;
}

abbrev pub mirror : Options
mirror = record no_options { delete_extra = true }

abbrev pub world : World
world = record {
  from = (bytes "in/a", 1 ∷ []) ∷ (bytes "in/b", 2 ∷ []) ∷ [];
  into = (bytes "in/a", 9 ∷ []) ∷ (bytes "in/c", 3 ∷ []) ∷ [];
  writing = none;
}

abbrev pub file : Text → FileInfo
file p = record { path = p; size = pos 0; mod_time = 0; hash = []; is_dir = false }

abbrev pub ours : List FileInfo
ours = file (bytes "a") ∷ file (bytes "b") ∷ []

abbrev pub theirs : List FileInfo
theirs = file (bytes "a") ∷ file (bytes "c") ∷ []

pub listed_ours : list_files env.glob env.now mirror source_backend (bytes "in") world ≡ ok ours
unfolding program
listed_ours = refl

pub listed_theirs : list_files env.glob env.now mirror destination (bytes "in") world ≡ ok theirs
unfolding program
listed_theirs = refl

-- Without metadata the file that both have is taken to be the same, though its content differs.
mirrored :
    (sync env mirror (bytes "in") (bytes "in") world).0.into
    ≡ (bytes "in/a", 9 ∷ []) ∷ (bytes "in/b", 2 ∷ []) ∷ []
unfolding program
mirrored = refl

works : Works env views mirror
works = record { distinct = refl; alive = λ w. refl; lawful = lawful; for_real = refl }

sync_mirrors_example :
    let w' = (sync env mirror (bytes "in") (bytes "in") world).0 in
    (((Dict.lookup (bytes "in/b") w'.into ≡ some (2 ∷ [])) × Unit {0})
      × ((q : Text) → contains (bytes "in/c" ∷ []) q ≡ true → Dict.lookup q w'.into ≡ none)
      × ((q : Text)
          → contains (bytes "in/b" ∷ []) q ≡ false
          → contains (bytes "in/c" ∷ []) q ≡ false
          → Dict.lookup q w'.into ≡ Dict.lookup q world.into))
unfolding program
sync_mirrors_example =
    sync_mirrors env views mirror works (bytes "in") (bytes "in") ours theirs world listed_ours
      listed_theirs ((((2 ∷ [], refl), refl), tt)) ((refl, tt)) ((refl, (refl, tt)))

dry_run_example :
    ((sync env (record mirror { dry_run = true }) (bytes "in") (bytes "out") world).0 ≡ world)
    × ((move env (record mirror { dry_run = true }) (bytes "in") (bytes "out") world).0 ≡ world)
dry_run_example =
    dry_run_changes_nothing env (record mirror { dry_run = true }) (bytes "in") (bytes "out") world
      refl

handled-sync_example :
    (r : Report) × ((sync env no_options (bytes "in") (bytes "in") world).1 ≡ some r)
    × ((sync env no_options (bytes "in") (bytes "in") world).2 ≡ none)
    × (handled r ≡ 2)
unfolding program
handled-sync_example =
    handled-sync env no_options (bytes "in") (bytes "in") (λ w. refl) refl ours theirs world
      (λ actions. refl) refl refl listed_ours listed_theirs

compare_example :
    let plan = compare env.same_time mirror ours (file_map theirs []) in
    (plan.to_copy ≡ record { file = file (bytes "b"); is_update = false } ∷ [])
    × (plan.skipped + length plan.to_copy ≡ 2)
    × ((p : Text)
        → contains (to_delete mirror plan.extra) p ≡ (
            true
            && is_file (Dict.lookup p (file_map theirs []))
            && not (contains (bytes "a" ∷ bytes "b" ∷ []) p)))
unfolding program
compare_example =
    compare_lem env.same_time mirror ours (file_map theirs []) (refl, (refl, tt)) (refl, (refl, tt))

abbrev json_only : List Rule
json_only = Rule.include (bytes "*.json") ∷ Rule.max_size (pos 10) ∷ []

matches_example :
    matches env.glob 0
      (some json_only)
      (record { path = bytes "*.json"; size = pos 3; mod_time = 0; is_dir = false })
    ≡ ((not (any is_include json_only) || any (includes env.glob (bytes "*.json")) json_only)
        && all_admit env.glob 0
            (record { path = bytes "*.json"; size = pos 3; mod_time = 0; is_dir = false })
            json_only)
matches_example =
    matches_lem env.glob 0 json_only
      (record { path = bytes "*.json"; size = pos 3; mod_time = 0; is_dir = false })
