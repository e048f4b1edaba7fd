-- ===== src/Session/Kvs/Runs.antt =====
-- Runs of the session store of session/backend/kvs/kvs.go against runs of the map of
-- Session/Kvs/Abstract.antt.
use omnistorage_core.Base.{◌≡◌, refl, Bool, List, [], ◌∷◌, list_eq, nat_eq, ap}
use mathlib.Core.Path.{ap₂}
use omnistorage_core.Kvs.Backend.{Listable, IsReliable}
use omnistorage_core.Session.{Session, Config}
use omnistorage_core.Session.Kvs
use omnistorage_core.Session.Kvs.{
  Codec, Store, session_key, user_sessions_key, lifetime, lift, is_not_found, of_kvs,
  add_to_user_index, remove_from_user_index, clean_each, cleanup_orphaned_indexes,
}
use omnistorage_core.Session.Kvs.Abstract.{
  Call, Reply, done, session, ticked, Sessions, answer, replay,
}
use omnistorage_core.Session.Kvs.Slots.{IsFaithful}
use omnistorage_core.Session.Kvs.Refinement.{
  Agrees, Matches, create-Matches, delete-Matches, get-Matches, update-Matches, touch-Matches,
  cleanup-Agrees,
}

module _ {D : Type 0} (B : Listable) (codec : Codec D) (config : Config) where
  unfoldable pub step : Call D → Store B → Store B × Reply D
  step (Call.create now x) s = let (s', r) = Kvs.create B codec config now x s in (s', done r)
  step (Call.get now id) s = let (s', r) = Kvs.get B codec config now id s in (s', session r)
  step (Call.update now x) s = let (s', r) = Kvs.update B codec config now x s in (s', session r)
  step (Call.delete id) s = let (s', r) = Kvs.delete B codec config id s in (s', done r)
  step (Call.touch now id) s = let (s', r) = Kvs.touch B codec config now id s in (s', session r)
  step Call.cleanup s = (cleanup_orphaned_indexes B codec config s, ticked)

  unfoldable pub run : List (Call D) → Store B → List (Reply D)
  run [] s = []
  run (c ∷ cs) s = (step c s).1 ∷ run cs (step c s).0

module _ {D : Type 0} (B : Listable) (codec : Codec D) (config : Config) (is_open : B.State → Bool)
    (laws : IsReliable B is_open) (read_back : Session D → Session D)
    (faithful : IsFaithful codec read_back) where
  step-Matches :
      (c : Call D) (m : Sessions D) (s : Store B)
      → Agrees B codec config is_open laws read_back faithful s m
      → Matches B codec config is_open laws read_back faithful
          (step B codec config c s)
          (answer codec read_back c m)
  unfolding step answer
  step-Matches (Call.create now x) m s a =
      let p = create-Matches B codec config is_open laws read_back faithful m s a now x in
      record { results = ap done p.results; states = p.states }
  step-Matches (Call.get now id) m s a =
      let p = get-Matches B codec config is_open laws read_back faithful m s a now id in
      record { results = ap session p.results; states = p.states }
  step-Matches (Call.update now x) m s a =
      let p = update-Matches B codec config is_open laws read_back faithful m s a now x in
      record { results = ap session p.results; states = p.states }
  step-Matches (Call.delete id) m s a =
      let p = delete-Matches B codec config is_open laws read_back faithful m s a id in
      record { results = ap done p.results; states = p.states }
  step-Matches (Call.touch now id) m s a =
      let p = touch-Matches B codec config is_open laws read_back faithful m s a now id in
      record { results = ap session p.results; states = p.states }
  step-Matches Call.cleanup m s a = record {
    results = refl;
    states = cleanup-Agrees B codec config is_open laws read_back faithful m s a;
  }

  -- Over an open key-value store that keeps what its interface promises and in which no TTL runs out, and
  -- with a codec that reads back what it wrote, any run of the session store, cleanup ticks included,
  -- answers as the map of sessions does, from states that agree: the indexes that stand in the same key space
  -- are never taken for sessions, nor changed into any.
  pub run_refines :
      (cs : List (Call D)) (m : Sessions D) (s : Store B)
      → Agrees B codec config is_open laws read_back faithful s m
      → run B codec config cs s ≡ replay codec read_back cs m
  unfolding run replay
  run_refines [] m s a = refl
  run_refines (c ∷ cs) m s a =
      let p = step-Matches c m s a in ap₂ ◌∷◌ p.results (run_refines cs _ _ p.states)
