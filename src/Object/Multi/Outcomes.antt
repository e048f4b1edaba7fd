-- ===== src/Object/Multi/Outcomes.antt =====
-- What a success of the multi-writer (object/multi/writer.go) says about the single writers.
use omnistorage_core.Base.{
  ℕ, suc, ◌+◌, ◌/◌, ◌≤◌, ◌≡◌, refl, inl, inr, Bool, false, not, ◌&&◌, ◌||◌, List, [], ◌∷◌, ◌++◌,
  arith, ltb, leb, if◌then◌else◌, list_eq, nat_eq, length, length-append, ok, err, is_ok,
  Result-cases,
}
use omnistorage_core.Object.Multi
use omnistorage_core.Object.Multi.{
  Target, Mode, write_all, write_best_effort, write_quorum, is_all, is_quorum, Cause, failure,
  no_quorum, multi, writer_closed, Fan, Writers, Round, open_each, write_each, close_each,
  close_silently,
}

-- whether `k` of `n` are enough for a mode
abbrev pub suffices : Mode → ℕ → ℕ → Bool
suffices write_all k n = leb n k && ltb 0 k
suffices write_best_effort k n = ltb 0 k
suffices write_quorum k n = ltb (n / 2) k

module _ (T : Target) where
  open T use {Backend, Writer, Failure}

  -- the writers after a chunk has been written to each
  abbrev pub all_written : List ℕ → List Writer → List Writer
  all_written p [] = []
  all_written p (w ∷ ws) = (T.write p w).0 ∷ all_written p ws

  -- how many of the writers take the chunk
  abbrev pub takers : List ℕ → List Writer → ℕ
  takers p [] = 0
  takers p (w ∷ ws) = if is_ok (T.write p w).1 then suc (takers p ws) else takers p ws

  -- how many of the backends open a writer
  abbrev pub openers : List Backend → ℕ
  openers [] = 0
  openers (b ∷ bs) = if is_ok (T.new_writer b) then suc (openers bs) else openers bs

  takers-le : (p : List ℕ) (ws : List Writer) → takers p ws ≤ length ws
  takers-le p [] = omega arith
  takers-le p (w ∷ ws) = ground (arith, takers-le p ws)

  openers-le : (bs : List Backend) → openers bs ≤ length bs
  openers-le [] = omega arith
  openers-le (b ∷ bs) = ground (arith, openers-le bs)

  -- The loop of `Write` stops exactly if all writers must take the chunk and one does not.
  stopped-write_each :
      (mode : Mode) (p : List ℕ) (ws : List Writer) (k : ℕ) (errs : List (Cause Failure)) (n : ℕ)
      → (write_each T mode p ws k errs n).stopped ≡ (is_all mode && ltb (takers p ws) (length ws))
  unfolding write_each
  stopped-write_each mode p [] k errs n = ground arith
  stopped-write_each mode p (w ∷ ws) k errs n = elim (Result-cases (T.write p w).1) [
    | inl (j, e) ↦
        ground (arith, stopped-write_each mode p ws (k + 1) errs (if ltb n j then j else n))
    | inr (x, e) ↦
        ground (arith, takers-le p ws, stopped-write_each mode p ws k (errs ++ failure x ∷ []) n)
  ]

  write_each_lem :
      (mode : Mode) (p : List ℕ) (ws : List Writer) (k : ℕ) (errs : List (Cause Failure)) (n : ℕ)
      → (write_each T mode p ws k errs n).stopped ≡ false
      → ((write_each T mode p ws k errs n).written ≡ all_written p ws)
        × ((write_each T mode p ws k errs n).successes ≡ k + takers p ws)
  unfolding write_each
  write_each_lem mode p [] k errs n h = (refl, omega arith)
  write_each_lem mode p (w ∷ ws) k errs n h = elim (Result-cases (T.write p w).1) [
    | inl (j, e) ↦ ground (arith, write_each_lem mode p ws (k + 1) errs (if ltb n j then j else n))
    | inr (x, e) ↦ ground (arith, write_each_lem mode p ws k (errs ++ failure x ∷ []) n)
  ]

  stopped-open_each :
      (mode : Mode) (bs : List Backend) (ws : List Writer) (errs : List (Cause Failure))
      → (open_each T mode bs ws errs).0 ≡ (is_all mode && ltb (openers bs) (length bs))
  unfolding open_each
  stopped-open_each mode [] ws errs = ground arith
  stopped-open_each mode (b ∷ bs) ws errs = elim (Result-cases (T.new_writer b)) [
    | inl (w, e) ↦ ground (arith, stopped-open_each mode bs (ws ++ w ∷ []) errs)
    | inr (x, e) ↦
        ground (arith, openers-le bs, stopped-open_each mode bs ws (errs ++ failure x ∷ []))
  ]

  open_each_lem :
      (mode : Mode) (bs : List Backend) (ws : List Writer) (errs : List (Cause Failure))
      → (open_each T mode bs ws errs).0 ≡ false
      → length (open_each T mode bs ws errs).1 ≡ length ws + openers bs
  unfolding open_each
  open_each_lem mode [] ws errs h = omega arith
  open_each_lem mode (b ∷ bs) ws errs h = elim (Result-cases (T.new_writer b)) [
    | inl (w, e) ↦
        ground (arith, length-append ws (w ∷ []), open_each_lem mode bs (ws ++ w ∷ []) errs)
    | inr (x, e) ↦ ground (arith, open_each_lem mode bs ws (errs ++ failure x ∷ []))
  ]

  -- A `Write` on an open multi-writer returns no error exactly when the mode is content with the number of
  -- its writers that take the chunk: all of them, more than half of them, or, in best effort, one: the errors
  -- of the others are then not returned.
  pub is_ok-write :
      (p : List ℕ) (m : Writers Writer Failure)
      → m.is_closed ≡ false
      → is_ok (Multi.write T p m).1 ≡ suffices m.mode (takers p m.writers) (length m.writers)
  unfolding Multi.write
  is_ok-write p m alive = ground (
    arith,
    takers-le p m.writers,
    stopped-write_each m.mode p m.writers 0 [] 0,
    write_each_lem m.mode p m.writers 0 [] 0,
  )

  -- When a `Write` succeeds, each writer has been given the chunk, once, and nothing else of the
  -- multi-writer has changed.
  pub write_ok :
      (p : List ℕ) (m : Writers Writer Failure) {n : ℕ}
      → (Multi.write T p m).1 ≡ ok n
      → (Multi.write T p m).0 ≡ record m { writers = all_written p m.writers }
  unfolding Multi.write
  write_ok p m h = ground (arith, write_each_lem m.mode p m.writers 0 [] 0)

  -- `NewWriter` succeeds exactly when the mode is content with the number of the backends that open
  -- a writer.
  pub is_ok-new_writer :
      (fan : Fan Backend)
      → is_ok (Multi.new_writer T fan).1
        ≡ suffices fan.mode (openers fan.backends) (length fan.backends)
  unfolding Multi.new_writer
  is_ok-new_writer fan = ground (
    arith,
    openers-le fan.backends,
    stopped-open_each fan.mode fan.backends [] [],
    open_each_lem fan.mode fan.backends [] [],
  )

  -- whether some close of the writers fails
  abbrev pub any_fails : List Writer → Bool
  any_fails [] = false
  any_fails (w ∷ ws) = not (is_ok (T.close w).1) || any_fails ws

  close_each_lem :
      (ws : List Writer)
      → ((close_each T ws).0 ≡ close_silently T ws)
        × (leb (length (close_each T ws).1) 0 ≡ not (any_fails ws))
  unfolding close_each close_silently
  close_each_lem [] = (refl, refl)
  close_each_lem (w ∷ ws) = elim (Result-cases (T.close w).1) [
    | inl (u, e) ↦ ground (arith, close_each_lem ws)
    | inr (x, e) ↦ ground (arith, close_each_lem ws)
  ]

  -- `Close` closes every writer once, also behind one that fails, and succeeds exactly if all do. A
  -- second `Close` succeeds and touches no writer, and a `Write` after it fails and touches none.
  pub close_lem :
      (p : List ℕ) (m : Writers Writer Failure)
      → m.is_closed ≡ false
      → let (m', r) = Multi.close T m in
        (m'.writers ≡ close_silently T m.writers)
        × (is_ok r ≡ not (any_fails m.writers))
        × (Multi.close T m' ≡ (m', ok tt))
        × (Multi.write T p m' ≡ (m', err writer_closed))
  unfolding Multi.close Multi.write
  close_lem p m alive = ground (arith, close_each_lem m.writers)
