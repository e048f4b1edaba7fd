-- ===== src/Object/Multi.antt =====
-- object/multi/writer.go: writing to several backends at once. The backends and their writers are
-- an interface; an error of theirs is any value.
pub mod Outcomes
use omnistorage_core.Base.{
  ℕ, zero, suc, ◌+◌, ◌-◌, ◌*◌, ◌/◌, ◌%◌, ◌≤◌, ◌<◌, ◌≡◌, refl, sym, ap, ◌∙◌, ◌≢◌, ◌↔◌, ◌⊎◌, inl, inr,
  Bool, true, false, not, ◌&&◌, ◌||◌, Option, none, some, List, [], ◌∷◌, ◌++◌, map, arith, ltb, leb,
  if◌then◌else◌, Bool-cases, Option-cases, Eq, ◌==◌, contains, ==-true, ==-refl, ==-false, list_eq,
  nat_eq, length, take, drop, replicate, filter, All, length-append, length-take, length-drop,
  length-filter-le, take-append-drop, Result, ok, err, is_ok, ◌>>=◌, ◌>>◌, Result-cases, ℤ, pos,
  negsuc, pos_part, neg_part, sub_ℕ, is_positive, ltz,
}

-- What `omnistorage.Backend` and `io.WriteCloser` offer here: opening a writer, writing a chunk with
-- the number of bytes written, and closing.
pub record Target : Type 1 where
  pub Backend : Type 0
  pub Writer : Type 0
  pub Failure : Type 0
  pub new_writer : Backend → Result Failure Writer
  pub write : List ℕ → Writer → Writer × Result Failure ℕ
  pub close : Writer → Writer × Result Failure (Unit {0})

-- `WriteMode`
pub data Mode : Type 0 where
  write_all write_best_effort write_quorum : Mode

abbrev pub is_all : Mode → Bool
is_all write_all = true
is_all _ = false

abbrev pub is_quorum : Mode → Bool
is_quorum write_quorum = true
is_quorum _ = false

-- One error among those of a `MultiError`.
pub data Cause (F : Type 0) : Type 0 where
  failure : F → Cause F
  no_quorum : Cause F

-- The errors of the package: `multi` is `MultiError`.
pub data Error (F : Type 0) : Type 0 where
  multi : List (Cause F) → Error F
  writer_closed no_backends : Error F

-- the backends that are not nil
unfoldable pub valid_backends : {B : Type 0} → List (Option B) → List B
valid_backends [] = []
valid_backends (none ∷ bs) = valid_backends bs
valid_backends (some b ∷ bs) = b ∷ valid_backends bs

-- `Writer`
pub record Fan (B : Type 0) : Type 0 where
  pub backends : List B
  pub mode : Mode

-- `NewWriter` of the package
unfoldable pub new_fan : {B F : Type 0} → List (Option B) → Result (Error F) (Fan B)
new_fan backends = elim (valid_backends backends) [
  | [] ↦ err no_backends
  | b ∷ bs ↦ ok (record { backends = b ∷ bs; mode = write_all })
]

-- `multiWriteCloser`
pub record Writers (W F : Type 0) : Type 0 where
  pub writers : List W
  pub mode : Mode
  pub errs : List (Cause F)
  pub is_closed : Bool

module _ (T : Target) where
  open T use {Backend, Writer, Failure}

  -- `_ = wr.Close()` for each
  unfoldable pub close_silently : List Writer → List Writer
  close_silently [] = []
  close_silently (w ∷ ws) = (T.close w).0 ∷ close_silently ws

  -- The loop of the method `NewWriter`: the writers and the errors so far, and whether it stopped at
  -- an error.
  unfoldable pub open_each :
      Mode
      → List Backend
      → List Writer
      → List (Cause Failure)
      → Bool × List Writer × List (Cause Failure)
  open_each mode [] ws errs = (false, ws, errs)
  open_each mode (b ∷ bs) ws errs = elim (T.new_writer b) [
    | err e ↦
        let go_on = open_each mode bs ws (errs ++ failure e ∷ []) in
        if is_all mode then (true, ws, errs ++ failure e ∷ []) else go_on
    | ok w ↦ open_each mode bs (ws ++ w ∷ []) errs
  ]

  -- The method `NewWriter`: the writers that it closed again, and its result.
  unfoldable pub new_writer :
      Fan Backend → List Writer × Result (Error Failure) (Writers Writer Failure)
  new_writer fan =
      let (stopped, ws, errs) = open_each fan.mode fan.backends [] [] in
      if stopped
      then (close_silently ws, err (multi errs))
      else if is_quorum fan.mode && leb (length ws) (length fan.backends / 2)
      then (close_silently ws, err (multi (errs ++ no_quorum ∷ [])))
      else if leb (length ws) 0
      then ([], err (multi errs))
      else ([], ok (record { writers = ws; mode = fan.mode; errs = errs; is_closed = false }))

  -- What the loop of `Write` keeps: the writers, the number of successes, the errors, the largest
  -- number of bytes written, and whether it stopped at an error.
  pub record Round : Type 0 where
    pub written : List Writer
    pub successes : ℕ
    pub failures : List (Cause Failure)
    pub max_n : ℕ
    pub stopped : Bool

  unfoldable pub write_each : Mode → List ℕ → List Writer → ℕ → List (Cause Failure) → ℕ → Round
  write_each mode p [] successes errs max_n = record {
    written = [];
    successes = successes;
    failures = errs;
    max_n = max_n;
    stopped = false;
  }
  write_each mode p (w ∷ ws) successes errs max_n =
      let (w', r) = T.write p w in
      elim r [
        | err e ↦
            let errs' = errs ++ failure e ∷ [] in
            let rest = write_each mode p ws successes errs' max_n in
            if is_all mode
            then record {
              written = w' ∷ ws;
              successes = successes;
              failures = errs';
              max_n = max_n;
              stopped = true;
            }
            else record rest { written = w' ∷ rest.written }
        | ok n ↦
            let rest =
              write_each mode p ws (successes + 1) errs (if ltb max_n n then n else max_n) in
            record rest { written = w' ∷ rest.written }
      ]

  -- `Write`
  unfoldable pub write :
      List ℕ → Writers Writer Failure → Writers Writer Failure × Result (Error Failure) ℕ
  write p m =
      if m.is_closed
      then (m, err writer_closed)
      else let r = write_each m.mode p m.writers 0 [] 0 in
        let m' = record m { writers = r.written } in
        if r.stopped
        then (m', err (multi r.failures))
        else if is_quorum m.mode && leb r.successes (length m.writers / 2)
        then (m', err (multi (r.failures ++ no_quorum ∷ [])))
        else if leb r.successes 0
        then (m', err (multi r.failures))
        else (m', ok r.max_n)

  -- the loop of `Close`: the writers and the errors
  unfoldable pub close_each : List Writer → List Writer × List (Cause Failure)
  close_each [] = ([], [])
  close_each (w ∷ ws) =
      let (w', r) = T.close w in
      let (ws', errs) = close_each ws in
      elim r [ ok _ ↦ (w' ∷ ws', errs) | err e ↦ (w' ∷ ws', failure e ∷ errs) ]

  -- `Close`
  unfoldable pub close :
      Writers Writer Failure → Writers Writer Failure × Result (Error Failure) (Unit {0})
  close m =
      if m.is_closed
      then (m, ok tt)
      else let (ws, errs) = close_each m.writers in
        let m' = record m { is_closed = true; writers = ws } in
        if leb (length errs) 0 then (m', ok tt) else (m', err (multi errs))
