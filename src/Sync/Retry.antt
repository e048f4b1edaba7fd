-- ===== src/Sync/Retry.antt =====
-- object/sync/retry.go: retrying an operation. The outcome of attempt `i`, what `ctx.Err()` returns
-- after it, and whether `ctx.Done()` cuts the wait behind it short are functions of `i`. `scale` is
-- the floating-point multiplication of a delay by the multiplier, and `jittered` adds the jitter.
pub mod Attempts
use omnistorage_core.Base.{
  ℕ, zero, suc, ◌+◌, ◌-◌, ◌*◌, ◌/◌, ◌%◌, ◌≤◌, ◌<◌, ◌≡◌, refl, sym, ap, ◌∙◌, ◌≢◌, ◌↔◌, ◌⊎◌, inl, inr,
  Bool, true, false, not, ◌&&◌, ◌||◌, Option, none, some, List, [], ◌∷◌, ◌++◌, map, arith, ltb, leb,
  if◌then◌else◌, Bool-cases, Option-cases, Eq, ◌==◌, contains, ==-true, ==-refl, ==-false, list_eq,
  nat_eq, length, take, drop, replicate, filter, All, length-append, length-take, length-drop,
  length-filter-le, take-append-drop, Result, ok, err, is_ok, Result-cases, ℤ, pos, negsuc,
  pos_part, neg_part, sub_ℕ, is_positive, ltz,
}

-- `RetryConfig`, whose multiplier and jitter are in `scale` and `jittered`
pub record Config (E : Type 0) : Type 0 where
  pub max_retries : ℤ
  pub initial_delay : ℤ
  pub max_delay : ℤ
  pub retryable_errors : Option (E → Bool)

-- `DefaultRetryConfig`
abbrev pub default_config : (E : Type 0) → Config E
default_config E = record {
  max_retries = pos 3;
  initial_delay = pos 1000000000;
  max_delay = pos 30000000000;
  retryable_errors = none;
}

-- An error of the operation or of the context, or a `RetryError`.
pub data Failure (E : Type 0) : Type 0 where
  plain : E → Failure E
  retry_error : ℕ → E → Failure E

-- What a retried operation comes to: how often it was called, the waits that were begun, and the
-- result.
pub record Outcome (E : Type 0) : Type 0 where
  pub calls : ℕ
  pub waits : List ℕ
  pub result : Result (Failure E) (Unit {0})

-- An attempt ends the loop, or leaves an error behind.
pub data Step (E : Type 0) : Type 0 where
  finish : Result (Failure E) (Unit {0}) → Step E
  go_on : E → Step E

-- a duration, with the default for one that is not positive
abbrev pub or_default : ℕ → ℤ → ℕ
or_default d x = if is_positive x then pos_part x else d

module _ {E : Type 0} (config : Config E) (op cancelled interrupted : ℕ → Option E) (scale : ℕ → ℕ)
    (jittered : ℕ → ℕ → ℕ) where
  unfoldable pub is_retryable : E → Bool
  is_retryable e = elim config.retryable_errors [ none ↦ true | some f ↦ f e ]

  -- the part of the loop's body that may return
  unfoldable pub attempt : ℕ → Step E
  attempt i = elim (op i) [
    | none ↦ finish (ok tt)
    | some e ↦
        if not (is_retryable e)
        then finish (err (plain e))
        else elim (cancelled i) [ some c ↦ finish (err (plain c)) | none ↦ go_on e ]
  ]

  -- The loop at attempt `i`, with the number of attempts that may follow it.
  unfoldable pub retry_loop : ℕ → ℕ → ℕ → ℕ → ℕ → Outcome E
  retry_loop max max_delay zero i delay = elim (attempt i) [
    | finish r ↦ record { calls = i + 1; waits = []; result = r }
    | go_on e ↦ record { calls = i + 1; waits = []; result = err (retry_error (max + 1) e) }
  ]
  retry_loop max max_delay (suc left) i delay =
      let next = scale delay in
      let rest =
        retry_loop max max_delay left (i + 1) (if ltb max_delay next then max_delay else next) in
      elim (attempt i) [
        | finish r ↦ record { calls = i + 1; waits = []; result = r }
        | go_on e ↦ elim (interrupted i) [
          | some c ↦ record { calls = i + 1; waits = jittered i delay ∷ []; result = err (plain c) }
          | none ↦ record rest { waits = jittered i delay ∷ rest.waits }
        ]
      ]

  -- `retryOperation`
  unfoldable pub retry_operation : Outcome E
  retry_operation =
      let max = pos_part config.max_retries in
      if not (is_positive config.max_retries)
      then record {
        calls = 1;
        waits = [];
        result = elim (op 0) [ none ↦ ok tt | some e ↦ err (plain e) ];
      }
      else retry_loop max (or_default 30000000000 config.max_delay) max 0
          (or_default 1000000000 config.initial_delay)
