-- ===== src/Sync/Retry/Attempts.antt =====
-- How often an operation is retried (object/sync/retry.go), what comes of it, and how long it waits.
use omnistorage_core.Base.{
  ℕ, zero, suc, ◌+◌, ◌≤◌, ◌<◌, ◌≡◌, inl, inr, Bool, true, false, ◌&&◌, Option, none, some, arith,
  ltb, if◌then◌else◌, Bool-cases, Option-cases, list_eq, nat_eq, take, drop, All, ok, err, pos_part,
  is_positive,
}
use omnistorage_core.Sync.Retry.{
  Config, retry_error, Outcome, or_default, is_retryable, attempt, retry_loop, retry_operation,
}

module _ {E : Type 0} (config : Config E) (op cancelled interrupted : ℕ → Option E) (scale : ℕ → ℕ)
    (jittered : ℕ → ℕ → ℕ) where
  abbrev loop : ℕ → ℕ → ℕ → ℕ → ℕ → Outcome E
  loop = retry_loop config op cancelled interrupted scale jittered

  abbrev operation : Outcome E
  operation = retry_operation config op cancelled interrupted scale jittered

  -- whether the loop goes on behind an attempt: its error may be retried, and the context lives
  abbrev pub passes : ℕ → Bool
  passes i = elim (op i) [
    | none ↦ false
    | some e ↦
        is_retryable config op cancelled interrupted scale jittered e
        && (elim (cancelled i) [ none ↦ true | some c ↦ false ])
        && (elim (interrupted i) [ none ↦ true | some c ↦ false ])
  ]

  calls-loop :
      (max max_delay left i delay : ℕ)
      → (i + 1 ≤ (loop max max_delay left i delay).calls)
        × ((loop max max_delay left i delay).calls ≤ i + left + 1)
  unfolding retry_loop
  calls-loop max max_delay zero i delay = ground arith
  calls-loop max max_delay (suc left) i delay =
      let next = scale delay in
      ground (
        arith,
        calls-loop max max_delay left (i + 1) (if ltb max_delay next then max_delay else next),
      )

  loop_ok :
      (max max_delay left i delay n : ℕ)
      → ((j : ℕ) → i ≤ j → j < n → passes j ≡ true)
      → i ≤ n
      → n ≤ i + left
      → op n ≡ none
      → ((loop max max_delay left i delay).calls ≡ n + 1)
        × ((loop max max_delay left i delay).result ≡ ok tt)
  unfolding retry_loop attempt
  loop_ok max max_delay zero i delay n h low high good =
      let same : n ≡ i = omega arith in let now : op i ≡ none = rw same at good in ground arith
  loop_ok max max_delay (suc left) i delay n h low high good =
      let next = scale delay in
      elim (Bool-cases (ltb i n)) [
        | inl more ↦ ground (
          arith,
          h i (omega arith) (ground arith),
          loop_ok max max_delay left (i + 1) (if ltb max_delay next then max_delay else next) n
              (λ j l. h j (omega arith)) (ground arith) (omega arith) good,
        )
        | inr last ↦
            let same : n ≡ i = ground arith in
            let now : op i ≡ none = rw same at good in ground arith
      ]

  loop_exhausted :
      (max max_delay left i delay n : ℕ) {e : E}
      → ((j : ℕ) → i ≤ j → j < n → passes j ≡ true)
      → n ≡ i + left
      → op n ≡ some e
      → is_retryable config op cancelled interrupted scale jittered e ≡ true
      → cancelled n ≡ none
      → ((loop max max_delay left i delay).calls ≡ n + 1)
        × ((loop max max_delay left i delay).result ≡ err (retry_error (max + 1) e))
  unfolding retry_loop attempt
  loop_exhausted max max_delay zero i delay n h last failed again alive =
      let same : n ≡ i = omega arith in
      let f = rw same at failed in let a = rw same at alive in ground arith
  loop_exhausted max max_delay (suc left) i delay n h last failed again alive =
      let next = scale delay in
      ground (
        arith,
        h i (omega arith) (omega arith),
        loop_exhausted max max_delay left (i + 1) (if ltb max_delay next then max_delay else next) n
            (λ j l. h j (omega arith)) (omega arith) failed again alive,
      )

  loop_succeeds :
      (max max_delay left i delay : ℕ)
      → (loop max max_delay left i delay).result ≡ ok tt
      → (n : ℕ) × ((loop max max_delay left i delay).calls ≡ n + 1) × (op n ≡ none)
  unfolding retry_loop attempt
  loop_succeeds max max_delay zero i delay h = elim (Option-cases (op i)) [
    | inl good ↦ (i, ground arith, good)
    | inr (e, failed) ↦ absurd (ground arith)
  ]
  loop_succeeds max max_delay (suc left) i delay h = elim (Option-cases (op i)) [
    | inl good ↦ (i, ground arith, good)
    | inr (e, failed) ↦
        let next = scale delay in
        let (n, called, good) =
          loop_succeeds max max_delay left (i + 1) (if ltb max_delay next then max_delay else next)
            (ground arith) in
        (n, ground arith, good)
  ]

  loop_waits :
      (max max_delay left i delay : ℕ)
      → ((j d : ℕ) → jittered j d ≤ d)
      → delay ≤ max_delay
      → All (λ w. w ≤ max_delay) (loop max max_delay left i delay).waits
  unfolding retry_loop attempt
  loop_waits max max_delay zero i delay h k = ground arith
  loop_waits max max_delay (suc left) i delay h k =
      let next = scale delay in
      ground (
        arith,
        h i delay,
        loop_waits max max_delay left (i + 1) (if ltb max_delay next then max_delay else next) h
            (ground arith),
      )

  first_wait :
      (max max_delay left i delay : ℕ)
      → ((j d : ℕ) → jittered j d ≤ d)
      → All (λ w. w ≤ max_delay) (drop 1 (loop max max_delay left i delay).waits)
        × All (λ w. w ≤ delay) (take 1 (loop max max_delay left i delay).waits)
  unfolding retry_loop attempt
  first_wait max max_delay zero i delay h = ground arith
  first_wait max max_delay (suc left) i delay h =
      let next = scale delay in
      ground (
        arith,
        h i delay,
        loop_waits max max_delay left (i + 1) (if ltb max_delay next then max_delay else next) h
            (ground arith),
      )

  -- Whatever happens, the operation is called at least once, and at most once more than there are
  -- retries.
  pub calls-retry_operation :
      (1 ≤ operation.calls) × (operation.calls ≤ pos_part config.max_retries + 1)
  unfolding retry_operation
  calls-retry_operation = ground (
    arith,
    calls-loop (pos_part config.max_retries) (or_default 30000000000 config.max_delay)
        (pos_part config.max_retries) 0 (or_default 1000000000 config.initial_delay),
  )

  -- The operation that first succeeds at attempt `n`, no later than the retries allow and with no
  -- attempt before it that ends the loop, is called `n + 1` times and reported as a success.
  pub retry_succeeds :
      (n : ℕ)
      → ((j : ℕ) → j < n → passes j ≡ true)
      → n ≤ pos_part config.max_retries
      → op n ≡ none
      → (operation.calls ≡ n + 1) × (operation.result ≡ ok tt)
  unfolding retry_operation
  retry_succeeds zero h k good = ground (
    arith,
    loop_ok (pos_part config.max_retries) (or_default 30000000000 config.max_delay)
        (pos_part config.max_retries) 0 (or_default 1000000000 config.initial_delay) zero
        (λ j l. h j) (omega arith) (omega arith) good,
  )
  retry_succeeds (suc n) h k good = ground (
    arith,
    loop_ok (pos_part config.max_retries) (or_default 30000000000 config.max_delay)
        (pos_part config.max_retries) 0 (or_default 1000000000 config.initial_delay) (suc n)
        (λ j l. h j) (omega arith) (omega arith) good,
  )

  -- Where retries are configured and every attempt fails with an error that may be retried, under a
  -- context that lives, the operation is called once more than there are retries, and the error
  -- returned is a `RetryError` with that number and the last error.
  pub retry_exhausted :
      {e : E}
      → is_positive config.max_retries ≡ true
      → ((j : ℕ) → j < pos_part config.max_retries → passes j ≡ true)
      → op (pos_part config.max_retries) ≡ some e
      → is_retryable config op cancelled interrupted scale jittered e ≡ true
      → cancelled (pos_part config.max_retries) ≡ none
      → (operation.calls ≡ pos_part config.max_retries + 1)
        × (operation.result ≡ err (retry_error (pos_part config.max_retries + 1) e))
  unfolding retry_operation
  retry_exhausted {e} some_retries h failed again alive = ground (
    arith,
    loop_exhausted (pos_part config.max_retries) (or_default 30000000000 config.max_delay)
        (pos_part config.max_retries) 0 (or_default 1000000000 config.initial_delay)
        (pos_part config.max_retries) (λ j l. h j) (omega arith) failed again alive,
  )

  -- A reported success is one: the last call of the operation succeeded.
  pub succeeds-retry_operation :
      operation.result ≡ ok tt → (n : ℕ) × (operation.calls ≡ n + 1) × (op n ≡ none)
  unfolding retry_operation
  succeeds-retry_operation h = elim (Bool-cases (is_positive config.max_retries)) [
    | inl retries ↦
        let (n, called, good) =
          loop_succeeds (pos_part config.max_retries) (or_default 30000000000 config.max_delay)
            (pos_part config.max_retries) 0 (or_default 1000000000 config.initial_delay)
            (ground arith) in
        (n, ground arith, good)
    | inr once ↦ (0, ground arith, ground arith)
  ]

  -- If jitter lengthens no delay, no wait but the first is longer than the maximum delay, and the
  -- first is the initial delay at most.
  pub waits-retry_operation :
      ((j d : ℕ) → jittered j d ≤ d)
      → All (λ w. w ≤ or_default 30000000000 config.max_delay) (drop 1 operation.waits)
        × All (λ w. w ≤ or_default 1000000000 config.initial_delay) (take 1 operation.waits)
  unfolding retry_operation
  waits-retry_operation h = elim (Bool-cases (is_positive config.max_retries)) [
    | inl retries ↦ rw retries (
        first_wait (pos_part config.max_retries) (or_default 30000000000 config.max_delay)
          (pos_part config.max_retries) 0 (or_default 1000000000 config.initial_delay) h)
    | inr once ↦ rw once (tt, tt)
  ]
