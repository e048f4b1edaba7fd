-- ===== src/Tests/Retries.antt =====
-- Runs of a retried operation (object/sync/retry.go), and instances of the theorems.
use omnistorage_core.Base.{
  ℕ, ◌+◌, ◌*◌, ◌≤◌, ◌<◌, ◌≡◌, refl, true, Option, none, some, [], ◌∷◌, arith, ltb, if◌then◌else◌,
  list_eq, nat_eq, ok, err, pos,
}
use omnistorage_core.Sync.Retry
use omnistorage_core.Sync.Retry.{
  Config, default_config, Failure, plain, retry_error, Outcome, or_default, is_retryable,
  retry_operation,
}
use omnistorage_core.Sync.Retry.Attempts.{passes, retry_exhausted}

program : Unit {0}
unfolding Retry.is_retryable Retry.attempt Retry.retry_loop Retry.retry_operation nat_eq
program = tt

-- the errors 0 and 1, then a success
abbrev twice : ℕ → Option ℕ
twice i = if ltb i 2 then some i else none

abbrev ever : ℕ → Option ℕ
ever i = some 7

abbrev never : ℕ → Option ℕ
never i = none

abbrev double : ℕ → ℕ
double d = d * 2

abbrev steady : ℕ → ℕ → ℕ
steady i d = d

abbrev third_time : Outcome ℕ
third_time = retry_operation (default_config ℕ) twice never never double steady

abbrev given_up : Outcome ℕ
given_up = retry_operation (default_config ℕ) ever never never double steady

-- The first wait is not cut down to the maximum delay.
uncapped :
    (retry_operation
      (record (default_config ℕ) { initial_delay = pos 90; max_delay = pos 20 })
      ever
      never
      never
      double
      steady).waits
    ≡ 90 ∷ 20 ∷ 20 ∷ []
unfolding program
uncapped = refl

always_goes_on : (j : ℕ) → j < 3 → passes (default_config ℕ) ever never never double steady j ≡ true
unfolding program
always_goes_on j h = refl

seven_again : is_retryable (default_config ℕ) ever never never double steady 7 ≡ true
unfolding program
seven_again = refl

retry_exhausted_example : (given_up.calls ≡ 3 + 1) × (given_up.result ≡ err (retry_error (3 + 1) 7))
retry_exhausted_example =
    retry_exhausted (default_config ℕ) ever never never double steady refl always_goes_on refl
      seven_again refl

succeeded : third_time.result ≡ ok tt
unfolding program
succeeded = refl

no_longer : (j d : ℕ) → steady j d ≤ d
no_longer j d = omega arith
