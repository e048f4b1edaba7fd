-- ===== src/Tests/Limits.antt =====
-- Runs of the rate limiter (object/sync/ratelimit.go), and instances of its theorems.
use omnistorage_core.Base.{
  ℕ, ◌+◌, ◌*◌, ◌/◌, ◌≤◌, ◌≡◌, refl, ◌≢◌, none, some, List, [], ◌∷◌, arith, list_eq, nat_eq,
}
use omnistorage_core.Sync.RateLimit
use omnistorage_core.Sync.RateLimit.{
  Bucket, new_bucket, return_tokens, wait_loop, wait, read, Round, refills, takes, returns,
}
use omnistorage_core.Sync.RateLimit.Budget.{income, wait_starves, wait_budget}

program : Unit {0}
unfolding RateLimit.new_bucket RateLimit.return_tokens RateLimit.refill RateLimit.wait_loop
    RateLimit.wait RateLimit.read RateLimit.disturb RateLimit.disturb_once RateLimit.wait_duration
    nat_eq
program = tt

-- a token for each unit of the rate and of the time
abbrev linear : ℕ → ℕ → ℕ
linear elapsed rate = elapsed * rate

abbrev spent : Bucket
spent = record { rate = 2; tokens = 1; max_tokens = 8; last_refill = 10 }

abbrev alone : ℕ → Round
alone now = record { others = []; now = now }

abbrev quiet : List Round
quiet = alone 11 ∷ alone 12 ∷ alone 13 ∷ alone 14 ∷ alone 15 ∷ []

granted :
    wait_loop linear quiet 6 spent
    ≡ some (record spent { tokens = 1; last_refill = 13 }, alone 14 ∷ alone 15 ∷ [])
unfolding program
granted = refl

-- Another reader takes tokens and gives one back while this one sleeps.
abbrev busy : List Round
busy =
    alone 11
    ∷ record { others = refills 12 ∷ takes 4 ∷ returns 1 ∷ []; now = 13 }
    ∷ alone 14
    ∷ alone 15
    ∷ []

granted_late :
    wait_loop linear busy 6 spent
    ≡ some (record spent { tokens = 0; last_refill = 14 }, alone 15 ∷ [])
unfolding program
granted_late = refl

short_read :
    read linear (λ size. 2) (takes 1 ∷ []) quiet 6 (some spent)
    ≡ some (2, some (record spent { tokens = 4; last_refill = 13 }), alone 14 ∷ alone 15 ∷ [])
unfolding program
short_read = refl

limited : spent.rate ≢ 0
limited h = cc

wait_starves_example : wait linear busy 9 spent ≡ none
wait_starves_example = wait_starves linear busy 9 spent limited (omega arith)

-- a token for each unit of the rate and of a second
abbrev seconds : ℕ → ℕ → ℕ
seconds elapsed rate = elapsed * rate / 1000000000

wait_budget_example :
    (6 + 0 + income linear 2 14 (alone 15 ∷ []) ≤ 1 + income linear 2 10 busy)
    × (0 + 6 ≤ 8)
    × (◌≡◌ {A = ℕ} 8 8)
    × (◌≡◌ {A = ℕ} 2 2)
wait_budget_example = wait_budget linear busy 6 spent granted_late
