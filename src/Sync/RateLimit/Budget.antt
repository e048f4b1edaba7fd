-- ===== src/Sync/RateLimit/Budget.antt =====
-- How many bytes the rate limiter (object/sync/ratelimit.go) lets through, and when it waits.
use omnistorage_core.Base.{
  ℕ, ◌+◌, ◌-◌, ◌*◌, ◌≤◌, ◌<◌, ◌≡◌, refl, ap, ◌≢◌, ◌∙◌, inl, inr, Option, none, some, List, [], ◌∷◌,
  arith, ltb, Bool-cases, list_eq, nat_eq,
}
use omnistorage_core.Sync.RateLimit.{
  Bucket, Other, refills, takes, returns, Round, refill, return_tokens, disturb_once, disturb,
  wait_loop, wait,
}

module _ (accrue : ℕ → ℕ → ℕ) where
  refill-le-max : (now : ℕ) (b : Bucket) → (refill accrue now b).tokens ≤ b.max_tokens
  unfolding refill
  refill-le-max now b = ground arith

  refill_fields :
      (now : ℕ) (b : Bucket)
      → ((refill accrue now b).max_tokens ≡ b.max_tokens)
        × ((refill accrue now b).rate ≡ b.rate)
        × ((refill accrue now b).last_refill ≡ now)
        × ((refill accrue now b).tokens ≤ b.tokens + accrue (now - b.last_refill) b.rate)
  unfolding refill
  refill_fields now b = ground arith

  -- the tokens that the readings and the returns of the others bring, and the last reading
  abbrev pub income_once : ℕ → ℕ → Other → ℕ
  income_once rate last (refills now) = accrue (now - last) rate
  income_once rate last (takes n) = 0
  income_once rate last (returns n) = n

  abbrev pub reading : ℕ → Other → ℕ
  reading last (refills now) = now
  reading last (takes n) = last
  reading last (returns n) = last

  abbrev pub last_reading : ℕ → List Other → ℕ
  last_reading last [] = last
  last_reading last (o ∷ os) = last_reading (reading last o) os

  abbrev pub income_others : ℕ → ℕ → List Other → ℕ
  income_others rate last [] = 0
  income_others rate last (o ∷ os) =
      income_once rate last o + income_others rate (reading last o) os

  -- the tokens that the rounds bring, the cap left aside
  abbrev pub income : ℕ → ℕ → List Round → ℕ
  income rate last [] = 0
  income rate last (r ∷ rounds) =
      income_others rate last r.others
      + accrue (r.now - last_reading last r.others) rate
      + income rate r.now rounds

  disturb_once_fields :
      (o : Other) (b : Bucket)
      → ((disturb_once accrue o b).max_tokens ≡ b.max_tokens)
        × ((disturb_once accrue o b).rate ≡ b.rate)
        × ((disturb_once accrue o b).last_refill ≡ reading b.last_refill o)
        × ((disturb_once accrue o b).tokens ≤ b.tokens + income_once b.rate b.last_refill o)
  unfolding disturb_once return_tokens
  disturb_once_fields (refills now) b = refill_fields now b
  disturb_once_fields (takes n) b = ground arith
  disturb_once_fields (returns n) b = ground arith

  disturb_fields :
      (os : List Other) (b : Bucket)
      → ((disturb accrue os b).max_tokens ≡ b.max_tokens)
        × ((disturb accrue os b).rate ≡ b.rate)
        × ((disturb accrue os b).last_refill ≡ last_reading b.last_refill os)
        × ((disturb accrue os b).tokens ≤ b.tokens + income_others b.rate b.last_refill os)
  unfolding disturb disturb_once
  disturb_fields [] b = (refl, refl, refl, omega arith)
  disturb_fields (o ∷ os) b =
      let (max, rate, last, paid) = disturb_once_fields o b in
      let (max', rate', last', paid') = disturb_fields os (disturb_once accrue o b) in
      let paid'' : (disturb accrue os (disturb_once accrue o b)).tokens
          ≤ (disturb_once accrue o b).tokens + income_others b.rate (reading b.last_refill o) os =
        rw (rate, last) at paid' in
      (max' ∙ max, rate' ∙ rate, last' ∙ ap (λ l. last_reading l os) last, omega arith)

  -- the bucket as a round finds it once it has refilled it
  abbrev pub begin : Round → Bucket → Bucket
  begin r b = refill accrue r.now (disturb accrue r.others b)

  begin_fields :
      (r : Round) (b : Bucket)
      → ((begin r b).max_tokens ≡ b.max_tokens)
        × ((begin r b).rate ≡ b.rate)
        × ((begin r b).last_refill ≡ r.now)
        × ((begin r b).tokens
            ≤ b.tokens
              + income_others b.rate b.last_refill r.others
              + accrue (r.now - last_reading b.last_refill r.others) b.rate)
        × ((begin r b).tokens ≤ b.max_tokens)
  unfolding disturb
  begin_fields r b =
      let (max, rate, last, paid) = disturb_fields r.others b in
      let (max', rate', last', paid') = refill_fields r.now (disturb accrue r.others b) in
      let paid'' : (begin r b).tokens
          ≤ (disturb accrue r.others b).tokens
            + accrue (r.now - last_reading b.last_refill r.others) b.rate =
        rw (rate, last) at paid' in
      let cap = refill-le-max r.now (disturb accrue r.others b) in
      (max' ∙ max, rate' ∙ rate, last', omega arith, rw max at cap)

  starve :
      (rounds : List Round) (needed : ℕ) (b : Bucket)
      → b.max_tokens < needed
      → wait_loop accrue rounds needed b ≡ none
  unfolding wait_loop
  starve [] needed b h = refl
  starve (r ∷ rounds) needed b h =
      let (max, rate, last, paid, cap) = begin_fields r b in
      ground (arith, cap, starve rounds needed (begin r b) (omega arith))

  -- A request for more tokens than a bucket with a limit can hold is never granted: however often the clock is
  -- read, whatever it shows, and whatever the other readers do, `wait` goes on waiting.
  pub wait_starves :
      (rounds : List Round) (needed : ℕ) (b : Bucket)
      → b.rate ≢ 0
      → b.max_tokens < needed
      → wait accrue rounds needed b ≡ none
  unfolding wait
  wait_starves rounds needed b limited over = ground (arith, starve rounds needed b over)

  never :
      {b' : Bucket} {left : List Round}
      → ◌≡◌ {A = Option (Bucket × List Round)} none (some (b', left))
      → ⊥
  never h = cc

  -- the bucket as a waiter leaves it that has got nothing in these rounds
  abbrev pub bucket_after : List Round → Bucket → Bucket
  bucket_after [] b = b
  bucket_after (r ∷ rounds) b = bucket_after rounds (begin r b)

  -- whether the clock's accrual is exact enough
  abbrev pub IsAccurate : Type 0
  IsAccurate = (elapsed d rate : ℕ) → d * 1000000000 < elapsed * rate → d ≤ accrue elapsed rate

  granted :
      (c : Bucket) (rounds : List Round) (needed : ℕ) {b' : Bucket} {left : List Round}
      → ◌≡◌ {A = Option (Bucket × List Round)}
          (some (record c { tokens = c.tokens - needed }, rounds))
          (some (b', left))
      → (b' ≡ record c { tokens = c.tokens - needed }) × (left ≡ rounds)
  granted c rounds needed h = (cc, cc)

  -- What is granted is paid for: the tokens that a granted request takes and the tokens that are left
  -- come from those that were there, the income of the rounds that were used, and what the other readers
  -- returned in them, and the bucket never holds more than its maximum.
  pub wait_budget :
      (rounds : List Round) (needed : ℕ) (b : Bucket) {b' : Bucket} {left : List Round}
      → wait_loop accrue rounds needed b ≡ some (b', left)
      → (needed + b'.tokens + income b.rate b'.last_refill left
          ≤ b.tokens + income b.rate b.last_refill rounds)
        × (b'.tokens + needed ≤ b.max_tokens)
        × (b'.max_tokens ≡ b.max_tokens)
        × (b'.rate ≡ b.rate)
  unfolding wait_loop
  wait_budget [] needed b h = absurd (never h)
  wait_budget (r ∷ rounds) needed b {b'} {left} h =
      let c = begin r b in
      let (max, rate, last, paid, cap) = begin_fields r b in
      elim (Bool-cases (ltb c.tokens needed)) [
        | inl short ↦
            let (paid', cap', max', rate') =
              wait_budget rounds needed c {b' = b'} {left = left} (ground arith) in
            let paid'' : needed + b'.tokens + income b.rate b'.last_refill left
                ≤ c.tokens + income b.rate r.now rounds =
              rw (rate, last) at paid' in
            (omega arith, rw max at cap', max' ∙ max, rate' ∙ rate)
        | inr full ↦
            let (same, rest) = granted c rounds needed {b' = b'} {left = left} (ground arith) in
            let enough : needed ≤ c.tokens = ground arith in
            rw (same, rest, last) (omega arith, omega arith, max, rate)
      ]
