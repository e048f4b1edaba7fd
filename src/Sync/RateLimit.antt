-- ===== src/Sync/RateLimit.antt =====
-- object/sync/ratelimit.go: the token bucket and the reader that it slows down. What `time.Now()`
-- returns is an argument. `wait` gives its lock back while it sleeps, so that the others may come in between. `accrue elapsed rate` is the floating-point
-- `int64(elapsed.Seconds() * float64(rate))`.
pub mod Budget
use omnistorage_core.Base.{
  ℕ, zero, suc, ◌+◌, ◌-◌, ◌*◌, ◌/◌, ◌%◌, ◌≤◌, ◌<◌, ◌≡◌, refl, sym, ap, ◌∙◌, ◌≢◌, ◌↔◌, ◌⊎◌, inl, inr,
  Bool, true, false, not, ◌&&◌, ◌||◌, Option, none, some, List, [], ◌∷◌, ◌++◌, map, arith, ltb, leb,
  if◌then◌else◌, Bool-cases, Option-cases, Eq, ◌==◌, contains, ==-true, ==-refl, ==-false, list_eq,
  nat_eq, length, take, drop, replicate, filter, All, length-append, length-take, length-drop,
  length-filter-le, take-append-drop, Result, ok, err, is_ok, ◌>>=◌, ◌>>◌, Result-cases, ℤ, pos,
  negsuc, pos_part, neg_part, sub_ℕ, is_positive, ltz,
}

-- `tokenBucket`
pub record Bucket : Type 0 where
  pub rate : ℕ
  pub tokens : ℕ
  pub max_tokens : ℕ
  pub last_refill : ℕ

-- `newTokenBucket`
unfoldable pub new_bucket : ℕ → ℤ → Option Bucket
new_bucket now bytes_per_second =
    if is_positive bytes_per_second
    then some (record {
      rate = pos_part bytes_per_second;
      tokens = pos_part bytes_per_second;
      max_tokens = pos_part bytes_per_second;
      last_refill = now;
    })
    else none

-- `returnTokens`
unfoldable pub return_tokens : ℕ → Bucket → Bucket
return_tokens n b =
    let sum = b.tokens + n in
    record b { tokens = if ltb b.max_tokens sum then b.max_tokens else sum }

-- the chunk size that `newRateLimitedReader` sets
abbrev pub chunk_size : ℕ
chunk_size = 65536

-- What another goroutine does to the bucket while it holds the lock: a refill, a taking of tokens
-- that are there, and a return.
pub data Other : Type 0 where
  refills takes returns : ℕ → Other

-- `waitDuration`, of the tokens that are missing
unfoldable pub wait_duration : ℕ → Bucket → ℕ
wait_duration needed b = (needed - b.tokens) * 1000000000 / b.rate

-- A round of the loop of `wait`: what the others do before it has the lock, while it waits for it and
-- sleeps, and what the clock then shows.
pub record Round : Type 0 where
  pub others : List Other
  pub now : ℕ

module _ (accrue : ℕ → ℕ → ℕ) where
  -- `refill`, at a reading of the clock
  unfoldable pub refill : ℕ → Bucket → Bucket
  refill now b =
      let sum = b.tokens + accrue (now - b.last_refill) b.rate in
      record b { tokens = if ltb b.max_tokens sum then b.max_tokens else sum; last_refill = now }

  unfoldable pub disturb_once : Other → Bucket → Bucket
  disturb_once (refills now) b = refill now b
  disturb_once (takes n) b = if ltb b.tokens n then b else record b { tokens = b.tokens - n }
  disturb_once (returns n) b = return_tokens n b

  unfoldable pub disturb : List Other → Bucket → Bucket
  disturb [] b = b
  disturb (o ∷ os) b = disturb os (disturb_once o b)

  -- The loop of `wait`, which refills in each round until there are tokens enough. `none` means
  -- that it still waits after all of the rounds.
  unfoldable pub wait_loop : List Round → ℕ → Bucket → Option (Bucket × List Round)
  wait_loop [] needed b = none
  wait_loop (r ∷ rounds) needed b =
      let b' = refill r.now (disturb r.others b) in
      let rest = wait_loop rounds needed b' in
      if ltb b'.tokens needed
      then rest
      else some (record b' { tokens = b'.tokens - needed }, rounds)

  -- `wait`
  unfoldable pub wait : List Round → ℕ → Bucket → Option (Bucket × List Round)
  wait rounds needed b = if b.rate == 0 then some (b, rounds) else wait_loop rounds needed b

  -- `Read` of the limited reader, over a buffer of `size` bytes: `source` says how many bytes the
  -- wrapped reader yields into a buffer of a given size, and `meanwhile` what the others do as it reads.
  -- The result is what it yielded, the bucket, and the rounds that are left.
  unfoldable pub read :
      (ℕ → ℕ)
      → List Other
      → List Round
      → ℕ
      → Option Bucket
      → Option (ℕ × Option Bucket × List Round)
  read source meanwhile rounds size none = some (source size, none, rounds)
  read source meanwhile rounds size (some b) =
      if b.rate == 0
      then some (source size, some (disturb meanwhile b), rounds)
      else let to_read = if ltb chunk_size size then chunk_size else size in
        elim (wait rounds to_read b) [
          | none ↦ none
          | some (b', rounds') ↦
              let n = source to_read in
              let b'' = disturb meanwhile b' in
              some
                (n, some (if ltb n to_read then return_tokens (to_read - n) b'' else b''), rounds')
        ]
