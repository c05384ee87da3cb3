-- ===== src/RateLimit/TokenBucket.antt =====
-- src/foundation/rate_limit/rate_limiter.cpp. Times and durations are ticks of the clock counted
-- from its epoch; each operation takes what the clock reads, and the policy, as arguments. A
-- negative interval, which `validate` refuses like zero, is written as zero.
pub mod Refill
pub mod Throughput
use langgraph_cpp.Prelude.{
  ℕ, suc, ◌+◌, ◌-◌, ◌*◌, ◌/◌, ◌%◌, ◌^◌, leb, ltb, Bool, true, false, Result, ok, err, fail, fail_if,
  invalid_argument, resource_exhausted, ◌>>=◌, ◌>>◌, ◌==◌, nat_key, if◌then◌else◌, ◌||◌,
}

pub record RateLimitPolicy : Type 0 where
  pub capacity : ℕ
  pub refill : ℕ
  pub interval : ℕ

-- The greatest `std::uint64_t`, and `Clock::Duration::max()`, an `std::int64_t` of ticks.
abbrev pub max_count : ℕ
max_count = 2 ^ 64 - 1

abbrev pub max_duration : ℕ
max_duration = 2 ^ 63 - 1

-- `RateLimitPolicy::perSecond`; `second` is a second in ticks.
pub per_second : ℕ → ℕ → ℕ → RateLimitPolicy
per_second second rate burst = record {
  capacity = if burst == 0 then rate else burst;
  refill = rate;
  interval = second;
}

unfoldable pub validate : RateLimitPolicy → Result (Unit {0})
validate p = do
  fail_if (p.capacity == 0) invalid_argument "rate limit capacity must be greater than 0"
  fail_if (p.refill == 0) invalid_argument "rate limit refill must be greater than 0"
  fail_if (p.interval == 0) invalid_argument "rate limit interval must be positive"

pub record TokenBucket : Type 0 where
  pub tokens : ℕ
  pub updated_at : ℕ

pub record RateLimitResult : Type 0 where
  pub allowed : Bool
  pub retry_after : ℕ
  pub remaining : ℕ
  pub status : Result (Unit {0})

-- `(tokens + refill - 1) / refill` on `std::uint64_t`.
pub intervals_for_tokens : ℕ → ℕ → ℕ
intervals_for_tokens tokens refill =
    if tokens == 0 || refill == 0 then 0 else ((tokens + refill - 1) % 2 ^ 64) / refill

module _ (p : RateLimitPolicy) where
  -- The tokens that `elapsed` intervals bring, cut off at the greatest count.
  pub tokens_to_add : ℕ → ℕ
  tokens_to_add elapsed =
      if ltb (max_count / p.refill) elapsed then max_count else elapsed * p.refill

  pub refill_by : ℕ → TokenBucket → TokenBucket
  unfolding tokens_to_add
  refill_by elapsed b =
      let add = tokens_to_add elapsed in
      record {
        tokens =
            if leb p.capacity add || ltb (p.capacity - add) b.tokens
            then p.capacity
            else b.tokens + add;
        updated_at = b.updated_at + p.interval * elapsed;
      }

  pub refill_bucket : ℕ → TokenBucket → TokenBucket
  unfolding refill_by
  refill_bucket now b =
      if leb now b.updated_at
      then b
      else (let elapsed = (now - b.updated_at) / p.interval in
          if elapsed == 0 then b else refill_by elapsed b)

  pub retry_wait : ℕ → ℕ → TokenBucket → ℕ
  unfolding intervals_for_tokens
  retry_wait permits now b =
      let intervals = intervals_for_tokens (permits - b.tokens) p.refill in
      if leb permits b.tokens
      then 0
      else if ltb (max_duration / p.interval) intervals
      then max_duration
      else (b.updated_at + p.interval * intervals) - now

  abbrev pub denied : TokenBucket → ℕ → Result (Unit {0}) → RateLimitResult
  denied b wait status = record {
    allowed = false;
    retry_after = wait;
    remaining = b.tokens;
    status = status;
  }

  abbrev pub granted : TokenBucket → RateLimitResult
  granted b = record { allowed = true; retry_after = 0; remaining = b.tokens; status = ok tt }

  abbrev pub spend : ℕ → TokenBucket → TokenBucket
  spend permits b = record { tokens = b.tokens - permits; updated_at = b.updated_at }

  -- What `acquire` does once the request is known to be one that can be met.
  pub take_tokens : ℕ → ℕ → TokenBucket → TokenBucket × RateLimitResult
  unfolding retry_wait
  take_tokens permits now b =
      if leb permits b.tokens
      then (spend permits b, granted (spend permits b))
      else (b, denied b (retry_wait permits now b) (fail resource_exhausted "rate limit exceeded"))

  unfoldable pub acquire : ℕ → ℕ → TokenBucket → TokenBucket × RateLimitResult
  unfolding validate take_tokens refill_bucket
  acquire permits now b = elim (validate p) [
    | err e ↦ (b, denied b 0 (err e))
    | ok _ ↦
        if permits == 0
        then (b, granted b)
        else if ltb p.capacity permits
        then (
          b,
          denied b max_duration
              (fail resource_exhausted "requested permits exceed rate limit capacity"),
        )
        else take_tokens permits now (refill_bucket now b)
  ]

  pub reset : ℕ → TokenBucket → TokenBucket
  reset now b = record { tokens = p.capacity; updated_at = now }
