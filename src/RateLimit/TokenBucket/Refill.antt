-- ===== src/RateLimit/TokenBucket/Refill.antt =====
-- The bucket's level, and the wait that a refused request is told.
use langgraph_cpp.Prelude.{
  ℕ, ◌+◌, ◌-◌, ◌*◌, ◌/◌, ◌^◌, ◌≤◌, ◌<◌, min, ◌↔◌, ◌≡◌, ◌∙◌, ap, true, false, ok, if◌then◌else◌,
  arith,
}
use langgraph_cpp.RateLimit.TokenBucket.{
  RateLimitPolicy, TokenBucket, validate, intervals_for_tokens, tokens_to_add, refill_by,
  refill_bucket, retry_wait, take_tokens, acquire, max_count, max_duration,
}
use native.Mathlib.Nat.{le-div_iff_mul-le, div-lt_iff_lt-mul, lt-div-mul-add, mul-le-mul_right}

module _ (p : RateLimitPolicy) where
  pub policy_positive : validate p ≡ ok tt → (0 < p.capacity) × (0 < p.refill) × (0 < p.interval)
  unfolding validate
  policy_positive e = ground arith

  -- Under a valid policy whose capacity is below 2^64, a bucket that holds no more than its
  -- capacity is refilled as unbounded numbers would have it: its level rises by `refill` for each
  -- interval that has passed, up to the capacity, and its moment moves on by those intervals.
  pub refill_by_lem :
      (elapsed : ℕ) (b : TokenBucket)
      → validate p ≡ ok tt
      → p.capacity < 2 ^ 64
      → b.tokens ≤ p.capacity
      → refill_by p elapsed b ≡ record {
        tokens = min p.capacity (b.tokens + elapsed * p.refill);
        updated_at = b.updated_at + p.interval * elapsed;
      }
  unfolding refill_by tokens_to_add
  refill_by_lem elapsed b h c v =
      ground (
        arith,
        div-lt_iff_lt-mul {k = p.refill} {x = max_count} {y = elapsed} (policy_positive h).1,
      )

  abbrev pub IsValid : TokenBucket → Type 0
  IsValid b = b.tokens ≤ p.capacity

  pub refill_bucket-IsValid :
      (now : ℕ) (b : TokenBucket)
      → validate p ≡ ok tt
      → p.capacity < 2 ^ 64
      → IsValid b
      → IsValid (refill_bucket p now b)
  unfolding refill_bucket
  refill_bucket-IsValid now b h c v =
      ground (arith, refill_by_lem ((now - b.updated_at) / p.interval) b h c v)

  -- A request that can be met at all is served from the refilled bucket.
  pub acquire_served :
      (permits now : ℕ) (b : TokenBucket)
      → validate p ≡ ok tt
      → 0 < permits
      → permits ≤ p.capacity
      → acquire p permits now b ≡ take_tokens p permits now (refill_bucket p now b)
  unfolding acquire
  acquire_served permits now b h pos fits = ground arith

  take_tokens_level :
      (permits now : ℕ) (b : TokenBucket)
      → IsValid b
      → IsValid (take_tokens p permits now b).0
        × ((take_tokens p permits now b).1.remaining ≡ (take_tokens p permits now b).0.tokens)
        × ((take_tokens p permits now b).0.tokens
              + (if (take_tokens p permits now b).1.allowed then permits else 0)
            ≡ b.tokens)
        × (((take_tokens p permits now b).1.allowed ≡ true) ↔ (permits ≤ b.tokens))
  unfolding take_tokens
  take_tokens_level permits now b v = ground arith

  -- Under a valid policy, for a request of between one permit and the capacity: `acquire` never
  -- leaves more tokens in the bucket than its capacity and reports how many are left; when it
  -- allows the request it takes exactly the permits from the refilled bucket, and when it refuses
  -- it takes nothing; and it allows the request exactly when the refilled bucket has the permits.
  pub acquire_level :
      (permits now : ℕ) (b : TokenBucket)
      → validate p ≡ ok tt
      → p.capacity < 2 ^ 64
      → IsValid b
      → 0 < permits
      → permits ≤ p.capacity
      → IsValid (acquire p permits now b).0
        × ((acquire p permits now b).1.remaining ≡ (acquire p permits now b).0.tokens)
        × ((acquire p permits now b).0.tokens
              + (if (acquire p permits now b).1.allowed then permits else 0)
            ≡ (refill_bucket p now b).tokens)
        × (((acquire p permits now b).1.allowed ≡ true)
            ↔ (permits ≤ (refill_bucket p now b).tokens))
  acquire_level permits now b h c v pos fits =
      rw (acquire_served permits now b h pos fits)
        (take_tokens_level permits now (refill_bucket p now b) (refill_bucket-IsValid now b h c v))

  -- The intervals that are needed for `n` tokens bring at least `n`, when adding does not wrap.
  intervals_enough :
      (n : ℕ)
      → 0 < p.refill
      → n + p.refill < 2 ^ 64
      → n ≤ intervals_for_tokens n p.refill * p.refill
  unfolding intervals_for_tokens
  intervals_enough n pos fits =
      let near = lt-div-mul-add {a = n + p.refill - 1} {b = p.refill} pos in ground arith

  -- A bucket that is refilled `k` intervals later, or more, has the tokens that these bring.
  refill_enough :
      (k t permits : ℕ) (b : TokenBucket)
      → validate p ≡ ok tt
      → p.capacity < 2 ^ 64
      → IsValid b
      → permits ≤ p.capacity
      → permits ≤ b.tokens + k * p.refill
      → b.updated_at + p.interval * k ≤ t
      → permits ≤ (refill_bucket p t b).tokens
  unfolding refill_bucket
  refill_enough k t permits b h c v fits enough later =
      let e = (t - b.updated_at) / p.interval in
      let passed : k ≤ e =
        (le-div_iff_mul-le {k = p.interval} {x = k} {y = t - b.updated_at} (policy_positive h).2).1
          (omega (arith, later)) in
      let more : k * p.refill ≤ e * p.refill = mul-le-mul_right p.refill passed in
      ground (arith, refill_by_lem e b h c v)

  -- What a refused request is told, when the wait is not cut off.
  retry_wait_lem :
      (permits now : ℕ) (b : TokenBucket)
      → b.tokens < permits
      → retry_wait p permits now b < max_duration
      → b.updated_at + p.interval * intervals_for_tokens (permits - b.tokens) p.refill
        ≤ now + retry_wait p permits now b
  unfolding retry_wait
  retry_wait_lem permits now b low short = ground arith

  take_tokens_refused :
      (permits now : ℕ) (b : TokenBucket)
      → (take_tokens p permits now b).1.allowed ≡ false
      → ((take_tokens p permits now b).0 ≡ b)
        × ((take_tokens p permits now b).1.retry_after ≡ retry_wait p permits now b)
        × (b.tokens < permits)
  unfolding take_tokens
  take_tokens_refused permits now b refused = ground arith

  -- Under a valid policy whose capacity and refill together stay below 2^64, for a request of
  -- between one permit and the capacity: when `acquire` refuses it with a wait that is not the
  -- greatest duration, the same request made when the wait is over is allowed.
  pub acquire_retry :
      (permits now : ℕ) (b : TokenBucket)
      → validate p ≡ ok tt
      → p.capacity + p.refill < 2 ^ 64
      → IsValid b
      → 0 < permits
      → permits ≤ p.capacity
      → (acquire p permits now b).1.allowed ≡ false
      → (acquire p permits now b).1.retry_after < max_duration
      → (acquire p permits
          (now + (acquire p permits now b).1.retry_after)
          (acquire p permits now b).0).1.allowed
        ≡ true
  acquire_retry permits now b h c v pos fits refused short =
      let small : p.capacity < 2 ^ 64 = omega (arith, c) in
      let now_served = acquire_served permits now b h pos fits in
      let r = refill_bucket p now b in
      let rv : IsValid r = refill_bucket-IsValid now b h small v in
      let (kept, wait, low) = take_tokens_refused permits now r (rw now_served at refused) in
      let same : (acquire p permits now b).0 ≡ r = ap (λ x. x.0) now_served ∙ kept in
      let told : (acquire p permits now b).1.retry_after ≡ retry_wait p permits now r =
        ap (λ x. x.1.retry_after) now_served ∙ wait in
      let t = now + retry_wait p permits now r in
      let k = intervals_for_tokens (permits - r.tokens) p.refill in
      let enough : permits - r.tokens ≤ k * p.refill =
        intervals_enough (permits - r.tokens) (policy_positive h).1 (omega (arith, c, fits)) in
      let later = retry_wait_lem permits now r low (rw told at short) in
      let level = refill_enough k t permits r h small rv fits (omega (arith, enough)) later in
      rw (same, told, acquire_served permits t r h pos fits)
        ((take_tokens_level permits t (refill_bucket p t r)
            (refill_bucket-IsValid t r h small rv)).3.1
          level)
