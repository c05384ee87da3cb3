-- ===== src/RateLimit/TokenBucket/Throughput.antt =====
-- How much a bucket grants over a sequence of requests.
use langgraph_cpp.Prelude.{
  ℕ, suc, ◌+◌, ◌-◌, ◌*◌, ◌/◌, ◌^◌, ◌≤◌, ◌<◌, ◌≡◌, refl, List, [], ◌∷◌, ok, if◌then◌else◌, arith,
  All, ◌⊎◌, inl, inr, ◌∙◌, ap, sym, subst,
}
use langgraph_cpp.RateLimit.TokenBucket.{
  RateLimitPolicy, TokenBucket, validate, refill_by, refill_bucket, take_tokens, acquire,
}
use langgraph_cpp.RateLimit.TokenBucket.Refill.{
  policy_positive, refill_by_lem, acquire_served, acquire_level, IsValid,
}
use native.Mathlib.Nat.{div-lt_iff_lt-mul, mul_comm, mul-add, add-mul, mul-zero}

module _ (p : RateLimitPolicy) where
  -- The permits that a sequence of requests, each with its moment, is granted.
  unfoldable pub granted_total : List (ℕ × ℕ) → TokenBucket → ℕ
  unfolding acquire
  granted_total [] b = 0
  granted_total ((permits, now) ∷ rest) b =
      let (c, r) = acquire p permits now b in
      (if r.allowed then permits else 0) + granted_total rest c

  refill_bucket-cases :
      (now : ℕ) (b : TokenBucket)
      → (refill_bucket p now b ≡ b)
        ⊎ ((b.updated_at < now)
            × (refill_bucket p now b ≡ refill_by p ((now - b.updated_at) / p.interval) b))
  unfolding refill_bucket
  refill_bucket-cases now b = ground arith

  -- Nothing is taken, or the refilled bucket is drawn on.
  acquire_cases :
      (permits now : ℕ) (b : TokenBucket)
      → validate p ≡ ok tt
      → ((acquire p permits now b).0 ≡ b)
          × ((if (acquire p permits now b).1.allowed then permits else 0) ≡ 0)
        ⊎ (0 < permits) × (permits ≤ p.capacity)
  unfolding acquire
  acquire_cases permits now b h = ground arith

  -- `e` of the `k` intervals that are left have passed, and brought their tokens.
  abbrev Passed : ℕ → TokenBucket → TokenBucket → ℕ → ℕ → Type 0
  Passed k b c taken e =
      (e ≤ k)
      × (c.updated_at ≡ b.updated_at + p.interval * e)
      × (c.tokens + taken ≤ b.tokens + e * p.refill)

  no_time : (k : ℕ) (b : TokenBucket) → Passed k b b 0 0
  no_time k b = (omega arith, ground (arith, mul-zero p.interval), ground arith)

  refill_bucket-Passed :
      (k now : ℕ) (b : TokenBucket)
      → validate p ≡ ok tt
      → p.capacity < 2 ^ 64
      → IsValid p b
      → now < b.updated_at + p.interval * suc k
      → (e : ℕ) × Passed k b (refill_bucket p now b) 0 e
  refill_bucket-Passed k now b h c v soon = elim (refill_bucket-cases now b) [
    | inl same ↦ rw same (0, no_time k b)
    | inr later ↦
        let e = (now - b.updated_at) / p.interval in
        let few : e < suc k =
          (div-lt_iff_lt-mul {k = p.interval} {x = now - b.updated_at} {y = suc k}
              (policy_positive p h).2).1
            (ground (arith, mul_comm p.interval (suc k), later.0)) in
        rw (later.1, refill_by_lem p e b h c v) (e, (omega (arith, few), refl, ground arith))
  ]

  take_moment :
      (permits now : ℕ) (b : TokenBucket)
      → validate p ≡ ok tt
      → 0 < permits
      → permits ≤ p.capacity
      → (acquire p permits now b).0.updated_at ≡ (refill_bucket p now b).updated_at
  unfolding take_tokens
  take_moment permits now b h pos fits =
      rw (acquire_served p permits now b h pos fits) (ground arith)

  acquire-Passed :
      (k permits now : ℕ) (b : TokenBucket)
      → validate p ≡ ok tt
      → p.capacity < 2 ^ 64
      → IsValid p b
      → now < b.updated_at + p.interval * suc k
      → IsValid p (acquire p permits now b).0
        × ((e : ℕ) × Passed k b
              (acquire p permits now b).0
              (if (acquire p permits now b).1.allowed then permits else 0)
              e)
  acquire-Passed k permits now b h c v soon = elim (acquire_cases permits now b h) [
    | inl idle ↦ rw (idle.0, idle.1) (v, (0, no_time k b))
    | inr used ↦
        let r = refill_bucket-Passed k now b h c v soon in
        let l = acquire_level p permits now b h c v used.0 used.1 in
        let moved : (acquire p permits now b).0.updated_at ≡ (refill_bucket p now b).updated_at =
          take_moment permits now b h used.0 used.1 in
        (l.0, (r.0, (r.1.0, moved ∙ r.1.1, ground (arith, r.1.2, l.2))))
  ]

  -- The moment at which `k + 1` intervals are over is the same from `e` intervals on.
  moment_after :
      (b c : TokenBucket) (e n k : ℕ)
      → c.updated_at ≡ b.updated_at + p.interval * e
      → e + n ≡ k
      → b.updated_at + p.interval * suc k ≡ c.updated_at + p.interval * suc n
  moment_after b c e n k m s =
      let whole : p.interval * suc k ≡ p.interval * e + p.interval * suc n =
        ap (λ x. p.interval * x) (omega (arith, s)) ∙ mul-add p.interval e (suc n) in
      omega (arith, m, whole)

  -- Over any sequence of requests that all come before `k + 1` intervals have passed, a bucket
  -- under a valid policy grants at most the permits it held and what `k` intervals bring.
  pub granted_total_bound :
      (reqs : List (ℕ × ℕ)) (k : ℕ) (b : TokenBucket)
      → validate p ≡ ok tt
      → p.capacity < 2 ^ 64
      → IsValid p b
      → All (λ r. r.1 < b.updated_at + p.interval * suc k) reqs
      → granted_total reqs b ≤ b.tokens + k * p.refill
  unfolding granted_total
  granted_total_bound [] k b h c v soon = omega arith
  granted_total_bound ((permits, now) ∷ reqs) k b h c v soon =
      let (valid, (e, (few, moment, level))) = acquire-Passed k permits now b h c v soon.0 in
      let after = (acquire p permits now b).0 in
      let split : e + (k - e) ≡ k = omega (arith, few) in
      let time : b.updated_at + p.interval * suc k ≡ after.updated_at + p.interval * suc (k - e) =
        moment_after b after e (k - e) k moment split in
      let brought : e * p.refill + (k - e) * p.refill ≡ k * p.refill =
        sym (add-mul e (k - e) p.refill) ∙ ap (λ n. n * p.refill) split in
      let rest =
        granted_total_bound reqs (k - e) after h c valid
          (subst (λ t. All (λ r. r.1 < t) reqs) time soon.1) in
      omega (arith, level, brought, rest)
