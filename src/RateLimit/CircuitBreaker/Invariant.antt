-- ===== src/RateLimit/CircuitBreaker/Invariant.antt =====
-- What holds of every breaker that its operations can produce.
use langgraph_cpp.Prelude.{
  ℕ, suc, ◌^◌, ◌≤◌, ◌<◌, ◌≡◌, refl, List, [], ◌∷◌, ok, nat_key, length, length-append, arith,
}
use langgraph_cpp.RateLimit.CircuitBreaker.{
  CircuitBreaker, CircuitBreakerPolicy, closed, opened, half_open, new_breaker, validate, open_at,
  close, enter_half_open, with_probes, with_counts, drop_expired, expire_half_open_probes,
  release_half_open_probe, acquire_probe, acquire_valid, acquire, count_success, record_success,
  record_failure, reset,
}

-- A policy that `validate` accepts, whose counters are `std::uint32_t`.
abbrev pub IsPolicy : CircuitBreakerPolicy → Type 0
IsPolicy p = (validate p ≡ ok tt) × (p.failure_threshold < 2 ^ 32) × (p.success_threshold < 2 ^ 32)

module _ (p : CircuitBreakerPolicy) where
  -- The successes a closed breaker counts are those of its last `recordSuccess`: none.
  abbrev pub IsValid : CircuitBreaker → Type 0
  IsValid b = elim b.state [
    | closed ↦
        (b.half_open_probes ≡ [])
        × (b.consecutive_failures < p.failure_threshold)
        × (b.consecutive_successes ≡ 0)
    | opened ↦
        (b.half_open_probes ≡ []) × (b.consecutive_failures ≡ 0) × (b.consecutive_successes ≡ 0)
    | half_open ↦
        (length b.half_open_probes ≤ p.half_open_max_calls)
        × (b.consecutive_failures ≡ 0)
        × (b.consecutive_successes < p.success_threshold)
  ]

  pub policy_positive :
      validate p ≡ ok tt
      → (0 < p.failure_threshold)
        × (0 < p.success_threshold)
        × (0 < p.half_open_max_calls)
        × (0 < p.open_timeout)
        × (0 < p.half_open_probe_timeout)
  unfolding validate
  policy_positive e = ground arith

  drop_expired-length : (now : ℕ) (ts : List ℕ) → length (drop_expired p now ts) ≤ length ts
  unfolding drop_expired
  drop_expired-length now [] = omega arith
  drop_expired-length now (t ∷ ts) = ground (arith, drop_expired-length now ts)

  pub acquire-IsValid :
      (now : ℕ) (b : CircuitBreaker) → IsPolicy p → IsValid b → IsValid (acquire p now b).0
  unfolding acquire acquire_valid acquire_probe expire_half_open_probes enter_half_open with_probes
      drop_expired
  acquire-IsValid now b h v = ground (
    arith,
    policy_positive h.0,
    drop_expired-length now b.half_open_probes,
    length-append (drop_expired p now b.half_open_probes) (now ∷ []),
  )

  release-length : (ts : List ℕ) → length ts ≤ suc (length ts)
  release-length ts = omega arith

  pub record_success-IsValid :
      (now : ℕ) (b : CircuitBreaker) → IsPolicy p → IsValid b → IsValid (record_success p now b)
  unfolding record_success expire_half_open_probes with_probes count_success with_counts
      release_half_open_probe close
  record_success-IsValid now b h v =
      ground (arith, policy_positive h.0, drop_expired-length now b.half_open_probes)

  pub record_failure-IsValid :
      (now : ℕ) (b : CircuitBreaker) → IsPolicy p → IsValid b → IsValid (record_failure p now b)
  unfolding record_failure expire_half_open_probes with_probes open_at with_counts
  record_failure-IsValid now b h v =
      ground (arith, policy_positive h.0, drop_expired-length now b.half_open_probes)

  -- The breakers that a sequence of operations leads to, each at what the clock reads then.
  pub data Reached : CircuitBreaker → Type 0 where
    start : Reached new_breaker
    by_acquire : {b : CircuitBreaker} (now : ℕ) → Reached b → Reached (acquire p now b).0
    by_success : {b : CircuitBreaker} (now : ℕ) → Reached b → Reached (record_success p now b)
    by_failure : {b : CircuitBreaker} (now : ℕ) → Reached b → Reached (record_failure p now b)
    by_reset : {b : CircuitBreaker} → Reached b → Reached (reset p b)

  -- Under a policy that `validate` accepts and whose thresholds fit in 32 bits, after any sequence
  -- of operations from a new breaker: a closed breaker has no probe in flight and fewer failures
  -- than the threshold, an open one has neither probes nor counts, and a half-open one has at most
  -- `half_open_max_calls` probes in flight and fewer successes than the threshold.
  pub Reached-IsValid : (b : CircuitBreaker) → IsPolicy p → Reached b → IsValid b
  unfolding reset close
  Reached-IsValid _ h start = (refl, (policy_positive h.0).0, refl)
  Reached-IsValid _ h (by_acquire {b} now r) = acquire-IsValid now b h (Reached-IsValid b h r)
  Reached-IsValid _ h (by_success {b} now r) =
      record_success-IsValid now b h (Reached-IsValid b h r)
  Reached-IsValid _ h (by_failure {b} now r) =
      record_failure-IsValid now b h (Reached-IsValid b h r)
  Reached-IsValid _ h (by_reset {b} r) = (refl, (policy_positive h.0).0, refl)
