-- ===== src/RateLimit/CircuitBreaker/Timing.antt =====
-- When a breaker opens, and how long it stays open.
use langgraph_cpp.Prelude.{ℕ, zero, suc, ◌+◌, ◌<◌, ◌≡◌, ap, ◌∙◌, true, false, arith}
use langgraph_cpp.RateLimit.CircuitBreaker.{
  CircuitBreaker, CircuitBreakerPolicy, closed, opened, open_at, enter_half_open, with_probes,
  with_counts, drop_expired, expire_half_open_probes, acquire_probe, acquire_valid, acquire,
  record_failure, remaining_open_time,
}
use langgraph_cpp.RateLimit.CircuitBreaker.Invariant.{IsPolicy, policy_positive}

module _ (p : CircuitBreakerPolicy) where
  -- Under a valid policy, while an open breaker's timeout has not passed, `acquire` refuses and
  -- leaves it as it is. The wait it reports is exact: at every moment before it is over `acquire`
  -- refuses again, and when it is over `acquire` admits the call.
  pub acquire_opened :
      (now wait : ℕ) (b : CircuitBreaker)
      → IsPolicy p
      → b.state ≡ opened
      → now < b.opened_at + p.open_timeout
      → wait < (acquire p now b).1.retry_after
      → ((acquire p now b).0 ≡ b)
        × ((acquire p now b).1.allowed ≡ false)
        × ((acquire p (now + wait) b).1.allowed ≡ false)
        × ((acquire p (now + (acquire p now b).1.retry_after) b).1.allowed ≡ true)
  unfolding acquire acquire_valid acquire_probe remaining_open_time expire_half_open_probes
      enter_half_open with_probes drop_expired
  acquire_opened now wait b h s e w = ground (arith, h.0, policy_positive p h.0)

  -- `n` failures in a row, all at `now`.
  unfoldable pub fail_times : ℕ → ℕ → CircuitBreaker → CircuitBreaker
  unfolding record_failure
  fail_times now zero b = b
  fail_times now (suc n) b = fail_times now n (record_failure p now b)

  record_failure-below :
      (now : ℕ) (b : CircuitBreaker)
      → IsPolicy p
      → b.state ≡ closed
      → suc b.consecutive_failures < p.failure_threshold
      → record_failure p now b ≡ with_counts b (suc b.consecutive_failures) b.consecutive_successes
  unfolding record_failure with_counts open_at
  record_failure-below now b h s e = ground arith

  record_failure-last :
      (now : ℕ) (b : CircuitBreaker)
      → IsPolicy p
      → b.state ≡ closed
      → suc b.consecutive_failures ≡ p.failure_threshold
      → record_failure p now b ≡ open_at now b
  unfolding record_failure with_counts open_at
  record_failure-last now b h s e = ground arith

  -- Under a valid policy, a closed breaker stays closed and counts its failures while these, with
  -- those it had counted, stay below the threshold.
  pub fail_times-below :
      (now n : ℕ) (b : CircuitBreaker)
      → IsPolicy p
      → b.state ≡ closed
      → b.consecutive_failures + n < p.failure_threshold
      → fail_times now n b ≡ with_counts b (b.consecutive_failures + n) b.consecutive_successes
  unfolding with_counts fail_times record_failure
  fail_times-below now zero b h s e =
      ap (λ k. with_counts b k b.consecutive_successes) (omega arith)
  fail_times-below now (suc n) b h s e = rw (record_failure-below now b h s (omega (arith, e))) (
      fail_times-below now n (with_counts b (suc b.consecutive_failures) b.consecutive_successes) h
        s (omega (arith, e))
      ∙ ap (λ k. with_counts b k b.consecutive_successes) (omega arith))

  -- Under a valid policy, the failure that makes up the threshold opens a closed breaker at that
  -- moment.
  pub fail_times-opens :
      (now n : ℕ) (b : CircuitBreaker)
      → IsPolicy p
      → b.state ≡ closed
      → b.consecutive_failures + suc n ≡ p.failure_threshold
      → fail_times now (suc n) b ≡ open_at now b
  unfolding with_counts open_at fail_times record_failure
  fail_times-opens now zero b h s e = record_failure-last now b h s (omega (arith, e))
  fail_times-opens now (suc n) b h s e = rw (record_failure-below now b h s (omega (arith, e))) (
      fail_times-opens now n (with_counts b (suc b.consecutive_failures) b.consecutive_successes) h
        s (omega (arith, e)))
