-- ===== src/Tests/Limits.antt =====
-- A breaker that opens after two failures, and a bucket of five tokens.
use langgraph_cpp.Prelude.{◌+◌, ◌*◌, ◌≤◌, ◌<◌, min, ◌≡◌, refl, true, false, [], ◌∷◌, ok, arith}
use langgraph_cpp.Prelude.{none, some}
use langgraph_cpp.Run.Budget.{ResourceLimits, ResourceUsage, no_usage, consume_step}
use langgraph_cpp.Run.Budget.Bounds.{Spent-IsValid, fresh, by_step}
use langgraph_cpp.Run.Budget.Bounds as Budget
use langgraph_cpp.RateLimit.CircuitBreaker.{
  CircuitBreaker, CircuitBreakerPolicy, CircuitBreakerResult, new_breaker, validate, acquire,
  record_failure, open_at, with_counts,
}
use langgraph_cpp.RateLimit.CircuitBreaker.Invariant.{
  IsPolicy, IsValid, start, by_acquire, by_failure, Reached-IsValid,
}
use langgraph_cpp.RateLimit.CircuitBreaker.Timing.{acquire_opened}
use langgraph_cpp.RateLimit.TokenBucket.{
  RateLimitPolicy, TokenBucket, RateLimitResult, refill_by, refill_bucket,
}
use langgraph_cpp.RateLimit.TokenBucket as TokenBucket
use langgraph_cpp.RateLimit.TokenBucket.Refill.{refill_by_lem, acquire_retry}
use langgraph_cpp.RateLimit.TokenBucket.Throughput.{granted_total, granted_total_bound}

abbrev two_failures : CircuitBreakerPolicy
two_failures = record {
  failure_threshold = 2;
  success_threshold = 1;
  half_open_max_calls = 1;
  open_timeout = 30;
  half_open_probe_timeout = 30;
}

two_failures-IsPolicy : IsPolicy two_failures
unfolding validate
two_failures-IsPolicy = (refl, omega arith, omega arith)

abbrev opened_at_ten : CircuitBreaker
opened_at_ten = open_at 10 new_breaker

Reached-IsValid_example :
    IsValid two_failures
      (acquire two_failures 50
        (record_failure two_failures 10 (record_failure two_failures 5 new_breaker))).0
Reached-IsValid_example =
    Reached-IsValid two_failures
      (acquire two_failures 50
        (record_failure two_failures 10 (record_failure two_failures 5 new_breaker))).0
      two_failures-IsPolicy (by_acquire 50 (by_failure 10 (by_failure 5 start)))

abbrev tripped : CircuitBreaker
tripped = record {
  state = langgraph_cpp.RateLimit.CircuitBreaker.opened;
  consecutive_failures = 0;
  consecutive_successes = 0;
  half_open_probes = [];
  opened_at = 10;
}

tripped_wait : 5 < (acquire two_failures 20 tripped).1.retry_after
unfolding acquire
tripped_wait = omega arith

acquire_opened_example :
    ((acquire two_failures 20 tripped).0 ≡ tripped)
    × ((acquire two_failures 20 tripped).1.allowed ≡ false)
    × ((acquire two_failures (20 + 5) tripped).1.allowed ≡ false)
    × ((acquire two_failures
          (20 + (acquire two_failures 20 tripped).1.retry_after)
          tripped).1.allowed
        ≡ true)
acquire_opened_example =
    acquire_opened two_failures 20 5 tripped two_failures-IsPolicy refl (omega arith) tripped_wait

abbrev five_tokens : RateLimitPolicy
five_tokens = record { capacity = 5; refill = 2; interval = 10 }

five_tokens_valid : TokenBucket.validate five_tokens ≡ ok tt
unfolding TokenBucket.validate
five_tokens_valid = refl

abbrev one_left : TokenBucket
one_left = record { tokens = 1; updated_at = 100 }

refill_by_lem_example :
    refill_by five_tokens 3 one_left
    ≡ record { tokens = min 5 (1 + 3 * 2); updated_at = 100 + 10 * 3 }
refill_by_lem_example =
    refill_by_lem five_tokens 3 one_left five_tokens_valid (omega arith) (omega arith)

refused : (TokenBucket.acquire five_tokens 3 105 one_left).1.allowed ≡ false
unfolding TokenBucket.acquire
refused = refl

short : (TokenBucket.acquire five_tokens 3 105 one_left).1.retry_after < TokenBucket.max_duration
unfolding TokenBucket.acquire
short = omega arith

acquire_retry_example :
    (TokenBucket.acquire five_tokens 3
      (105 + (TokenBucket.acquire five_tokens 3 105 one_left).1.retry_after)
      (TokenBucket.acquire five_tokens 3 105 one_left).0).1.allowed
    ≡ true
acquire_retry_example =
    acquire_retry five_tokens 3 105 one_left five_tokens_valid (omega arith) (omega arith)
      (omega arith) (omega arith) refused short

granted_total_bound_example :
    granted_total five_tokens ((1, 105) ∷ (3, 112) ∷ (2, 119) ∷ []) one_left ≤ 1 + 1 * 2
granted_total_bound_example =
    granted_total_bound five_tokens ((1, 105) ∷ (3, 112) ∷ (2, 119) ∷ []) 1 one_left
      five_tokens_valid (omega arith) (omega arith) (omega arith, (omega arith, (omega arith, tt)))

abbrev three_steps : ResourceLimits
three_steps = record { max_steps = some 3; max_retries = none; max_memory_bytes = some 100 }

abbrev two_spent : ResourceUsage
two_spent = record { steps = 2; retries = 0; memory_bytes = 0; peak_memory_bytes = 0 }

two_consumed : consume_step three_steps 2 false no_usage no_usage ≡ ok two_spent
unfolding consume_step
two_consumed = refl

Spent-IsValid_example : Budget.IsValid three_steps two_spent × (two_spent.steps ≡ 0 + 2)
Spent-IsValid_example =
    Spent-IsValid three_steps (0 + 2) two_spent (by_step 2 false no_usage fresh two_consumed)
