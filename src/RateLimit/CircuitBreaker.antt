-- ===== src/RateLimit/CircuitBreaker.antt =====
-- src/foundation/rate_limit/circuit_breaker.cpp. Times and durations are ticks of the clock counted
-- from its epoch; each operation takes what the clock reads, and the policy, as arguments. A
-- negative duration, which `validate` refuses like zero, is written as zero.
pub mod Invariant
pub mod Timing
use langgraph_cpp.Prelude.{
  ℕ, suc, ◌+◌, ◌-◌, ◌%◌, ◌^◌, leb, ltb, Bool, true, false, List, [], ◌∷◌, ◌++◌, Result, ok, err,
  fail, fail_if, invalid_argument, unavailable, ◌>>=◌, ◌>>◌, ◌==◌, nat_key, if◌then◌else◌, length,
  is_empty, String,
}

pub data CircuitState : Type 0 where
  closed opened half_open : CircuitState

pub circuit_state_name : CircuitState → String
circuit_state_name closed = "closed"
circuit_state_name opened = "open"
circuit_state_name half_open = "half_open"

pub record CircuitBreakerPolicy : Type 0 where
  pub failure_threshold : ℕ
  pub success_threshold : ℕ
  pub half_open_max_calls : ℕ
  pub open_timeout : ℕ
  pub half_open_probe_timeout : ℕ

unfoldable pub validate : CircuitBreakerPolicy → Result (Unit {0})
validate p = do
  fail_if (p.failure_threshold == 0) invalid_argument
      "circuit breaker failure threshold must be greater than 0"
  fail_if (p.success_threshold == 0) invalid_argument
      "circuit breaker success threshold must be greater than 0"
  fail_if (p.half_open_max_calls == 0) invalid_argument
      "circuit breaker half-open max calls must be greater than 0"
  fail_if (p.open_timeout == 0) invalid_argument "circuit breaker open timeout must be positive"
  fail_if (p.half_open_probe_timeout == 0) invalid_argument
      "circuit breaker half-open probe timeout must be positive"

pub record CircuitBreaker : Type 0 where
  pub state : CircuitState
  pub consecutive_failures : ℕ
  pub consecutive_successes : ℕ
  pub half_open_probes : List ℕ
  pub opened_at : ℕ

-- A breaker that has just been built.
abbrev pub new_breaker : CircuitBreaker
new_breaker = record {
  state = closed;
  consecutive_failures = 0;
  consecutive_successes = 0;
  half_open_probes = [];
  opened_at = 0;
}

pub record CircuitBreakerResult : Type 0 where
  pub allowed : Bool
  pub state : CircuitState
  pub retry_after : ℕ
  pub status : Result (Unit {0})

-- `++counter` on a `std::uint32_t`.
abbrev pub increment32 : ℕ → ℕ
increment32 n = suc n % 2 ^ 32

pub open_at : ℕ → CircuitBreaker → CircuitBreaker
open_at now b = record {
  state = opened;
  consecutive_failures = 0;
  consecutive_successes = 0;
  half_open_probes = [];
  opened_at = now;
}

pub close : CircuitBreaker → CircuitBreaker
close b = new_breaker

pub enter_half_open : CircuitBreaker → CircuitBreaker
enter_half_open b = record {
  state = half_open;
  consecutive_failures = 0;
  consecutive_successes = 0;
  half_open_probes = [];
  opened_at = b.opened_at;
}

pub with_probes : CircuitBreaker → List ℕ → CircuitBreaker
with_probes b probes = record {
  state = b.state;
  consecutive_failures = b.consecutive_failures;
  consecutive_successes = b.consecutive_successes;
  half_open_probes = probes;
  opened_at = b.opened_at;
}

pub with_counts : CircuitBreaker → ℕ → ℕ → CircuitBreaker
with_counts b failures successes = record {
  state = b.state;
  consecutive_failures = failures;
  consecutive_successes = successes;
  half_open_probes = b.half_open_probes;
  opened_at = b.opened_at;
}

module _ (p : CircuitBreakerPolicy) where
  -- `while (!probes.empty() && now - probes.front() >= timeout) probes.pop_front();`
  pub drop_expired : ℕ → List ℕ → List ℕ
  drop_expired now [] = []
  drop_expired now (t ∷ ts) =
      let rest = drop_expired now ts in
      if leb (t + p.half_open_probe_timeout) now then rest else t ∷ ts

  pub expire_half_open_probes : ℕ → CircuitBreaker → CircuitBreaker
  unfolding drop_expired with_probes
  expire_half_open_probes now b = with_probes b (drop_expired now b.half_open_probes)

  pub release_half_open_probe : CircuitBreaker → CircuitBreaker
  unfolding with_probes
  release_half_open_probe b = elim b.half_open_probes [ [] ↦ b | _ ∷ ts ↦ with_probes b ts ]

  -- With elapsed = now - opened_at, which is negative when the clock is behind: zero when
  -- elapsed >= timeout, else timeout - elapsed.
  pub remaining_open_time : ℕ → CircuitBreaker → ℕ
  remaining_open_time now b = (b.opened_at + p.open_timeout) - now

  pub half_open_retry_after : ℕ → CircuitBreaker → ℕ
  half_open_retry_after now b = elim b.half_open_probes [
    | [] ↦ 0
    | t ∷ _ ↦ (t + p.half_open_probe_timeout) - now
  ]

  abbrev pub denied : CircuitBreaker → ℕ → Result (Unit {0}) → CircuitBreakerResult
  denied b wait status = record {
    allowed = false;
    state = b.state;
    retry_after = wait;
    status = status;
  }

  abbrev pub admitted : CircuitBreaker → CircuitBreakerResult
  admitted b = record { allowed = true; state = b.state; retry_after = 0; status = ok tt }

  -- The part of `acquire` behind the check of the open state.
  pub acquire_probe : ℕ → CircuitBreaker → CircuitBreaker × CircuitBreakerResult
  unfolding expire_half_open_probes half_open_retry_after with_probes
  acquire_probe now b = elim b.state [
    | half_open ↦
        let c = expire_half_open_probes now b in
        if leb p.half_open_max_calls (length c.half_open_probes)
        then (
          c,
          denied c (half_open_retry_after now c)
              (fail unavailable "circuit breaker half-open probe limit reached"),
        )
        else (let d = with_probes c (c.half_open_probes ++ now ∷ []) in (d, admitted d))
    | _ ↦ (b, admitted b)
  ]

  pub acquire_valid : ℕ → CircuitBreaker → CircuitBreaker × CircuitBreakerResult
  unfolding acquire_probe remaining_open_time enter_half_open
  acquire_valid now b = elim b.state [
    | opened ↦
        let wait = remaining_open_time now b in
        if ltb 0 wait
        then (b, denied b wait (fail unavailable "circuit breaker is open"))
        else acquire_probe now (enter_half_open b)
    | _ ↦ acquire_probe now b
  ]

  unfoldable pub acquire : ℕ → CircuitBreaker → CircuitBreaker × CircuitBreakerResult
  unfolding validate acquire_valid
  acquire now b = elim (validate p) [ err e ↦ (b, denied b 0 (err e)) | ok _ ↦ acquire_valid now b ]

  -- A probe has succeeded.
  pub count_success : CircuitBreaker → CircuitBreaker
  unfolding release_half_open_probe with_counts close
  count_success b =
      let c = release_half_open_probe b in
      let d = with_counts c c.consecutive_failures (increment32 c.consecutive_successes) in
      if leb p.success_threshold d.consecutive_successes then close d else d

  pub record_success : ℕ → CircuitBreaker → CircuitBreaker
  unfolding expire_half_open_probes count_success with_counts
  record_success now b = elim b.state [
    | opened ↦ b
    | half_open ↦
        let c = expire_half_open_probes now (with_counts b 0 b.consecutive_successes) in
        if is_empty c.half_open_probes then c else count_success c
    | closed ↦ with_counts b 0 0
  ]

  pub record_failure : ℕ → CircuitBreaker → CircuitBreaker
  unfolding expire_half_open_probes open_at with_counts
  record_failure now b = elim b.state [
    | opened ↦ b
    | half_open ↦
        let c = expire_half_open_probes now b in
        if is_empty c.half_open_probes then c else open_at now c
    | closed ↦
        let c = with_counts b (increment32 b.consecutive_failures) b.consecutive_successes in
        if leb p.failure_threshold c.consecutive_failures then open_at now c else c
  ]

  pub reset : CircuitBreaker → CircuitBreaker
  unfolding close
  reset b = close b
