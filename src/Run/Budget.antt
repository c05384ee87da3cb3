-- ===== src/Run/Budget.antt =====
-- `ExecutionBudget` of src/foundation/resource/resource_limits.cpp. Each counter is an atomic
-- number: a check reads the usage, and what it saw may be older than the usage at the exchange
-- that takes effect, so both are arguments. Whether the deadline has passed is an argument too. A
-- negative duration, which the source refuses, cannot be written.
pub mod Bounds
use langgraph_cpp.Prelude.{
  ℕ, ◌+◌, ◌-◌, ◌^◌, max, String, Bool, Option, none, some, Result, ok, err, fail_if, ltb,
  if◌then◌else◌, labelled, to_string, ◌>>=◌, ◌>>◌, resource_exhausted, deadline_exceeded,
}

pub record ResourceLimits : Type 0 where
  pub max_steps : Option ℕ
  pub max_retries : Option ℕ
  pub max_memory_bytes : Option ℕ

-- The usage, as `usage` reads it.
pub record ResourceUsage : Type 0 where
  pub steps : ℕ
  pub retries : ℕ
  pub memory_bytes : ℕ
  pub peak_memory_bytes : ℕ

abbrev pub no_usage : ResourceUsage
no_usage = record { steps = 0; retries = 0; memory_bytes = 0; peak_memory_bytes = 0 }

-- A count above its limit is refused.
pub within : String → Option ℕ → ℕ → Result (Unit {0})
within message none n = ok tt
within message (some limit) n =
    fail_if (ltb limit n) resource_exhausted (labelled message (to_string limit))

module _ (limits : ResourceLimits) where
  pub within_steps : ℕ → Result (Unit {0})
  unfolding within
  within_steps = within "execution budget exceeded max steps: " limits.max_steps

  pub within_retries : ℕ → Result (Unit {0})
  unfolding within
  within_retries = within "execution budget exceeded max retries: " limits.max_retries

  pub check_memory : ℕ → Result (Unit {0})
  unfolding within
  check_memory = within "execution budget exceeded max memory bytes: " limits.max_memory_bytes

  -- `statusForCounts` of the usage; the duration is the deadline's.
  pub check : Bool → ResourceUsage → Result (Unit {0})
  unfolding within_steps within_retries check_memory
  check expired u = do
    fail_if expired deadline_exceeded "execution budget exceeded max duration"
    within_steps u.steps
    within_retries u.retries
    check_memory u.memory_bytes

  -- `addWouldOverflow` on a counter of `w` bits.
  abbrev pub add_would_overflow : ℕ → ℕ → ℕ → Bool
  add_would_overflow w current amount = ltb ((2 ^ w - 1) - current) amount

  pub check_step : ℕ → ResourceUsage → Result (Unit {0})
  unfolding within_steps
  check_step amount u = do
    fail_if (add_would_overflow 64 u.steps amount) resource_exhausted
        "execution step counter overflow"
    within_steps (u.steps + amount)

  pub check_retry : ℕ → ResourceUsage → Result (Unit {0})
  unfolding within_retries
  check_retry amount u = do
    fail_if (add_would_overflow 32 u.retries amount) resource_exhausted
        "execution retry counter overflow"
    within_retries (u.retries + amount)

  -- `seen` is the usage that the first check read, `u` the one at the exchange.
  unfoldable pub consume_step : ℕ → Bool → ResourceUsage → ResourceUsage → Result ResourceUsage
  unfolding check check_step
  consume_step amount expired seen u = do
    check expired seen
    check_step amount u
    ok (record u { steps = u.steps + amount })

  pub consume_retry : ℕ → Bool → ResourceUsage → ResourceUsage → Result ResourceUsage
  unfolding check check_retry
  consume_retry amount expired seen u = do
    check expired seen
    check_retry amount u
    ok (record u { retries = u.retries + amount })

  pub record_memory : ℕ → Bool → ResourceUsage → ResourceUsage → Result ResourceUsage
  unfolding check check_memory
  record_memory bytes expired seen u = do
    check expired seen
    check_memory bytes
    ok (record u { memory_bytes = bytes; peak_memory_bytes = max u.peak_memory_bytes bytes })
