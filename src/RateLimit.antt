-- ===== src/RateLimit.antt =====
-- Admission control: src/foundation/rate_limit.
pub mod CircuitBreaker
pub mod TokenBucket
