-- ===== src/Resilience.antt =====
-- The circuit breaker and the retries (infrastructure/resilience/circuit_breaker.py and retry.py).
pub mod Breaker
pub mod BreakerLaws
pub mod Retry
pub mod RetryLaws
pub mod RetryEndless
mod Tests
mod RetryTests
