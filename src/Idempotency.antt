-- ===== src/Idempotency.antt =====
-- The middleware that answers a repeated write request from its stored response
-- (infrastructure/middleware/idempotency.py and adapters/repositories/idempotency_repository.py).
pub mod Store
pub mod Middleware
pub mod Rows
pub mod Replays
pub mod Locks
pub mod Steps
pub mod Exclusion
mod Tests
