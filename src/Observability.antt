-- ===== src/Observability.antt =====
-- The inspection of the override rules of a statement
-- (domain/services/xbrl_override_observability.py).
pub mod Service
pub mod Traces
mod Tests
