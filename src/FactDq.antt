-- ===== src/FactDq.antt =====
-- The data-quality engine for normalized facts (domain/services/fact_dq_engine.py) with its records
-- (domain/entities/edgar_dq.py).
pub mod Types
pub mod Engine
pub mod Anomalies
pub mod Records
pub mod Flags
mod Tests
