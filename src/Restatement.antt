-- ===== src/Restatement.antt =====
-- Restatement analytics: the delta of two payloads (domain/entities/edgar_restatement_delta.py), the
-- ledger of a version history (domain/services/statement_ledger_delta_engine.py) and the timeline of
-- a ledger (domain/services/restatement_timeline.py).
mod Errors
pub mod Delta
pub mod DeltaLaws
pub mod Ledger
pub mod LedgerLaws
pub mod Selection
pub mod Timeline
pub mod TimelineLaws
pub mod TimelineSound
pub mod TimelineSeverity
mod Tests
pub use Errors.*
