-- ===== src/Reconciliation.antt =====
-- Reconciliation of statements: the rules (domain/entities/edgar_reconciliation.py), the calendar
-- (domain/services/reconciliation_calendar.py) and the engine (domain/services/reconciliation_engine.py).
pub mod Rules
pub mod Calendar
pub mod CalendarLaws
pub mod Engine
pub mod Single
pub mod Sums
pub mod Judgements
pub mod Verdicts
pub mod Run
pub mod RunLaws
mod Tests
