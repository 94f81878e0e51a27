-- ===== src/Normalization.antt =====
-- The normalization of EDGAR facts (domain/services/edgar_normalization.py).
pub mod Types
pub mod Parse
pub mod Registry
pub mod Choice
pub mod Engine
pub mod Members
pub mod Latest
pub mod Determinism
pub mod Provenance
pub mod Payloads
pub mod Completeness
pub mod Quantized
mod Tests
