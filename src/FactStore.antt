-- ===== src/FactStore.antt =====
-- The derivation of facts from payloads (domain/services/fact_store_service.py).
pub mod Derivation
pub mod DimensionKey
pub mod DerivationLaws
mod Tests
