-- ===== src/Registry.antt =====
-- The metadata of the canonical metrics (domain/services/canonical_metric_registry.py).
pub mod Metadata
mod Lookup
