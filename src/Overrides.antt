-- ===== src/Overrides.antt =====
-- The XBRL mapping override engine (domain/services/xbrl_mapping_overrides.py) and the validator of
-- override rules (domain/services/xbrl_override_validator.py).
mod Rules
pub mod Engine
pub mod Precedence
pub mod Matching
pub mod Decision
pub mod Validator
pub mod ValidDrafts
mod Tests
pub use Rules.*
