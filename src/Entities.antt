-- ===== src/Entities.antt =====
-- The value objects of domain/entities and domain/enums that the services share.
mod Metric
mod Enums
mod Dates
mod Payload
mod FactOrder
pub use FactOrder.{fact_leb}
pub use Metric.*
pub use Enums.*
unfoldable pub use Dates.{is_leap, days_before_month, to_ordinal, days_between}
pub use Dates.{Date, date, date_beq, date_beq_iff, date_eq, date_leb}
unfoldable pub use Payload.{validate_identity, validate_source, check_payload}
pub use Payload.{
  CanonicalStatementPayload, NormalizedStatementIdentity, EdgarNormalizedFact, identity_beq,
  identity_beq_iff, identity_eq, PayloadError,
}
