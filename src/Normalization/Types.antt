-- ===== src/Normalization/Types.antt =====
-- The records of domain/services/edgar_normalization.py and its errors.
use arche_api.Base.{Bool, Option, List}
use arche_api.Base.Int.{ℤ}
use arche_api.Base.Text.{Text}
use arche_api.Base.Dict.{Dict}
use arche_api.Decimal.{Decimal}
use arche_api.Entities.{
  CanonicalStatementMetric, CanonicalStatementPayload, StatementType, AccountingStandard,
  FiscalPeriod, Date, PayloadError,
}
use arche_api.Overrides.{MappingOverrideRule, OverrideScope}

pub record EdgarFact : Type 0 where
  pub fact_id : Text
  pub concept : Text
  pub value : Text
  pub unit : Text
  pub decimals : Option ℤ
  pub period_start : Option Date
  pub period_end : Option Date
  pub instant_date : Option Date
  pub dimensions : Dict Text Text

pub data MetricConfidence : Type 0 where
  high medium low : MetricConfidence

pub record CanonicalMetricRecord : Type 0 where
  pub metric : CanonicalStatementMetric
  pub value : Decimal
  pub unit : Text
  pub confidence : MetricConfidence
  pub source_fact_ids : List Text

pub record NormalizationContext : Type 0 where
  pub cik : Text
  pub statement_type : StatementType
  pub accounting_standard : AccountingStandard
  pub statement_date : Date
  pub fiscal_year : ℤ
  pub fiscal_period : FiscalPeriod
  pub currency : Text
  pub accession_id : Text
  pub taxonomy : Text
  pub version_sequence : ℤ
  pub facts : List EdgarFact
  pub industry_code : Option Text
  pub analyst_profile_id : Option Text
  pub override_rules : List MappingOverrideRule
  pub enable_override_trace : Bool

-- What the warnings say.
pub data Warning : Type 0 where
  unresolved : CanonicalStatementMetric → Warning
  suppressed : CanonicalStatementMetric → Option OverrideScope → Option Text → Warning

pub record NormalizationResult : Type 0 where
  pub payload : CanonicalStatementPayload
  pub payload_version : Text
  pub metric_records : Dict CanonicalStatementMetric CanonicalMetricRecord
  pub warnings : List Warning

-- `EdgarNormalizationError` by its message; then the exceptions that the module does not catch:
-- `InvalidOperation` of a quantization, the `TypeError` of a comparison of None with a date, and that
-- of the payload. `not_finite` stands for the texts of infinities and NaNs, which Python parses and
-- the decimals of the model do not have.
pub data NormalizationError : Type 0 where
  empty_cik empty_currency bad_year empty_taxonomy bad_sequence : NormalizationError
  unparsable : NormalizationError
  invalid_operation type_error not_finite : NormalizationError
  refused_payload : PayloadError → NormalizationError
