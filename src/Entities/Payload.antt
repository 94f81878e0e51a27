-- ===== src/Entities/Payload.antt =====
-- `CanonicalStatementPayload`, `NormalizedStatementIdentity` and `EdgarNormalizedFact`.
use arche_api.Base.{◌≡◌, ◌↔◌, Bool, true, ◌&&◌, Option, arith, Eq}
use arche_api.Base.Int.{ℤ, pos, leb_ℤ, eqb_ℤ, eqb_ℤ_iff, int_eq}
use arche_api.Base.Text.{Text, text_beq, text_beq_iff, text_eq, strip, is_empty}
use arche_api.Base.Results.{Result, ◌>>◌, raise_if}
use arche_api.Base.Dict.{Dict}
use arche_api.Decimal.{Decimal}
use arche_api.Entities.Metric.{CanonicalStatementMetric}
use arche_api.Entities.Dates.{Date}
use arche_api.Entities.Enums.{
  StatementType, AccountingStandard, FiscalPeriod, statement_type_beq, statement_type_beq_iff,
  fiscal_period_beq, fiscal_period_beq_iff,
}

pub record CanonicalStatementPayload : Type 0 where
  pub cik : Text
  pub statement_type : StatementType
  pub accounting_standard : AccountingStandard
  pub statement_date : Date
  pub fiscal_year : ℤ
  pub fiscal_period : FiscalPeriod
  pub currency : Text
  pub unit_multiplier : ℤ
  pub core_metrics : Dict CanonicalStatementMetric Decimal
  pub extra_metrics : Dict Text Decimal
  pub dimensions : Dict Text Text
  pub source_accession_id : Text
  pub source_taxonomy : Text
  pub source_version_sequence : ℤ

pub record NormalizedStatementIdentity : Type 0 where
  pub cik : Text
  pub statement_type : StatementType
  pub fiscal_year : ℤ
  pub fiscal_period : FiscalPeriod
  pub version_sequence : ℤ

-- The dataclass equality, by which an identity is a key.
abbrev pub identity_beq : NormalizedStatementIdentity → NormalizedStatementIdentity → Bool
identity_beq a b =
    text_beq a.cik b.cik
    && (statement_type_beq a.statement_type b.statement_type
        && (eqb_ℤ a.fiscal_year b.fiscal_year
            && (fiscal_period_beq a.fiscal_period b.fiscal_period
                && eqb_ℤ a.version_sequence b.version_sequence)))

pub identity_beq_iff : (a b : NormalizedStatementIdentity) → (identity_beq a b ≡ true) ↔ (a ≡ b)
identity_beq_iff a b = ground (
  arith,
  text_beq_iff a.cik b.cik,
  statement_type_beq_iff a.statement_type b.statement_type,
  eqb_ℤ_iff a.fiscal_year b.fiscal_year,
  fiscal_period_beq_iff a.fiscal_period b.fiscal_period,
  eqb_ℤ_iff a.version_sequence b.version_sequence,
)

instance abbrev pub identity_eq : Eq NormalizedStatementIdentity
identity_eq = record { test = identity_beq; test_iff = identity_beq_iff }

pub record EdgarNormalizedFact : Type 0 where
  pub cik : Text
  pub statement_type : StatementType
  pub accounting_standard : AccountingStandard
  pub fiscal_year : ℤ
  pub fiscal_period : FiscalPeriod
  pub statement_date : Date
  pub version_sequence : ℤ
  pub metric_code : Text
  pub metric_label : Option Text
  pub unit : Text
  pub period_start : Option Date
  pub period_end : Date
  pub value : Decimal
  pub dimensions : Dict Text Text
  pub dimension_key : Text
  pub source_line_item : Option Text

-- The messages of `CanonicalStatementPayload.__post_init__`. The checks of the types of keys and
-- values have no counterpart here.
pub data PayloadError : Type 0 where
  empty_cik bad_year empty_currency bad_sequence empty_accession_id empty_taxonomy : PayloadError

abbrev is_blank : Text → Bool
is_blank s = is_empty (strip s)

-- `_validate_identity`
unfoldable pub validate_identity : CanonicalStatementPayload → Result PayloadError (Unit {0})
validate_identity p = do
  raise_if (is_blank p.cik) empty_cik
  raise_if (leb_ℤ p.fiscal_year (pos 0)) bad_year
  raise_if (is_blank p.currency) empty_currency

-- `_validate_source`
unfoldable pub validate_source : CanonicalStatementPayload → Result PayloadError (Unit {0})
validate_source p = do
  raise_if (leb_ℤ p.source_version_sequence (pos 0)) bad_sequence
  raise_if (is_blank p.source_accession_id) empty_accession_id
  raise_if (is_blank p.source_taxonomy) empty_taxonomy

-- `CanonicalStatementPayload.__post_init__`
unfoldable pub check_payload : CanonicalStatementPayload → Result PayloadError (Unit {0})
unfolding validate_identity validate_source
check_payload p = do validate_identity p; validate_source p
