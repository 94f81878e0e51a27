-- ===== src/Reconciliation/Rules.antt =====
-- domain/entities/edgar_reconciliation.py. Of a rule, its name and its description are left out: no
-- operation reads them. The notes of a result are a data type with a constructor for each dictionary.
use arche_api.Base.{ℕ, Bool, Option, List}
use arche_api.Base.Int.{ℤ}
use arche_api.Base.Text.{Text}
use arche_api.Base.Dict.{Dict}
use arche_api.Decimal.{Decimal}
use arche_api.Entities.{
  CanonicalStatementMetric, StatementType, FiscalPeriod, MaterialityClass,
  ReconciliationRuleCategory, ReconciliationStatus, CanonicalStatementPayload,
  NormalizedStatementIdentity, EdgarNormalizedFact,
}

pub record StatementReconciliationContext : Type 0 where
  pub identity : NormalizedStatementIdentity
  pub payload : CanonicalStatementPayload
  pub facts : Option (List EdgarNormalizedFact)

pub data Notes : Type 0 where
  identity_notes : (lhs rhs types : List Text) → Notes
  missing_components : (has_opening has_closing has_flow : Bool) → Notes
  rollforward_notes : (opening closing : Text) → (flows : List Text) → Notes
  fx_notes :
      (base : Text) → (rate : Option Text) → (local_currency reporting_currency : Text) → Notes
  calendar_notes : (month : ℕ) → (allowed : List ℕ) → Notes
  segment_missing : (key : Text) → (parents children : ℕ) → Notes
  segment_notes : (key parent child parent_dimension_key : Text) → (children : ℕ) → Notes

pub record ReconciliationResult : Type 0 where
  pub statement_identity : NormalizedStatementIdentity
  pub rule_id : Text
  pub rule_category : ReconciliationRuleCategory
  pub status : ReconciliationStatus
  pub severity : MaterialityClass
  pub expected_value : Option Decimal
  pub actual_value : Option Decimal
  pub delta : Option Decimal
  pub dimension_key : Option Text
  pub dimension_labels : Option (Dict Text Text)
  pub notes : Notes

pub record IdentityReconciliationRule : Type 0 where
  pub rule_id : Text
  pub category : ReconciliationRuleCategory
  pub severity : MaterialityClass
  pub lhs_metrics : List CanonicalStatementMetric
  pub rhs_metrics : List CanonicalStatementMetric
  pub tolerance : Option Decimal
  pub applicable_statement_types : Option (List StatementType)
  pub is_enabled : Bool

pub record RollforwardReconciliationRule : Type 0 where
  pub rule_id : Text
  pub category : ReconciliationRuleCategory
  pub severity : MaterialityClass
  pub opening_metric : CanonicalStatementMetric
  pub flow_metrics : List CanonicalStatementMetric
  pub closing_metric : CanonicalStatementMetric
  pub period_granularity : Option FiscalPeriod
  pub tolerance : Option Decimal
  pub is_enabled : Bool

pub record FxReconciliationRule : Type 0 where
  pub rule_id : Text
  pub category : ReconciliationRuleCategory
  pub severity : MaterialityClass
  pub base_metric : CanonicalStatementMetric
  pub fx_rate_metric : Option CanonicalStatementMetric
  pub local_currency : Text
  pub reporting_currency : Text
  pub tolerance_bps : Option ℤ
  pub is_enabled : Bool

pub record CalendarReconciliationRule : Type 0 where
  pub rule_id : Text
  pub category : ReconciliationRuleCategory
  pub severity : MaterialityClass
  pub allowed_fye_months : List ℕ
  pub allow_53_week : Bool
  pub max_gap_days : ℤ
  pub is_enabled : Bool

pub record SegmentRollupReconciliationRule : Type 0 where
  pub rule_id : Text
  pub category : ReconciliationRuleCategory
  pub severity : MaterialityClass
  pub parent_metric : CanonicalStatementMetric
  pub child_metric : CanonicalStatementMetric
  pub rollup_dimension_key : Text
  pub tolerance : Option Decimal
  pub is_enabled : Bool

pub data ReconciliationRule : Type 0 where
  identity_rule : IdentityReconciliationRule → ReconciliationRule
  rollforward_rule : RollforwardReconciliationRule → ReconciliationRule
  fx_rule : FxReconciliationRule → ReconciliationRule
  calendar_rule : CalendarReconciliationRule → ReconciliationRule
  segment_rule : SegmentRollupReconciliationRule → ReconciliationRule

abbrev pub rule_is_enabled : ReconciliationRule → Bool
rule_is_enabled (identity_rule r) = r.is_enabled
rule_is_enabled (rollforward_rule r) = r.is_enabled
rule_is_enabled (fx_rule r) = r.is_enabled
rule_is_enabled (calendar_rule r) = r.is_enabled
rule_is_enabled (segment_rule r) = r.is_enabled

abbrev pub id_of : ReconciliationRule → Text
id_of (identity_rule r) = r.rule_id
id_of (rollforward_rule r) = r.rule_id
id_of (fx_rule r) = r.rule_id
id_of (calendar_rule r) = r.rule_id
id_of (segment_rule r) = r.rule_id

abbrev pub category_of : ReconciliationRule → ReconciliationRuleCategory
category_of (identity_rule r) = r.category
category_of (rollforward_rule r) = r.category
category_of (fx_rule r) = r.category
category_of (calendar_rule r) = r.category
category_of (segment_rule r) = r.category

abbrev pub severity_of : ReconciliationRule → MaterialityClass
severity_of (identity_rule r) = r.severity
severity_of (rollforward_rule r) = r.severity
severity_of (fx_rule r) = r.severity
severity_of (calendar_rule r) = r.severity
severity_of (segment_rule r) = r.severity
