-- ===== src/Observability/Tests.antt =====
-- A fact of a registered concept and a rule for it.
use arche_api.Base.{◌≡◌, refl, ◌⊎◌, false, none, some, List, [], ◌∷◌, In}
use arche_api.Base.Int.{pos}
use arche_api.Base.Text.{Text, codes}
use arche_api.Base.Results.{ok, err}
use arche_api.Entities.{CanonicalStatementMetric, income_statement, us_gaap, fy, date, net_income}
use arche_api.Overrides.{MappingOverrideRule, global}
use arche_api.Normalization.Types.{EdgarFact, NormalizationContext, type_error}
use arche_api.Normalization.Registry.{canonical_metric_registry}
use arche_api.Normalization.Completeness.{HasNoFact}
use arche_api.Observability.Service.{
  default_engine, inspect_overrides, observability_of, nothing_observed,
}
use arche_api.Observability.Traces.{HasFact, inspect_overrides-cases}

abbrev sales : EdgarFact
sales = record {
  fact_id = codes "f1";
  concept = codes "us-gaap:Revenues";
  value = codes "100";
  unit = codes "USD";
  decimals = some (pos 0);
  period_start = none;
  period_end = some (date 2024 12 31);
  instant_date = none;
  dimensions = [];
}

abbrev rule : MappingOverrideRule
rule = record {
  rule_id = codes "rule-1";
  scope = global;
  source_concept = codes "us-gaap:Revenues";
  source_taxonomy = none;
  match_cik = none;
  match_industry_code = none;
  match_analyst_id = none;
  match_dimensions = [];
  target_metric = some net_income;
  is_suppression = false;
  priority = pos 0;
}

abbrev context : NormalizationContext
context = record {
  cik = codes "0000123456";
  statement_type = income_statement;
  accounting_standard = us_gaap;
  statement_date = date 2024 12 31;
  fiscal_year = pos 2024;
  fiscal_period = fy;
  currency = codes "USD";
  accession_id = codes "0000000000-24-000001";
  taxonomy = codes "US_GAAP_2024";
  version_sequence = pos 1;
  facts = sales ∷ [];
  industry_code = none;
  analyst_profile_id = none;
  override_rules = rule ∷ [];
  enable_override_trace = false;
}

inspect_overrides-cases_example :
    ((e : CanonicalStatementMetric × List Text) × In e canonical_metric_registry
      × HasFact context e.1
      × (inspect_overrides default_engine context ≡ err type_error))
    ⊎ (((e : CanonicalStatementMetric × List Text)
          → In e canonical_metric_registry
          → HasNoFact context e.1)
        × (inspect_overrides default_engine context
            ≡ ok (observability_of default_engine context nothing_observed)))
inspect_overrides-cases_example = inspect_overrides-cases context rule [] refl
