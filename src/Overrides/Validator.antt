-- ===== src/Overrides/Validator.antt =====
-- `OverrideRuleValidator` (domain/services/xbrl_override_validator.py) on the drafts of
-- domain/entities/xbrl_override_admin.py.
use arche_api.Base.{Bool, true, false, ◌&&◌, ◌||◌, Option, none, some, [], ◌∷◌, if◌then◌else◌}
use arche_api.Base.Int.{ℤ, pos, ltb_ℤ}
use arche_api.Base.Text.{Text, strip, is_empty}
use arche_api.Base.Dict.{Dict}
use arche_api.Base.Results.{Result, ok, ◌>>◌, raise_if}
use arche_api.Entities.{CanonicalStatementMetric}
use arche_api.Overrides.Rules.{
  OverrideScope, global, industry, company, analyst, MappingOverrideRule,
}
use arche_api.Overrides.Engine.{is_given}

pub record OverrideRuleDraft : Type 0 where
  pub scope : OverrideScope
  pub source_concept : Text
  pub source_taxonomy : Option Text
  pub match_cik : Option Text
  pub match_industry_code : Option Text
  pub match_analyst_id : Option Text
  pub match_dimensions : Dict Text Text
  pub target_metric : Option CanonicalStatementMetric
  pub is_suppression : Bool
  pub priority : ℤ

pub record OverrideRuleVersion : Type 0 where
  pub rule_id : Text
  pub version_sequence : ℤ
  pub is_active : Bool
  pub deprecation_reason : Option Text
  pub draft : OverrideRuleDraft

-- The messages of the `EdgarMappingError`s that the validator raises.
pub data DraftError : Type 0 where
  global_has_match_fields industry_code_missing industry_has_cik company_cik_missing : DraftError
  analyst_id_missing suppression_has_target blank_dimension_key : DraftError
  blank_dimension_value negative_priority : DraftError

abbrev pub Check : Type 0
Check = Result DraftError (Unit {0})

unfoldable pub validate_global_scope : OverrideRuleDraft → Check
validate_global_scope d =
    raise_if
      (is_given d.match_cik || (is_given d.match_industry_code || is_given d.match_analyst_id))
      global_has_match_fields

unfoldable pub validate_industry_scope : OverrideRuleDraft → Check
validate_industry_scope d = do
  raise_if (if is_given d.match_industry_code then false else true) industry_code_missing
  raise_if (is_given d.match_cik) industry_has_cik

unfoldable pub validate_company_scope : OverrideRuleDraft → Check
validate_company_scope d =
    raise_if (if is_given d.match_cik then false else true) company_cik_missing

unfoldable pub validate_analyst_scope : OverrideRuleDraft → Check
validate_analyst_scope d =
    raise_if (if is_given d.match_analyst_id then false else true) analyst_id_missing

abbrev pub has_target : OverrideRuleDraft → Bool
has_target d = elim d.target_metric [ none ↦ false | some m ↦ true ]

abbrev validate_scope : OverrideScope → OverrideRuleDraft → Check
unfolding validate_global_scope validate_industry_scope validate_company_scope
    validate_analyst_scope
validate_scope global d = validate_global_scope d
validate_scope industry d = validate_industry_scope d
validate_scope company d = validate_company_scope d
validate_scope analyst d = validate_analyst_scope d

unfoldable pub validate_scope_constraints : OverrideRuleDraft → Check
unfolding validate_scope
validate_scope_constraints d = do
  validate_scope d.scope d
  raise_if (d.is_suppression && has_target d) suppression_has_target

abbrev pub is_blank : Text → Bool
is_blank s = is_empty s || is_empty (strip s)

-- The loop of `_validate_match_dimensions` over the items.
unfoldable pub validate_match_dimensions : Dict Text Text → Check
validate_match_dimensions [] = ok tt
validate_match_dimensions ((k, v) ∷ dims) = do
  raise_if (is_blank k) blank_dimension_key
  raise_if (is_blank v) blank_dimension_value
  validate_match_dimensions dims

unfoldable pub validate_priority : OverrideRuleDraft → Check
validate_priority d = raise_if (ltb_ℤ d.priority (pos 0)) negative_priority

unfoldable pub validate_for_create : OverrideRuleDraft → Check
unfolding validate_scope_constraints validate_match_dimensions validate_priority
validate_for_create d = do
  validate_scope_constraints d
  validate_match_dimensions d.match_dimensions
  validate_priority d

unfoldable pub validate_for_update : OverrideRuleVersion → OverrideRuleDraft → Check
unfolding validate_scope_constraints validate_match_dimensions validate_priority
validate_for_update existing d = do
  validate_scope_constraints d
  validate_match_dimensions d.match_dimensions
  validate_priority d

unfoldable pub validate_for_deprecate : OverrideRuleVersion → Check
validate_for_deprecate existing = ok tt

-- The rule that the engine is given for a stored draft.
abbrev pub rule_of : Text → OverrideRuleDraft → MappingOverrideRule
rule_of id d = record {
  rule_id = id;
  scope = d.scope;
  source_concept = d.source_concept;
  source_taxonomy = d.source_taxonomy;
  match_cik = d.match_cik;
  match_industry_code = d.match_industry_code;
  match_analyst_id = d.match_analyst_id;
  match_dimensions = d.match_dimensions;
  target_metric = d.target_metric;
  is_suppression = d.is_suppression;
  priority = d.priority;
}
