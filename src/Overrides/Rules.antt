-- ===== src/Overrides/Rules.antt =====
-- The value objects of domain/services/xbrl_mapping_overrides.py.
use arche_api.Base.{ℕ, ◌≡◌, ◌↔◌, Bool, true, Option, List, arith, Eq, eqb}
use arche_api.Base.Int.{ℤ}
use arche_api.Base.Text.{Text}
use arche_api.Base.Dict.{Dict}
use arche_api.Entities.{CanonicalStatementMetric}

pub data OverrideScope : Type 0 where
  global industry company analyst : OverrideScope

-- GLOBAL < INDUSTRY < COMPANY < ANALYST: the values that `auto()` gives.
abbrev pub scope_rank : OverrideScope → ℕ
scope_rank global = 1
scope_rank industry = 2
scope_rank company = 3
scope_rank analyst = 4

abbrev pub scope_beq : OverrideScope → OverrideScope → Bool
scope_beq a b = eqb (scope_rank a) (scope_rank b)

pub scope_beq_iff : (a b : OverrideScope) → (scope_beq a b ≡ true) ↔ (a ≡ b)
scope_beq_iff a b = ground arith

instance abbrev pub scope_eq : Eq OverrideScope
scope_eq = record { test = scope_beq; test_iff = scope_beq_iff }

pub record MappingOverrideRule : Type 0 where
  pub rule_id : Text
  pub scope : OverrideScope
  pub source_concept : Text
  pub source_taxonomy : Option Text
  pub match_cik : Option Text
  pub match_industry_code : Option Text
  pub match_analyst_id : Option Text
  pub match_dimensions : Dict Text Text
  pub target_metric : Option CanonicalStatementMetric
  pub is_suppression : Bool
  pub priority : ℤ

pub record OverrideDecision : Type 0 where
  pub base_metric : Option CanonicalStatementMetric
  pub final_metric : Option CanonicalStatementMetric
  pub applied_scope : Option OverrideScope
  pub applied_rule_id : Option Text
  pub was_overridden : Bool

pub record RuleTraceEntry : Type 0 where
  pub rule_id : Text
  pub scope : OverrideScope
  pub matched : Bool
  pub reason : Option Text

-- The arguments of `apply` that describe the fact.
pub record FactContext : Type 0 where
  pub concept : Text
  pub taxonomy : Text
  pub fact_dimensions : Dict Text Text
  pub cik : Text
  pub industry_code : Option Text
  pub analyst_id : Option Text
  pub base_metric : Option CanonicalStatementMetric

pub record OverrideTrace : Type 0 where
  pub fact : FactContext
  pub decision : OverrideDecision
  pub considered_rules : List RuleTraceEntry
