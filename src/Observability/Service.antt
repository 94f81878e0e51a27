-- ===== src/Observability/Service.antt =====
-- `XBRLOverrideObservabilityService` with the value objects of
-- domain/entities/xbrl_override_observability.py.
use arche_api.Base.{ℕ, ◌+◌, Bool, true, false, not, Option, none, some, List, [], ◌∷◌, ◌==◌}
use arche_api.Base.Int.{ℤ}
use arche_api.Base.Text.{Text}
use arche_api.Base.Dict.{Dict, insert}
use arche_api.Base.Results.{Result, ok, err, ◌>>=◌}
use arche_api.Entities.{CanonicalStatementMetric, metric_eq, StatementType, FiscalPeriod}
use arche_api.Overrides.{
  MappingOverrideRule, OverrideScope, OverrideDecision, OverrideTrace, FactContext,
}
use arche_api.Overrides.Engine.{apply}
use arche_api.Normalization.Types.{EdgarFact, NormalizationContext, NormalizationError, type_error}
use arche_api.Normalization.Registry.{canonical_metric_registry}
use arche_api.Normalization.Choice.{index_by_concept, candidates_of, choose_fact}
use arche_api.Normalization.Engine.{fact_context}

pub record OverrideTraceEntry : Type 0 where
  pub rule_id : Text
  pub scope : Option OverrideScope
  pub matched : Bool
  pub is_suppression : Bool
  pub base_metric : CanonicalStatementMetric
  pub final_metric : Option CanonicalStatementMetric
  pub match_dimensions : Dict Text Text
  pub match_cik : Option Text
  pub match_industry_code : Option Text
  pub match_analyst_id : Option Text
  pub priority : ℤ

pub record EffectiveOverrideDecisionSummary : Type 0 where
  pub base_metric : CanonicalStatementMetric
  pub final_metric : Option CanonicalStatementMetric
  pub applied_rule_id : Option Text
  pub applied_scope : Option OverrideScope
  pub is_suppression : Bool

-- The counts and maps that the loop changes.
pub record Observed : Type 0 where
  pub suppression_count : ℕ
  pub remap_count : ℕ
  pub per_metric_decisions : Dict CanonicalStatementMetric EffectiveOverrideDecisionSummary
  pub per_metric_traces : Dict CanonicalStatementMetric (List OverrideTraceEntry)

pub record StatementOverrideObservability : Type 0 where
  pub cik : Text
  pub statement_type : StatementType
  pub fiscal_year : ℤ
  pub fiscal_period : FiscalPeriod
  pub version_sequence : ℤ
  pub observed : Observed

-- The collaborator: its `apply` (`decide` here), and what the loop over `getattr(raw_trace, "entries", raw_trace)` reads
-- from one of its traces.
pub record OverrideEngine : Type 1 where
  pub Trace : Type 0
  pub decide : FactContext → List MappingOverrideRule → Bool → OverrideDecision × Option Trace
  pub entries : Trace → Result NormalizationError (List OverrideTraceEntry)

-- `XBRLMappingOverrideEngine()`: an `OverrideTrace` has no attribute `entries` and is no iterable.
abbrev pub default_engine : OverrideEngine
default_engine = record { Trace = OverrideTrace; decide = apply; entries = λ trace. err type_error }

abbrev pub nothing_observed : Observed
nothing_observed = record {
  suppression_count = 0;
  remap_count = 0;
  per_metric_decisions = [];
  per_metric_traces = [];
}

-- `_select_fact_for_metric`
abbrev pub select_fact_for_metric :
    Text
    → List Text
    → (Text → List EdgarFact)
    → Result NormalizationError (Option (EdgarFact × Text))
select_fact_for_metric currency [] facts_of = ok none
select_fact_for_metric currency (concept ∷ concepts) facts_of =
    choose_fact currency (facts_of concept) >>= λ choice. elim choice [
      | none ↦ select_fact_for_metric currency concepts facts_of
      | some chosen ↦ ok (some (chosen, concept))
    ]

abbrev pub is_suppressed : OverrideDecision → Bool
is_suppressed decision = elim decision.final_metric [ none ↦ true | some metric ↦ false ]

abbrev pub is_remapped : CanonicalStatementMetric → OverrideDecision → Bool
is_remapped registry_metric decision = elim decision.final_metric [
  | none ↦ false
  | some metric ↦ not (metric == registry_metric)
]

abbrev pub one_if : Bool → ℕ
one_if true = 1
one_if false = 0

abbrev pub summary_of :
    CanonicalStatementMetric → OverrideDecision → EffectiveOverrideDecisionSummary
summary_of registry_metric decision = record {
  base_metric = registry_metric;
  final_metric = decision.final_metric;
  applied_rule_id = decision.applied_rule_id;
  applied_scope = decision.applied_scope;
  is_suppression = is_suppressed decision;
}

-- What the loop adds for one metric.
abbrev pub add_observed :
    CanonicalStatementMetric → OverrideDecision → List OverrideTraceEntry → Observed → Observed
add_observed registry_metric decision trace observed = record {
  suppression_count = observed.suppression_count + one_if (is_suppressed decision);
  remap_count = observed.remap_count + one_if (is_remapped registry_metric decision);
  per_metric_decisions =
      insert registry_metric (summary_of registry_metric decision) observed.per_metric_decisions;
  per_metric_traces = insert registry_metric trace observed.per_metric_traces;
}

module _ (engine : OverrideEngine) (context : NormalizationContext) where
  -- The entries of a trace, none where there is no trace.
  abbrev pub trace_of : Option engine.Trace → Result NormalizationError (List OverrideTraceEntry)
  trace_of none = ok []
  trace_of (some raw_trace) = engine.entries raw_trace

  abbrev pub facts_of : Text → List EdgarFact
  facts_of concept = candidates_of concept (index_by_concept context.facts [])

  -- `_evaluate_overrides_for_fact`: the decision with the entries of its trace.
  unfoldable pub evaluate_overrides_for_fact :
      CanonicalStatementMetric
      → Text
      → EdgarFact
      → Result NormalizationError (OverrideDecision × List OverrideTraceEntry)
  evaluate_overrides_for_fact registry_metric concept fact =
      let (decision, raw_trace) =
        engine.decide (fact_context context registry_metric concept fact) context.override_rules
          true in
      trace_of raw_trace >>= λ trace. ok (decision, trace)

  abbrev pub inspect_chosen :
      CanonicalStatementMetric
      → Option (EdgarFact × Text)
      → Observed
      → Result NormalizationError Observed
  inspect_chosen registry_metric none observed = ok observed
  inspect_chosen registry_metric (some (chosen, concept)) observed =
      evaluate_overrides_for_fact registry_metric concept chosen >>= λ result.
      ok (add_observed registry_metric result.0 result.1 observed)

  -- The loop over the registry.
  abbrev pub inspect_each :
      Dict CanonicalStatementMetric (List Text) → Observed → Result NormalizationError Observed
  inspect_each [] observed = ok observed
  inspect_each ((registry_metric, concepts) ∷ rest) observed =
      select_fact_for_metric context.currency concepts facts_of >>= λ choice.
      (inspect_chosen registry_metric choice observed >>= λ now. inspect_each rest now)

  abbrev pub observability_of : Observed → StatementOverrideObservability
  observability_of observed = record {
    cik = context.cik;
    statement_type = context.statement_type;
    fiscal_year = context.fiscal_year;
    fiscal_period = context.fiscal_period;
    version_sequence = context.version_sequence;
    observed = observed;
  }

  unfoldable pub inspect_overrides : Result NormalizationError StatementOverrideObservability
  inspect_overrides = elim context.override_rules [
    | [] ↦ ok (observability_of nothing_observed)
    | r ∷ rs ↦ inspect_each canonical_metric_registry nothing_observed >>= λ observed.
        ok (observability_of observed)
  ]
