-- ===== src/DerivedMetrics/Required.antt =====
-- Inputs that the engine asks for before it looks at a formula.
use arche_api.Base.{
  ℕ, ◌≡◌, refl, false, none, some, List, [], ◌∷◌, any, filter-In, ◌==◌, In, inl, inr, Bool-cases,
}
use arche_api.Base.Results.{err}
use arche_api.Entities.{CanonicalStatementMetric, metric_eq, statement_type_eq}
use arche_api.DerivedMetrics.Metric.{DerivedMetric}
use arche_api.DerivedMetrics.Types.{
  MetricFailure, MetricContext, DerivedMetricSpec, missing_input, unsupported_statement_type,
  missing_inputs,
}
use arche_api.DerivedMetrics.Division.{get_core_metric}
use arche_api.DerivedMetrics.Specs.{specs}
use arche_api.DerivedMetrics.Engine.{
  failure, compute_metric, inputs_missing, is_missing, is_empty_list,
}

is_empty_list-In : {A : Type 0} (a : A) (xs : List A) → In a xs → is_empty_list xs ≡ false
is_empty_list-In a [] i = absurd i
is_empty_list-In a (x ∷ xs) i = refl

-- A metric fails with MISSING_INPUT if one of its required inputs is not in the payload, whatever else
-- the payload holds.
compute_metric-missing :
    (prec : ℕ) (ctx : MetricContext) (metric : DerivedMetric) (spec : DerivedMetricSpec)
    (m : CanonicalStatementMetric)
    → specs prec metric ≡ some spec
    → In m spec.required_inputs
    → get_core_metric ctx.payload m ≡ none
    → (f : MetricFailure) × (compute_metric metric (specs prec metric) ctx ≡ err f)
      × (f.metric ≡ metric)
      × (f.reason ≡ missing_input)
unfolding compute_metric
compute_metric-missing prec ctx metric spec m e i h =
    rw e
      (elim (Bool-cases
        (any (λ s. ctx.payload.statement_type == s) spec.required_statement_types)) [
          | inr a ↦ (
            failure metric missing_input (unsupported_statement_type ctx.payload.statement_type),
            rw a refl,
            refl,
            refl,
          )
          | inl a ↦ (
            failure metric missing_input (missing_inputs (inputs_missing spec ctx.payload)),
            rw (a, some_missing) refl,
            refl,
            refl,
          )
        ])
  where
    some_missing : is_empty_list (inputs_missing spec ctx.payload) ≡ false
    some_missing =
        is_empty_list-In m (inputs_missing spec ctx.payload)
          (filter-In (is_missing ctx.payload) m spec.required_inputs i (rw (h, is_missing) refl))
