-- ===== src/DerivedMetrics/Engine.antt =====
-- `DerivedMetricsEngine`.
use arche_api.Base.{
  ℕ, Bool, true, false, not, ◌&&◌, Option, none, some, List, [], ◌∷◌, ◌++◌, if◌then◌else◌, ltb,
  length, filter, any, ◌==◌,
}
use arche_api.Base.Dict.{insert}
use arche_api.Base.Results.{Result, ok, err}
use arche_api.Decimal.{Decimal}
use arche_api.Entities.{
  CanonicalStatementMetric, CanonicalStatementPayload, statement_type_eq, metric_eq,
}
use arche_api.DerivedMetrics.Metric.{DerivedMetric, derived_metric_eq, all_derived_metrics}
use arche_api.DerivedMetrics.Types.{
  MetricFailureReason, missing_input, zero_denominator, negative_denominator_guard,
  invalid_operation, other, DerivedMetricError, missing_input_error, insufficient_history_error,
  zero_denominator_error, negative_denominator_guard_error, invalid_operation_error, overflow_error,
  type_error, not_registered, unsupported_statement_type, missing_inputs, short_history, raised,
  MetricFailureDetails, MetricFailure, MetricContext, DerivedMetricSpec, DerivedMetricsResult,
}
use arche_api.DerivedMetrics.Division.{get_core_metric}
use arche_api.DerivedMetrics.Specs.{specs}

abbrev pub failure : DerivedMetric → MetricFailureReason → MetricFailureDetails → MetricFailure
failure metric reason details = record { metric = metric; reason = reason; details = details }

-- The `except` clauses.
abbrev pub reason_of : DerivedMetricError → MetricFailureReason
reason_of missing_input_error = missing_input
reason_of insufficient_history_error = missing_input
reason_of zero_denominator_error = zero_denominator
reason_of negative_denominator_guard_error = negative_denominator_guard
reason_of invalid_operation_error = invalid_operation
reason_of overflow_error = other
reason_of type_error = other

-- The call of the formula in the `try`.
abbrev pub formula_result :
    DerivedMetric → Result DerivedMetricError Decimal → Result MetricFailure Decimal
formula_result metric (ok value) = ok value
formula_result metric (err exc) = err (failure metric (reason_of exc) (raised exc))

abbrev pub is_missing : CanonicalStatementPayload → CanonicalStatementMetric → Bool
is_missing payload m = elim (get_core_metric payload m) [ none ↦ true | some _ ↦ false ]

-- `spec.window_requirements.get("history_periods", 0)`
abbrev pub history_required : DerivedMetricSpec → ℕ
history_required spec = elim spec.history_periods [ none ↦ 0 | some n ↦ n ]

abbrev pub inputs_missing :
    DerivedMetricSpec → CanonicalStatementPayload → List CanonicalStatementMetric
inputs_missing spec payload = filter (is_missing payload) spec.required_inputs

abbrev pub is_empty_list {ℓ} : {A : Type ℓ} → List A → Bool
is_empty_list [] = true
is_empty_list (x ∷ xs) = false

-- `_compute_metric`: a value or a failure.
unfoldable pub compute_metric :
    DerivedMetric → Option DerivedMetricSpec → MetricContext → Result MetricFailure Decimal
compute_metric metric none ctx = err (failure metric other not_registered)
compute_metric metric (some spec) ctx =
    if not (any (λ s. ctx.payload.statement_type == s) spec.required_statement_types)
    then err (failure metric missing_input (unsupported_statement_type ctx.payload.statement_type))
    else if not (is_empty_list (inputs_missing spec ctx.payload))
    then err (failure metric missing_input (missing_inputs (inputs_missing spec ctx.payload)))
    else if ltb 0 (history_required spec) && ltb (length ctx.history) (history_required spec)
    then err
        (failure metric missing_input (short_history (history_required spec) (length ctx.history)))
    else formula_result metric (spec.formula ctx)

-- The body of the loop of `compute`.
abbrev pub record_outcome :
    DerivedMetric → Result MetricFailure Decimal → DerivedMetricsResult → DerivedMetricsResult
record_outcome metric (ok value) r = record r { values = insert metric value r.values }
record_outcome metric (err f) r = record r { failures = r.failures ++ (f ∷ []) }

unfoldable pub compute_each :
    ℕ → MetricContext → List DerivedMetric → DerivedMetricsResult → DerivedMetricsResult
unfolding compute_metric
compute_each prec ctx [] r = r
compute_each prec ctx (metric ∷ rest) r =
    compute_each prec ctx rest
      (record_outcome metric (compute_metric metric (specs prec metric) ctx) r)

abbrev pub requested : Option (List DerivedMetric) → List DerivedMetric
requested none = all_derived_metrics
requested (some metrics) = metrics

-- `compute`
unfoldable pub compute :
    ℕ
    → CanonicalStatementPayload
    → List CanonicalStatementPayload
    → Option (List DerivedMetric)
    → DerivedMetricsResult
unfolding compute_each
compute prec payload history metrics =
    compute_each prec (record { payload = payload; history = history }) (requested metrics)
      (record { values = []; failures = [] })
