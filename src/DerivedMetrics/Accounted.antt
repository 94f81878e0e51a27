-- ===== src/DerivedMetrics/Accounted.antt =====
-- The loop of the engine against a description metric by metric.
use arche_api.Base.{
  ℕ, ◌≡◌, refl, sym, ap, ◌∙◌, Option, none, some, List, [], ◌∷◌, ◌++◌, if◌then◌else◌, any, ◌==◌,
  append_assoc, append-nil, Bool-cases, inl, inr,
}
use arche_api.Base.Dict.{lookup, lookup-insert}
use arche_api.Base.Results.{Result, ok, err}
use arche_api.Decimal.{Decimal}
use arche_api.Entities.{CanonicalStatementPayload}
use arche_api.DerivedMetrics.Metric.{DerivedMetric, derived_metric_eq, derived_metric_beq_iff}
use arche_api.DerivedMetrics.Types.{MetricFailure, MetricContext, DerivedMetricsResult}
use arche_api.DerivedMetrics.Specs.{specs}
use arche_api.DerivedMetrics.Engine.{
  compute_metric, record_outcome, compute_each, requested, compute,
}

abbrev pub value_of : Result MetricFailure Decimal → Option Decimal
value_of (ok value) = some value
value_of (err f) = none

abbrev pub failures_with : Result MetricFailure Decimal → List MetricFailure → List MetricFailure
failures_with (ok value) rest = rest
failures_with (err f) rest = f ∷ rest

-- A success replaces the older value, if there is one.
abbrev pub over : Result MetricFailure Decimal → Option Decimal → Option Decimal
over (ok value) old = some value
over (err f) old = old

over_self :
    (o : Result MetricFailure Decimal) (old : Option Decimal) → over o (over o old) ≡ over o old
over_self (ok value) old = refl
over_self (err f) old = refl

lookup-record_outcome :
    (metric m : DerivedMetric) (o : Result MetricFailure Decimal) (r : DerivedMetricsResult)
    → lookup metric (record_outcome m o r).values
      ≡ (if metric == m then over o (lookup metric r.values) else lookup metric r.values)
lookup-record_outcome metric m (ok value) r = lookup-insert metric m value r.values
lookup-record_outcome metric m (err f) r = elim (Bool-cases (metric == m)) [
  | inl h ↦ rw h refl
  | inr h ↦ rw h refl
]

module _ (prec : ℕ) (ctx : MetricContext) where
  abbrev pub outcome : DerivedMetric → Result MetricFailure Decimal
  outcome metric = compute_metric metric (specs prec metric) ctx

  -- The failures of the metrics, in their order.
  abbrev pub expected_failures : List DerivedMetric → List MetricFailure
  expected_failures [] = []
  expected_failures (metric ∷ rest) = failures_with (outcome metric) (expected_failures rest)

  -- The values of a result hold exactly the successful ones among the metrics, over older values.
  abbrev pub expected_value : DerivedMetric → List DerivedMetric → Option Decimal → Option Decimal
  expected_value metric metrics old =
      if any (λ m. metric == m) metrics then over (outcome metric) old else old

  failures-append :
      (o : Result MetricFailure Decimal) (metric : DerivedMetric) (r : DerivedMetricsResult)
      (rest : List MetricFailure)
      → (record_outcome metric o r).failures ++ rest ≡ r.failures ++ failures_with o rest
  failures-append (ok value) metric r rest = refl
  failures-append (err f) metric r rest = append_assoc r.failures (f ∷ []) rest

  compute_each-failures :
      (metrics : List DerivedMetric) (r : DerivedMetricsResult)
      → (compute_each prec ctx metrics r).failures ≡ r.failures ++ expected_failures metrics
  unfolding compute_each
  compute_each-failures [] r = sym (append-nil r.failures)
  compute_each-failures (metric ∷ rest) r =
      compute_each-failures rest (record_outcome metric (outcome metric) r)
      ∙ failures-append (outcome metric) metric r (expected_failures rest)

  expected_value-cons :
      (metric m : DerivedMetric) (rest : List DerivedMetric) (old : Option Decimal)
      → expected_value metric rest (if metric == m then over (outcome m) old else old)
        ≡ expected_value metric (m ∷ rest) old
  expected_value-cons metric m rest old = elim (Bool-cases (metric == m)) [
    | inl h ↦
        (let same : metric ≡ m = (derived_metric_beq_iff metric m).0 h in
          elim (Bool-cases (any (λ k. metric == k) rest)) [
            | inl k ↦ rw (h, k) (rw (← same) (over_self (outcome metric) old))
            | inr k ↦ rw (h, k) (rw (← same) refl)
          ])
    | inr h ↦ rw h refl
  ]

  compute_each-values :
      (metric : DerivedMetric) (metrics : List DerivedMetric) (r : DerivedMetricsResult)
      → lookup metric (compute_each prec ctx metrics r).values
        ≡ expected_value metric metrics (lookup metric r.values)
  unfolding compute_each
  compute_each-values metric [] r = refl
  compute_each-values metric (m ∷ rest) r =
      compute_each-values metric rest (record_outcome m (outcome m) r)
      ∙ ap (expected_value metric rest) (lookup-record_outcome metric m (outcome m) r)
      ∙ expected_value-cons metric m rest (lookup metric r.values)

-- The failures of a result are those of the requested metrics, in the order of the request, and a
-- metric has a value exactly if it is requested and succeeds, and then that value.
pub compute-accounted :
    (prec : ℕ) (payload : CanonicalStatementPayload) (history : List CanonicalStatementPayload)
    (metrics : Option (List DerivedMetric))
    → let ctx : MetricContext = record { payload = payload; history = history } in
      let result = compute prec payload history metrics in
      (result.failures ≡ expected_failures prec ctx (requested metrics))
      × ((metric : DerivedMetric)
          → lookup metric result.values ≡ expected_value prec ctx metric (requested metrics) none)
unfolding compute
compute-accounted prec payload history metrics =
    let ctx : MetricContext = record { payload = payload; history = history } in
    (
      compute_each-failures prec ctx (requested metrics) (record { values = []; failures = [] }),
      λ metric.
          compute_each-values prec ctx metric (requested metrics)
            (record { values = []; failures = [] }),
    )
