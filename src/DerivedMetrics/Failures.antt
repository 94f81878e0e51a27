-- ===== src/DerivedMetrics/Failures.antt =====
-- The failures that the engine can report.
use arche_api.Base.{
  ℕ, ◌≡◌, refl, ◌&&◌, Option, none, some, List, [], ◌∷◌, any, ◌==◌, ltb, length, filter, arith, All,
  Bool-cases, Option-cases, inl, inr, ◌⊎◌,
}
use arche_api.Base.Results.{Result, ok, err, ◌>>=◌}
use arche_api.Decimal.{Decimal, decimal_zero, decimal_beq, decimal_ltb, abs, div, add}
use arche_api.Entities.{
  CanonicalStatementMetric, CanonicalStatementPayload, metric_eq, statement_type_eq, revenue,
  diluted_eps, free_cash_flow,
}
use arche_api.DerivedMetrics.Metric.{
  DerivedMetric, gross_margin, operating_margin, net_margin, revenue_growth_yoy, revenue_growth_qoq,
  revenue_growth_ttm, eps_diluted_growth, ebitda, ebit, levered_free_cash_flow,
  unlevered_free_cash_flow, working_capital, debt_to_equity, interest_coverage, roe, roa, roic,
}
use arche_api.DerivedMetrics.Types.{
  MetricFailureDetails, not_registered, raised, type_error, DerivedMetricError, missing_input_error,
  insufficient_history_error, zero_denominator_error, negative_denominator_guard_error,
  MetricFailure, MetricContext, DerivedMetricSpec,
}
use arche_api.DerivedMetrics.Division.{get_core_metric, require, decimal_epsilon, safe_divide}
use arche_api.DerivedMetrics.Formulas.{
  quantized, require_prior, growth_over, sum_revenue, compute_ebit, compute_levered_free_cash_flow,
  compute_revenue_growth_ttm,
}
use arche_api.DerivedMetrics.Prior.{relevant_periods, select_prior_payload}
use arche_api.DerivedMetrics.Specs.{specs}
use arche_api.DerivedMetrics.Engine.{
  formula_result, history_required, requested, compute_metric, inputs_missing, is_missing, compute,
}
use arche_api.DerivedMetrics.Accounted.{
  expected_failures, outcome, failures_with, compute-accounted,
}

-- A result other than the type error.
data IsCaught {A : Type 0} : Result DerivedMetricError A → Type 0 where
  returned : (a : A) → IsCaught (ok a)
  no_input : IsCaught (err missing_input_error)
  no_history : IsCaught (err insufficient_history_error)
  zero : IsCaught (err zero_denominator_error)
  tiny : IsCaught (err negative_denominator_guard_error)

bind-IsCaught :
    {A B : Type 0} {m : Result DerivedMetricError A} {k : A → Result DerivedMetricError B}
    → IsCaught m
    → ((a : A) → IsCaught (k a))
    → IsCaught (m >>= k)
bind-IsCaught (returned a) h = h a
bind-IsCaught no_input h = no_input
bind-IsCaught no_history h = no_history
bind-IsCaught zero h = zero
bind-IsCaught tiny h = tiny

require-IsCaught : (o : Option Decimal) → IsCaught (require o)
require-IsCaught none = no_input
require-IsCaught (some v) = returned v

safe_divide-IsCaught : (prec : ℕ) (a b : Option Decimal) → IsCaught (safe_divide prec a b)
unfolding safe_divide
safe_divide-IsCaught prec none b = no_input
safe_divide-IsCaught prec (some a) none = no_input
safe_divide-IsCaught prec (some a) (some b) = elim (Bool-cases (decimal_beq b decimal_zero)) [
  | inl e ↦ rw e zero
  | inr e ↦ elim (Bool-cases (decimal_ltb (abs prec b) decimal_epsilon)) [
    | inl f ↦ rw (e, f) tiny
    | inr f ↦ rw (e, f) (returned (div prec a b))
  ]
]

quantized-IsCaught : (prec : ℕ) (a b : Option Decimal) → IsCaught (quantized prec a b)
unfolding quantized
quantized-IsCaught prec a b = bind-IsCaught (safe_divide-IsCaught prec a b) (λ r. returned _)

require_prior-IsCaught :
    (prec : ℕ) (ctx : MetricContext) (p : Option CanonicalStatementPayload)
    → IsCaught (require_prior prec ctx p)
require_prior-IsCaught prec ctx none = no_history
require_prior-IsCaught prec ctx (some p) = returned p

ruleset caught = (
  bind-IsCaught, require-IsCaught, safe_divide-IsCaught, quantized-IsCaught, require_prior-IsCaught,
  returned,
)

module _ (prec : ℕ) (ctx : MetricContext) where
  ebit-IsCaught : IsCaught (compute_ebit prec ctx)
  ebit-IsCaught = search caught

  growth_over-IsCaught :
      (metric : CanonicalStatementMetric) (selected : Option CanonicalStatementPayload)
      → (v : Decimal) × (get_core_metric ctx.payload metric ≡ some v)
      → IsCaught (growth_over prec ctx metric selected)
  growth_over-IsCaught metric selected (v, e) = rw (growth_over, e) (search caught)

  sum_revenue-IsCaught :
      (total : Decimal) (ps : List CanonicalStatementPayload)
      → IsCaught (sum_revenue prec ctx total ps)
  sum_revenue-IsCaught total [] = returned total
  sum_revenue-IsCaught total (p ∷ ps) =
      bind-IsCaught (require-IsCaught (get_core_metric p revenue))
        (λ rev. sum_revenue-IsCaught (add prec total rev) ps)

  ttm-IsCaught : IsCaught (compute_revenue_growth_ttm prec ctx)
  ttm-IsCaught = elim (Bool-cases (ltb (length (relevant_periods ctx)) 8)) [
    | inl e ↦ rw e no_history
    | inr e ↦ rw e (search (caught, sum_revenue-IsCaught))
  ]

  levered-IsCaught : IsCaught (compute_levered_free_cash_flow prec ctx)
  levered-IsCaught = elim (Option-cases (get_core_metric ctx.payload free_cash_flow)) [
    | inl e ↦ rw (e, compute_levered_free_cash_flow) (search caught)
    | inr (v, e) ↦ rw (e, compute_levered_free_cash_flow) (returned v)
  ]

  -- A metric that nothing is missing for is present.
  present :
      (metric : CanonicalStatementMetric)
      → filter (is_missing ctx.payload) (metric ∷ []) ≡ []
      → (v : Decimal) × (get_core_metric ctx.payload metric ≡ some v)
  present metric h = elim (Option-cases (get_core_metric ctx.payload metric)) [
    | inl e ↦ absurd (ground (arith, h, e))
    | inr p ↦ p
  ]

  -- The formula raises no type error where no required input is missing.
  abbrev IsChecked : Option DerivedMetricSpec → Type 0
  IsChecked none = ⊥
  IsChecked (some spec) = inputs_missing spec ctx.payload ≡ [] → IsCaught (spec.formula ctx)

  specs-IsChecked : (metric : DerivedMetric) → IsChecked (specs prec metric)
  specs-IsChecked gross_margin = λ h. search caught
  specs-IsChecked operating_margin = λ h. search caught
  specs-IsChecked net_margin = λ h. search caught
  specs-IsChecked revenue_growth_yoy =
      λ h. growth_over-IsCaught revenue (select_prior_payload ctx (some 1) none) (present revenue h)
  specs-IsChecked revenue_growth_qoq =
      λ h. growth_over-IsCaught revenue (select_prior_payload ctx none (some 1)) (present revenue h)
  specs-IsChecked revenue_growth_ttm = λ h. ttm-IsCaught
  specs-IsChecked eps_diluted_growth = λ h.
      growth_over-IsCaught diluted_eps (select_prior_payload ctx (some 1) none)
        (present diluted_eps h)
  specs-IsChecked ebitda = λ h. search caught
  specs-IsChecked ebit = λ h. search caught
  specs-IsChecked levered_free_cash_flow = λ h. levered-IsCaught
  specs-IsChecked unlevered_free_cash_flow = λ h. search caught depth 12
  specs-IsChecked working_capital = λ h. search caught
  specs-IsChecked debt_to_equity = λ h. search caught
  specs-IsChecked interest_coverage = λ h. search caught
  specs-IsChecked roe = λ h. search caught
  specs-IsChecked roa = λ h. search caught
  specs-IsChecked roic = λ h. search caught depth 12

List-cases : {A : Type 0} (xs : List A) → (xs ≡ []) ⊎ ((y : A) × (ys : List A) × (xs ≡ y ∷ ys))
List-cases [] = inl refl
List-cases (y ∷ ys) = inr (y, ys, refl)

-- Anything but a metric without a formula, and a formula that operated on None.
abbrev pub IsAnticipated : MetricFailureDetails → Type 0
IsAnticipated not_registered = ⊥
IsAnticipated (raised type_error) = ⊥
IsAnticipated _ = Unit

abbrev FailsWell : Result MetricFailure Decimal → Type 0
FailsWell (ok value) = Unit
FailsWell (err f) = IsAnticipated f.details

caught-FailsWell :
    (metric : DerivedMetric) (r : Result DerivedMetricError Decimal)
    → IsCaught r
    → FailsWell (formula_result metric r)
caught-FailsWell metric _ (returned a) = tt
caught-FailsWell metric _ no_input = tt
caught-FailsWell metric _ no_history = tt
caught-FailsWell metric _ zero = tt
caught-FailsWell metric _ tiny = tt

checked-FailsWell :
    (prec : ℕ) (ctx : MetricContext) (metric : DerivedMetric) (spec : Option DerivedMetricSpec)
    → IsChecked prec ctx spec
    → FailsWell (compute_metric metric spec ctx)
unfolding compute_metric
checked-FailsWell prec ctx metric none h = elim h [ ]
checked-FailsWell prec ctx metric (some spec) h =
    elim (Bool-cases (any (λ s. ctx.payload.statement_type == s) spec.required_statement_types)) [
      | inr a ↦ rw a tt
      | inl a ↦ elim (List-cases (inputs_missing spec ctx.payload)) [
        | inr (m, ms, b) ↦ rw (a, b) tt
        | inl b ↦
            elim (Bool-cases
              (ltb 0 (history_required spec) && ltb (length ctx.history) (history_required spec))) [
                | inl c ↦ rw (a, b, c) tt
                | inr c ↦ rw (a, b, c) (caught-FailsWell metric (spec.formula ctx) (h b))
              ]
      ]
    ]

failures_with-All :
    (o : Result MetricFailure Decimal) (rest : List MetricFailure)
    → FailsWell o
    → All (λ f. IsAnticipated f.details) rest
    → All (λ f. IsAnticipated f.details) (failures_with o rest)
failures_with-All (ok value) rest h k = k
failures_with-All (err f) rest h k = (h, k)

expected_failures-All :
    (prec : ℕ) (ctx : MetricContext) (metrics : List DerivedMetric)
    → All (λ f. IsAnticipated f.details) (expected_failures prec ctx metrics)
expected_failures-All prec ctx [] = tt
expected_failures-All prec ctx (metric ∷ rest) =
    failures_with-All (outcome prec ctx metric) (expected_failures prec ctx rest)
      (checked-FailsWell prec ctx metric (specs prec metric) (specs-IsChecked prec ctx metric))
      (expected_failures-All prec ctx rest)

-- Whatever is asked, every metric has a formula, and no formula operates on None (`TypeError`): where a
-- value that it does not test itself is missing, the check of the required inputs has failed before.
pub compute-IsAnticipated :
    (prec : ℕ) (payload : CanonicalStatementPayload) (history : List CanonicalStatementPayload)
    (metrics : Option (List DerivedMetric))
    → All (λ f. IsAnticipated f.details) (compute prec payload history metrics).failures
compute-IsAnticipated prec payload history metrics =
    rw (compute-accounted prec payload history metrics).0
      (expected_failures-All prec _ (requested metrics))
