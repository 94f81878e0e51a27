-- ===== src/DerivedMetrics/Ratios.antt =====
-- The metrics that are one input divided by another.
use arche_api.Base.{
  ℕ, ◌≡◌, refl, ◌↔◌, sym, ◌∙◌, Bool, true, false, Option, none, some, List, [], ◌∷◌, if◌then◌else◌,
  any, ◌==◌, filter, arith,
}
use arche_api.Base.Results.{ok, err, ◌>>=◌}
use arche_api.Decimal.{Decimal, decimal_zero, decimal_beq, decimal_ltb, abs, div}
use arche_api.Entities.{
  CanonicalStatementMetric, StatementType, metric_eq, statement_type_eq, income_statement,
  balance_sheet, revenue, gross_profit, operating_income, net_income, total_equity, total_assets,
}
use arche_api.DerivedMetrics.Metric.{
  DerivedMetric, gross_margin, operating_margin, net_margin, roe, roa,
}
use arche_api.DerivedMetrics.Types.{
  MetricContext, DerivedMetricSpec, zero_denominator_error, negative_denominator_guard_error,
}
use arche_api.DerivedMetrics.Division.{
  get_core_metric, require, decimal_epsilon, quantize_ratio, safe_divide,
}
use arche_api.DerivedMetrics.Formulas.{quantized}
use arche_api.DerivedMetrics.Specs.{
  specs, gross_margin_spec, operating_margin_spec, net_margin_spec, roe_spec, roa_spec,
}
use arche_api.DerivedMetrics.Engine.{compute_metric, inputs_missing, is_missing}

-- A plain ratio with its numerator, its denominator and the statements that it is for.
pub data IsRatio
    : DerivedMetric
      → CanonicalStatementMetric
      → CanonicalStatementMetric
      → List StatementType
      → Type 0 where
  gross : IsRatio gross_margin gross_profit revenue (income_statement ∷ [])
  operating : IsRatio operating_margin operating_income revenue (income_statement ∷ [])
  net : IsRatio net_margin net_income revenue (income_statement ∷ [])
  on_equity : IsRatio roe net_income total_equity (balance_sheet ∷ income_statement ∷ [])
  on_assets : IsRatio roa net_income total_assets (balance_sheet ∷ income_statement ∷ [])

-- Two guards, and what comes after them.
guarded_iff :
    (zero_test tiny_test : Bool) (w : Decimal) (q : Decimal → Decimal) (v : Decimal)
    → ((if zero_test
            then err zero_denominator_error
            else if tiny_test
            then err negative_denominator_guard_error
            else ok w)
          >>= (λ r. ok (q r)))
        ≡ ok v
      ↔ ((zero_test ≡ false) × (tiny_test ≡ false) × (v ≡ q w))
guarded_iff true tiny_test w q v = ground arith
guarded_iff false true w q v = ground arith
guarded_iff false false w q v = ground arith

module _ (prec : ℕ) (ctx : MetricContext) where
  abbrev pub IsQuotient : Option Decimal → Option Decimal → Decimal → Type 0
  IsQuotient numerator denominator v =
      (a : Decimal) × (b : Decimal) × (numerator ≡ some a)
      × (denominator ≡ some b)
      × (decimal_beq b decimal_zero ≡ false)
      × (decimal_ltb (abs prec b) decimal_epsilon ≡ false)
      × (v ≡ quantize_ratio prec (div prec a b))

  pub quantized_iff :
      (a b : Option Decimal) (v : Decimal) → (quantized prec a b ≡ ok v) ↔ IsQuotient a b v
  unfolding quantized safe_divide
  quantized_iff none b v = ground arith
  quantized_iff (some a) none v = ground arith
  quantized_iff (some a) (some b) v =
      let same =
        guarded_iff (decimal_beq b decimal_zero) (decimal_ltb (abs prec b) decimal_epsilon)
          (div prec a b) (quantize_ratio prec) v in
      (
        λ h. (let (p, q, r) = same.0 h in (a, b, refl, refl, p, q, r)),
        λ (c, d, e, f, p, q, r). same.1 (cc, cc, cc),
      )

  compute_metric_iff :
      (metric : DerivedMetric) (spec : DerivedMetricSpec) (v : Decimal)
      → spec.history_periods ≡ none
      → (compute_metric metric (some spec) ctx ≡ ok v) ↔ (
          (any (λ s. ctx.payload.statement_type == s) spec.required_statement_types ≡ true)
          × (inputs_missing spec ctx.payload ≡ [])
          × (spec.formula ctx ≡ ok v))
  unfolding compute_metric
  compute_metric_iff metric spec v h = ground arith

  is_missing-false :
      (m : CanonicalStatementMetric) (a : Decimal)
      → get_core_metric ctx.payload m ≡ some a
      → is_missing ctx.payload m ≡ false
  is_missing-false m a h = rw (h, is_missing) refl

  none_missing :
      (m n : CanonicalStatementMetric) (a b : Decimal)
      → get_core_metric ctx.payload m ≡ some a
      → get_core_metric ctx.payload n ≡ some b
      → filter (is_missing ctx.payload) (m ∷ n ∷ []) ≡ []
  none_missing m n a b h k = rw (is_missing-false m a h, is_missing-false n b k) refl

  -- Asking for both inputs first changes nothing.
  required_quantized :
      (a b : Option Decimal)
      → (require a >>= λ x. require b >>= λ y. quantized prec (some x) (some y))
        ≡ quantized prec a b
  unfolding quantized safe_divide
  required_quantized none b = refl
  required_quantized (some a) none = refl
  required_quantized (some a) (some b) = refl

  ratio_spec_iff :
      (metric : DerivedMetric) (spec : DerivedMetricSpec)
      (numerator denominator : CanonicalStatementMetric) (v : Decimal)
      → spec.history_periods ≡ none
      → ((a b : Decimal)
          → get_core_metric ctx.payload numerator ≡ some a
          → get_core_metric ctx.payload denominator ≡ some b
          → inputs_missing spec ctx.payload ≡ [])
      → (spec.formula ctx
          ≡ quantized prec
              (get_core_metric ctx.payload numerator)
              (get_core_metric ctx.payload denominator))
      → (compute_metric metric (some spec) ctx ≡ ok v) ↔ (
          (any (λ s. ctx.payload.statement_type == s) spec.required_statement_types ≡ true)
          × IsQuotient
              (get_core_metric ctx.payload numerator)
              (get_core_metric ctx.payload denominator)
              v)
  ratio_spec_iff metric spec numerator denominator v none_needed inputs formula =
      let run = compute_metric_iff metric spec v none_needed in
      let quotient =
        quantized_iff (get_core_metric ctx.payload numerator)
          (get_core_metric ctx.payload denominator) v in
      (
        λ h. (let (s, i, f) = run.0 h in (s, quotient.0 (sym formula ∙ f))),
        λ (s, q). run.1 (s, inputs q.0 q.1 q.2 q.3, formula ∙ quotient.1 q),
      )

  -- For the margins, the return on equity and the return on assets: the engine gives a value exactly
  -- when the statement type is one of the ratio's, both inputs are there, and the denominator is
  -- neither zero nor below 1e-9 in magnitude; and the value is the quantized quotient.
  pub compute_metric-ratio_iff :
      (metric : DerivedMetric) (numerator denominator : CanonicalStatementMetric)
      (statements : List StatementType) (v : Decimal)
      → IsRatio metric numerator denominator statements
      → (compute_metric metric (specs prec metric) ctx ≡ ok v) ↔ (
          (any (λ s. ctx.payload.statement_type == s) statements ≡ true)
          × IsQuotient
              (get_core_metric ctx.payload numerator)
              (get_core_metric ctx.payload denominator)
              v)
  compute_metric-ratio_iff _ _ _ _ v gross =
      ratio_spec_iff gross_margin (gross_margin_spec prec) gross_profit revenue v refl
        (λ a b h k. none_missing revenue gross_profit b a k h) refl
  compute_metric-ratio_iff _ _ _ _ v operating =
      ratio_spec_iff operating_margin (operating_margin_spec prec) operating_income revenue v refl
        (λ a b h k. none_missing revenue operating_income b a k h) refl
  compute_metric-ratio_iff _ _ _ _ v net =
      ratio_spec_iff net_margin (net_margin_spec prec) net_income revenue v refl
        (λ a b h k. none_missing revenue net_income b a k h) refl
  compute_metric-ratio_iff _ _ _ _ v on_equity =
      ratio_spec_iff roe (roe_spec prec) net_income total_equity v refl
        (none_missing net_income total_equity) (required_quantized _ _)
  compute_metric-ratio_iff _ _ _ _ v on_assets =
      ratio_spec_iff roa (roa_spec prec) net_income total_assets v refl
        (none_missing net_income total_assets) (required_quantized _ _)
