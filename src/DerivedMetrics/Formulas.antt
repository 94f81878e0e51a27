-- ===== src/DerivedMetrics/Formulas.antt =====
-- The formulas of the derived metrics. The precision of the context is a parameter.
use arche_api.Base.{ℕ, Option, none, some, List, [], ◌∷◌, ltb, length}
use arche_api.Base.Results.{Result, ok, err, ◌>>=◌, ◌>>◌, raise_if}
use arche_api.Decimal.{Decimal, decimal_zero, add, sub, mul}
use arche_api.Entities.{
  CanonicalStatementMetric, CanonicalStatementPayload, metric_eq, revenue, gross_profit,
  operating_income, net_income, diluted_eps, income_before_tax, interest_expense, interest_income,
  depreciation_and_amortization_expense, free_cash_flow, net_cash_from_operating_activities,
  capital_expenditures, income_tax_expense, total_current_assets, total_current_liabilities,
  short_term_debt, current_portion_of_long_term_debt, long_term_debt, cash_and_cash_equivalents,
  total_equity, total_assets,
}
use arche_api.DerivedMetrics.Types.{MetricContext, DerivedMetricError, insufficient_history_error}
use arche_api.DerivedMetrics.Division.{
  get_core_metric, require, or_zero, minus, decimal_one, quantize_ratio, safe_divide,
}
use arche_api.DerivedMetrics.Prior.{select_prior_payload, relevant_periods, last_four, prior_four}

-- `ratio = _safe_divide(numerator, denominator)` and `return _quantize_ratio(ratio)`
unfoldable pub quantized : ℕ → Option Decimal → Option Decimal → Result DerivedMetricError Decimal
unfolding safe_divide quantize_ratio
quantized prec numerator denominator = do
  ratio ← safe_divide prec numerator denominator
  ok (quantize_ratio prec ratio)

module _ (prec : ℕ) (ctx : MetricContext) where
  abbrev core : CanonicalStatementMetric → Option Decimal
  core metric = get_core_metric ctx.payload metric

  -- `_gross_margin`, `_operating_margin` and `_net_margin`
  abbrev pub compute_gross_margin : Result DerivedMetricError Decimal
  compute_gross_margin = quantized prec (core gross_profit) (core revenue)

  abbrev pub compute_operating_margin : Result DerivedMetricError Decimal
  compute_operating_margin = quantized prec (core operating_income) (core revenue)

  abbrev pub compute_net_margin : Result DerivedMetricError Decimal
  compute_net_margin = quantized prec (core net_income) (core revenue)

  -- `if prior is None: raise InsufficientHistoryError(...)`
  abbrev pub require_prior :
      Option CanonicalStatementPayload → Result DerivedMetricError CanonicalStatementPayload
  require_prior none = err insufficient_history_error
  require_prior (some prior) = ok prior

  -- The growth of a metric over a prior payload.
  abbrev pub growth_over :
      CanonicalStatementMetric
      → Option CanonicalStatementPayload
      → Result DerivedMetricError Decimal
  growth_over metric selected = do
    prior ← require_prior selected
    prior_value ← require (get_core_metric prior metric)
    delta ← minus prec (core metric) prior_value
    quantized prec (some delta) (some prior_value)

  -- `_revenue_growth_yoy`, `_revenue_growth_qoq` and `_eps_diluted_growth`
  abbrev pub compute_revenue_growth_yoy : Result DerivedMetricError Decimal
  compute_revenue_growth_yoy = growth_over revenue (select_prior_payload ctx (some 1) none)

  abbrev pub compute_revenue_growth_qoq : Result DerivedMetricError Decimal
  compute_revenue_growth_qoq = growth_over revenue (select_prior_payload ctx none (some 1))

  abbrev pub compute_eps_diluted_growth : Result DerivedMetricError Decimal
  compute_eps_diluted_growth = growth_over diluted_eps (select_prior_payload ctx (some 1) none)

  -- A loop of `_revenue_growth_ttm` over one window.
  abbrev pub sum_revenue :
      Decimal → List CanonicalStatementPayload → Result DerivedMetricError Decimal
  sum_revenue total [] = ok total
  sum_revenue total (p ∷ ps) =
      require (get_core_metric p revenue) >>= λ rev. sum_revenue (add prec total rev) ps

  -- `_revenue_growth_ttm`
  abbrev pub compute_revenue_growth_ttm : Result DerivedMetricError Decimal
  compute_revenue_growth_ttm = do
    raise_if (ltb (length (relevant_periods ctx)) 8) insufficient_history_error
    current_ttm ← sum_revenue decimal_zero (last_four (relevant_periods ctx))
    prior_ttm ← sum_revenue decimal_zero (prior_four (relevant_periods ctx))
    quantized prec (some (sub prec current_ttm prior_ttm)) (some prior_ttm)

  -- `_ebit`
  abbrev pub compute_ebit : Result DerivedMetricError Decimal
  compute_ebit = do
    before_tax ← require (core income_before_tax)
    expense ← require (core interest_expense)
    income ← require (core interest_income)
    ok (sub prec (add prec before_tax expense) income)

  -- `_ebitda`
  abbrev pub compute_ebitda : Result DerivedMetricError Decimal
  compute_ebitda = do
    operating ← require (core operating_income)
    da ← require (core depreciation_and_amortization_expense)
    ok (add prec operating da)

  abbrev pub approximate_cash_flow : Result DerivedMetricError Decimal
  approximate_cash_flow = do
    cfo ← require (core net_cash_from_operating_activities)
    capex ← require (core capital_expenditures)
    ok (add prec cfo capex)

  -- `_levered_free_cash_flow`
  abbrev pub compute_levered_free_cash_flow : Result DerivedMetricError Decimal
  compute_levered_free_cash_flow = elim (core free_cash_flow) [
    | none ↦ approximate_cash_flow
    | some fcf ↦ ok fcf
  ]

  -- `nopat = ebit * (DECIMAL_ONE - tax_rate)`
  abbrev pub nopat_of : Decimal → Decimal → Decimal
  nopat_of ebit tax_rate = mul prec ebit (sub prec decimal_one tax_rate)

  -- `_unlevered_free_cash_flow`
  abbrev pub compute_unlevered_free_cash_flow : Result DerivedMetricError Decimal
  compute_unlevered_free_cash_flow = do
    ebit ← compute_ebit
    tax ← require (core income_tax_expense)
    before_tax ← require (core income_before_tax)
    da ← require (core depreciation_and_amortization_expense)
    capex ← require (core capital_expenditures)
    tax_rate ← safe_divide prec (some tax) (some before_tax)
    ok (sub prec (add prec (add prec (nopat_of ebit tax_rate) da) capex) decimal_zero)

  -- `_working_capital`
  abbrev pub compute_working_capital : Result DerivedMetricError Decimal
  compute_working_capital = do
    assets ← require (core total_current_assets)
    liabilities ← require (core total_current_liabilities)
    ok (sub prec assets liabilities)

  abbrev pub net_debt : Decimal
  net_debt =
      sub prec
        (add prec
          (add prec (or_zero (core short_term_debt))
            (or_zero (core current_portion_of_long_term_debt)))
          (or_zero (core long_term_debt)))
        (or_zero (core cash_and_cash_equivalents))

  -- `_debt_to_equity`
  abbrev pub compute_debt_to_equity : Result DerivedMetricError Decimal
  compute_debt_to_equity = do
    equity ← require (core total_equity)
    quantized prec (some net_debt) (some equity)

  -- `_interest_coverage`
  abbrev pub compute_interest_coverage : Result DerivedMetricError Decimal
  compute_interest_coverage = do
    ebit ← compute_ebit
    expense ← require (core interest_expense)
    quantized prec (some ebit) (some expense)

  -- `_roe` and `_roa`
  abbrev pub compute_roe : Result DerivedMetricError Decimal
  compute_roe = do
    income ← require (core net_income)
    equity ← require (core total_equity)
    quantized prec (some income) (some equity)

  abbrev pub compute_roa : Result DerivedMetricError Decimal
  compute_roa = do
    income ← require (core net_income)
    assets ← require (core total_assets)
    quantized prec (some income) (some assets)

  abbrev pub invested_capital : Decimal → Decimal
  invested_capital equity =
      sub prec
        (add prec
          (add prec (add prec equity (or_zero (core long_term_debt)))
            (or_zero (core short_term_debt)))
          (or_zero (core current_portion_of_long_term_debt)))
        (or_zero (core cash_and_cash_equivalents))

  -- `_roic`
  abbrev pub compute_roic : Result DerivedMetricError Decimal
  compute_roic = do
    ebit ← compute_ebit
    tax ← require (core income_tax_expense)
    before_tax ← require (core income_before_tax)
    equity ← require (core total_equity)
    tax_rate ← safe_divide prec (some tax) (some before_tax)
    quantized prec (some (nopat_of ebit tax_rate)) (some (invested_capital equity))
