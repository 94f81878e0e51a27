-- ===== src/DerivedMetrics/Specs.antt =====
-- `DERIVED_METRIC_SPECS`: what each metric needs, and its formula.
use arche_api.Base.{ℕ, true, false, Option, none, some, [], ◌∷◌}
use arche_api.Entities.{
  income_statement, balance_sheet, cash_flow_statement, revenue, gross_profit, operating_income,
  net_income, diluted_eps, income_before_tax, interest_expense, interest_income,
  depreciation_and_amortization_expense, net_cash_from_operating_activities, capital_expenditures,
  income_tax_expense, total_current_assets, total_current_liabilities, short_term_debt,
  current_portion_of_long_term_debt, long_term_debt, cash_and_cash_equivalents, total_equity,
  total_assets,
}
use arche_api.DerivedMetrics.Metric.{
  DerivedMetric, gross_margin, operating_margin, net_margin, revenue_growth_yoy, revenue_growth_qoq,
  revenue_growth_ttm, eps_diluted_growth, ebitda, ebit, levered_free_cash_flow,
  unlevered_free_cash_flow, working_capital, debt_to_equity, interest_coverage, roe, roa, roic,
  margin, growth, cash_flow, leverage, return,
}
use arche_api.DerivedMetrics.Types.{DerivedMetricSpec}
use arche_api.DerivedMetrics.Formulas.{
  compute_gross_margin, compute_operating_margin, compute_net_margin, compute_revenue_growth_yoy,
  compute_revenue_growth_qoq, compute_revenue_growth_ttm, compute_eps_diluted_growth,
  compute_ebitda, compute_ebit, compute_levered_free_cash_flow, compute_unlevered_free_cash_flow,
  compute_working_capital, compute_debt_to_equity, compute_interest_coverage, compute_roe,
  compute_roa, compute_roic,
}

abbrev pub gross_margin_spec : ℕ → DerivedMetricSpec
gross_margin_spec prec = record {
  metric = gross_margin;
  required_statement_types = income_statement ∷ [];
  required_inputs = revenue ∷ gross_profit ∷ [];
  uses_history = false;
  history_periods = none;
  category = margin;
  is_experimental = false;
  formula = compute_gross_margin prec;
}

abbrev pub operating_margin_spec : ℕ → DerivedMetricSpec
operating_margin_spec prec = record {
  metric = operating_margin;
  required_statement_types = income_statement ∷ [];
  required_inputs = revenue ∷ operating_income ∷ [];
  uses_history = false;
  history_periods = none;
  category = margin;
  is_experimental = false;
  formula = compute_operating_margin prec;
}

abbrev pub net_margin_spec : ℕ → DerivedMetricSpec
net_margin_spec prec = record {
  metric = net_margin;
  required_statement_types = income_statement ∷ [];
  required_inputs = revenue ∷ net_income ∷ [];
  uses_history = false;
  history_periods = none;
  category = margin;
  is_experimental = false;
  formula = compute_net_margin prec;
}

abbrev pub revenue_growth_yoy_spec : ℕ → DerivedMetricSpec
revenue_growth_yoy_spec prec = record {
  metric = revenue_growth_yoy;
  required_statement_types = income_statement ∷ [];
  required_inputs = revenue ∷ [];
  uses_history = true;
  history_periods = some 1;
  category = growth;
  is_experimental = false;
  formula = compute_revenue_growth_yoy prec;
}

abbrev pub revenue_growth_qoq_spec : ℕ → DerivedMetricSpec
revenue_growth_qoq_spec prec = record {
  metric = revenue_growth_qoq;
  required_statement_types = income_statement ∷ [];
  required_inputs = revenue ∷ [];
  uses_history = true;
  history_periods = some 1;
  category = growth;
  is_experimental = false;
  formula = compute_revenue_growth_qoq prec;
}

abbrev pub revenue_growth_ttm_spec : ℕ → DerivedMetricSpec
revenue_growth_ttm_spec prec = record {
  metric = revenue_growth_ttm;
  required_statement_types = income_statement ∷ [];
  required_inputs = revenue ∷ [];
  uses_history = true;
  history_periods = some 7;
  category = growth;
  is_experimental = false;
  formula = compute_revenue_growth_ttm prec;
}

abbrev pub eps_diluted_growth_spec : ℕ → DerivedMetricSpec
eps_diluted_growth_spec prec = record {
  metric = eps_diluted_growth;
  required_statement_types = income_statement ∷ [];
  required_inputs = diluted_eps ∷ [];
  uses_history = true;
  history_periods = some 1;
  category = growth;
  is_experimental = false;
  formula = compute_eps_diluted_growth prec;
}

abbrev pub ebitda_spec : ℕ → DerivedMetricSpec
ebitda_spec prec = record {
  metric = ebitda;
  required_statement_types = income_statement ∷ [];
  required_inputs = operating_income ∷ depreciation_and_amortization_expense ∷ [];
  uses_history = false;
  history_periods = none;
  category = cash_flow;
  is_experimental = false;
  formula = compute_ebitda prec;
}

abbrev pub ebit_spec : ℕ → DerivedMetricSpec
ebit_spec prec = record {
  metric = ebit;
  required_statement_types = income_statement ∷ [];
  required_inputs = income_before_tax ∷ interest_expense ∷ interest_income ∷ [];
  uses_history = false;
  history_periods = none;
  category = cash_flow;
  is_experimental = false;
  formula = compute_ebit prec;
}

abbrev pub levered_free_cash_flow_spec : ℕ → DerivedMetricSpec
levered_free_cash_flow_spec prec = record {
  metric = levered_free_cash_flow;
  required_statement_types = cash_flow_statement ∷ [];
  required_inputs = net_cash_from_operating_activities ∷ capital_expenditures ∷ [];
  uses_history = false;
  history_periods = none;
  category = cash_flow;
  is_experimental = false;
  formula = compute_levered_free_cash_flow prec;
}

abbrev pub unlevered_free_cash_flow_spec : ℕ → DerivedMetricSpec
unlevered_free_cash_flow_spec prec = record {
  metric = unlevered_free_cash_flow;
  required_statement_types = income_statement ∷ [];
  required_inputs =
      income_before_tax ∷ income_tax_expense ∷ depreciation_and_amortization_expense
      ∷ capital_expenditures ∷ [];
  uses_history = false;
  history_periods = none;
  category = cash_flow;
  is_experimental = true;
  formula = compute_unlevered_free_cash_flow prec;
}

abbrev pub working_capital_spec : ℕ → DerivedMetricSpec
working_capital_spec prec = record {
  metric = working_capital;
  required_statement_types = balance_sheet ∷ [];
  required_inputs = total_current_assets ∷ total_current_liabilities ∷ [];
  uses_history = false;
  history_periods = none;
  category = leverage;
  is_experimental = false;
  formula = compute_working_capital prec;
}

abbrev pub debt_to_equity_spec : ℕ → DerivedMetricSpec
debt_to_equity_spec prec = record {
  metric = debt_to_equity;
  required_statement_types = balance_sheet ∷ [];
  required_inputs =
      short_term_debt ∷ current_portion_of_long_term_debt ∷ long_term_debt
      ∷ cash_and_cash_equivalents ∷ total_equity ∷ [];
  uses_history = false;
  history_periods = none;
  category = leverage;
  is_experimental = false;
  formula = compute_debt_to_equity prec;
}

abbrev pub interest_coverage_spec : ℕ → DerivedMetricSpec
interest_coverage_spec prec = record {
  metric = interest_coverage;
  required_statement_types = income_statement ∷ [];
  required_inputs = income_before_tax ∷ interest_expense ∷ interest_income ∷ [];
  uses_history = false;
  history_periods = none;
  category = leverage;
  is_experimental = false;
  formula = compute_interest_coverage prec;
}

abbrev pub roe_spec : ℕ → DerivedMetricSpec
roe_spec prec = record {
  metric = roe;
  required_statement_types = balance_sheet ∷ income_statement ∷ [];
  required_inputs = net_income ∷ total_equity ∷ [];
  uses_history = false;
  history_periods = none;
  category = return;
  is_experimental = false;
  formula = compute_roe prec;
}

abbrev pub roa_spec : ℕ → DerivedMetricSpec
roa_spec prec = record {
  metric = roa;
  required_statement_types = balance_sheet ∷ income_statement ∷ [];
  required_inputs = net_income ∷ total_assets ∷ [];
  uses_history = false;
  history_periods = none;
  category = return;
  is_experimental = false;
  formula = compute_roa prec;
}

abbrev pub roic_spec : ℕ → DerivedMetricSpec
roic_spec prec = record {
  metric = roic;
  required_statement_types = balance_sheet ∷ income_statement ∷ [];
  required_inputs =
      income_before_tax ∷ income_tax_expense ∷ total_equity ∷ long_term_debt ∷ short_term_debt
      ∷ current_portion_of_long_term_debt ∷ cash_and_cash_equivalents ∷ interest_income
      ∷ interest_expense ∷ [];
  uses_history = false;
  history_periods = none;
  category = return;
  is_experimental = false;
  formula = compute_roic prec;
}

-- `DERIVED_METRIC_SPECS.get(metric)`
abbrev pub specs : ℕ → DerivedMetric → Option DerivedMetricSpec
specs prec gross_margin = some (gross_margin_spec prec)
specs prec operating_margin = some (operating_margin_spec prec)
specs prec net_margin = some (net_margin_spec prec)
specs prec revenue_growth_yoy = some (revenue_growth_yoy_spec prec)
specs prec revenue_growth_qoq = some (revenue_growth_qoq_spec prec)
specs prec revenue_growth_ttm = some (revenue_growth_ttm_spec prec)
specs prec eps_diluted_growth = some (eps_diluted_growth_spec prec)
specs prec ebitda = some (ebitda_spec prec)
specs prec ebit = some (ebit_spec prec)
specs prec levered_free_cash_flow = some (levered_free_cash_flow_spec prec)
specs prec unlevered_free_cash_flow = some (unlevered_free_cash_flow_spec prec)
specs prec working_capital = some (working_capital_spec prec)
specs prec debt_to_equity = some (debt_to_equity_spec prec)
specs prec interest_coverage = some (interest_coverage_spec prec)
specs prec roe = some (roe_spec prec)
specs prec roa = some (roa_spec prec)
specs prec roic = some (roic_spec prec)
