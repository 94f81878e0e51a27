-- ===== src/Registry/Lookup.antt =====
-- The functions of domain/services/canonical_metric_registry.py.
use arche_api.Base.{
  ◌≡◌, refl, Bool, true, false, ◌&&◌, Option, some, List, [], ◌∷◌, map, filter, any, ◌==◌,
}
use arche_api.Base.Text.{text_leb}
use arche_api.Base.Dict.{lookup, values}
use arche_api.Base.Sort.{sort}
use arche_api.Entities.{
  CanonicalStatementMetric, metric_eq, metric_value, StatementType, income_statement, balance_sheet,
  cash_flow_statement, revenue, cost_of_revenue, gross_profit, research_and_development_expense,
  selling_general_and_administrative_expense, depreciation_and_amortization_expense,
  operating_income, operating_expense, interest_income, interest_expense,
  other_non_operating_income_expense, income_before_tax, income_tax_expense, net_income, basic_eps,
  diluted_eps, weighted_average_shares_basic, weighted_average_shares_diluted, total_assets,
  total_current_assets, cash_and_cash_equivalents, short_term_investments, accounts_receivable_net,
  inventories, other_current_assets, total_non_current_assets, property_plant_and_equipment_net,
  goodwill, intangible_assets_net, other_non_current_assets, total_liabilities,
  total_current_liabilities, accounts_payable, short_term_debt, current_portion_of_long_term_debt,
  other_current_liabilities, total_non_current_liabilities, long_term_debt,
  other_non_current_liabilities, total_equity, retained_earnings, additional_paid_in_capital,
  treasury_stock, accumulated_other_comprehensive_income, net_cash_from_operating_activities,
  net_cash_from_investing_activities, net_cash_from_financing_activities,
  net_increase_decrease_in_cash, cash_paid_for_interest, cash_paid_for_income_taxes,
  capital_expenditures, free_cash_flow, other_operating_income_expense, other_assets,
  other_liabilities, other_equity, other_cash_flow_from_operations, other_cash_flow_from_investing,
  other_cash_flow_from_financing,
}
use arche_api.Registry.Metadata.{
  CanonicalMetricMetadata, StatementCode, code_is, code_bs, code_cf, metric_metadata_registry,
}

abbrev pub tier1_metrics_pinned : List CanonicalStatementMetric
tier1_metrics_pinned =
    revenue ∷ gross_profit ∷ operating_income ∷ net_income ∷ basic_eps ∷ diluted_eps ∷ total_assets
    ∷ total_liabilities ∷ total_equity ∷ cash_and_cash_equivalents ∷ long_term_debt
    ∷ net_cash_from_operating_activities ∷ capital_expenditures ∷ free_cash_flow
    ∷ net_increase_decrease_in_cash ∷ []

abbrev registry_code : StatementType → StatementCode
registry_code income_statement = code_is
registry_code balance_sheet = code_bs
registry_code cash_flow_statement = code_cf

abbrev code_beq : StatementCode → StatementCode → Bool
code_beq code_is code_is = true
code_beq code_bs code_bs = true
code_beq code_cf code_cf = true
code_beq _ _ = false

-- None stands for the `KeyError`.
unfoldable get_metric_metadata : CanonicalStatementMetric → Option CanonicalMetricMetadata
get_metric_metadata metric = lookup metric metric_metadata_registry

unfoldable iter_metric_metadata : List CanonicalMetricMetadata
iter_metric_metadata =
    sort (λ a b. text_leb (metric_value a.metric) (metric_value b.metric))
      (values metric_metadata_registry)

abbrev is_pinned : CanonicalStatementMetric → Bool
is_pinned metric = any (λ m. m == metric) tier1_metrics_pinned

-- Every statement type has a code in `_STATEMENT_TYPE_TO_REGISTRY_CODE`.
unfoldable get_tier1_metrics_for_statement_type : StatementType → List CanonicalStatementMetric
get_tier1_metrics_for_statement_type statement_type =
    map (λ m. m.metric)
      (filter (λ m. is_pinned m.metric && code_beq m.statement_type (registry_code statement_type))
        (values metric_metadata_registry))

-- A metric has metadata, under its own name, and is primary exactly if it is pinned.
abbrev IsRegistered : CanonicalStatementMetric → Type 0
IsRegistered metric =
    (m : CanonicalMetricMetadata) × (get_metric_metadata metric ≡ some m)
    × (m.metric ≡ metric)
    × (m.is_primary ≡ is_pinned metric)

-- Every metric is registered so: `get_metric_metadata` raises no `KeyError`.
get_metric_metadata-IsRegistered : (metric : CanonicalStatementMetric) → IsRegistered metric
unfolding get_metric_metadata
get_metric_metadata-IsRegistered revenue = (_, refl, refl, refl)
get_metric_metadata-IsRegistered cost_of_revenue = (_, refl, refl, refl)
get_metric_metadata-IsRegistered gross_profit = (_, refl, refl, refl)
get_metric_metadata-IsRegistered research_and_development_expense = (_, refl, refl, refl)
get_metric_metadata-IsRegistered selling_general_and_administrative_expense = (_, refl, refl, refl)
get_metric_metadata-IsRegistered depreciation_and_amortization_expense = (_, refl, refl, refl)
get_metric_metadata-IsRegistered operating_income = (_, refl, refl, refl)
get_metric_metadata-IsRegistered operating_expense = (_, refl, refl, refl)
get_metric_metadata-IsRegistered interest_income = (_, refl, refl, refl)
get_metric_metadata-IsRegistered interest_expense = (_, refl, refl, refl)
get_metric_metadata-IsRegistered other_non_operating_income_expense = (_, refl, refl, refl)
get_metric_metadata-IsRegistered income_before_tax = (_, refl, refl, refl)
get_metric_metadata-IsRegistered income_tax_expense = (_, refl, refl, refl)
get_metric_metadata-IsRegistered net_income = (_, refl, refl, refl)
get_metric_metadata-IsRegistered basic_eps = (_, refl, refl, refl)
get_metric_metadata-IsRegistered diluted_eps = (_, refl, refl, refl)
get_metric_metadata-IsRegistered weighted_average_shares_basic = (_, refl, refl, refl)
get_metric_metadata-IsRegistered weighted_average_shares_diluted = (_, refl, refl, refl)
get_metric_metadata-IsRegistered total_assets = (_, refl, refl, refl)
get_metric_metadata-IsRegistered total_current_assets = (_, refl, refl, refl)
get_metric_metadata-IsRegistered cash_and_cash_equivalents = (_, refl, refl, refl)
get_metric_metadata-IsRegistered short_term_investments = (_, refl, refl, refl)
get_metric_metadata-IsRegistered accounts_receivable_net = (_, refl, refl, refl)
get_metric_metadata-IsRegistered inventories = (_, refl, refl, refl)
get_metric_metadata-IsRegistered other_current_assets = (_, refl, refl, refl)
get_metric_metadata-IsRegistered total_non_current_assets = (_, refl, refl, refl)
get_metric_metadata-IsRegistered property_plant_and_equipment_net = (_, refl, refl, refl)
get_metric_metadata-IsRegistered goodwill = (_, refl, refl, refl)
get_metric_metadata-IsRegistered intangible_assets_net = (_, refl, refl, refl)
get_metric_metadata-IsRegistered other_non_current_assets = (_, refl, refl, refl)
get_metric_metadata-IsRegistered total_liabilities = (_, refl, refl, refl)
get_metric_metadata-IsRegistered total_current_liabilities = (_, refl, refl, refl)
get_metric_metadata-IsRegistered accounts_payable = (_, refl, refl, refl)
get_metric_metadata-IsRegistered short_term_debt = (_, refl, refl, refl)
get_metric_metadata-IsRegistered current_portion_of_long_term_debt = (_, refl, refl, refl)
get_metric_metadata-IsRegistered other_current_liabilities = (_, refl, refl, refl)
get_metric_metadata-IsRegistered total_non_current_liabilities = (_, refl, refl, refl)
get_metric_metadata-IsRegistered long_term_debt = (_, refl, refl, refl)
get_metric_metadata-IsRegistered other_non_current_liabilities = (_, refl, refl, refl)
get_metric_metadata-IsRegistered total_equity = (_, refl, refl, refl)
get_metric_metadata-IsRegistered retained_earnings = (_, refl, refl, refl)
get_metric_metadata-IsRegistered additional_paid_in_capital = (_, refl, refl, refl)
get_metric_metadata-IsRegistered treasury_stock = (_, refl, refl, refl)
get_metric_metadata-IsRegistered accumulated_other_comprehensive_income = (_, refl, refl, refl)
get_metric_metadata-IsRegistered net_cash_from_operating_activities = (_, refl, refl, refl)
get_metric_metadata-IsRegistered net_cash_from_investing_activities = (_, refl, refl, refl)
get_metric_metadata-IsRegistered net_cash_from_financing_activities = (_, refl, refl, refl)
get_metric_metadata-IsRegistered net_increase_decrease_in_cash = (_, refl, refl, refl)
get_metric_metadata-IsRegistered cash_paid_for_interest = (_, refl, refl, refl)
get_metric_metadata-IsRegistered cash_paid_for_income_taxes = (_, refl, refl, refl)
get_metric_metadata-IsRegistered capital_expenditures = (_, refl, refl, refl)
get_metric_metadata-IsRegistered free_cash_flow = (_, refl, refl, refl)
get_metric_metadata-IsRegistered other_operating_income_expense = (_, refl, refl, refl)
get_metric_metadata-IsRegistered other_assets = (_, refl, refl, refl)
get_metric_metadata-IsRegistered other_liabilities = (_, refl, refl, refl)
get_metric_metadata-IsRegistered other_equity = (_, refl, refl, refl)
get_metric_metadata-IsRegistered other_cash_flow_from_operations = (_, refl, refl, refl)
get_metric_metadata-IsRegistered other_cash_flow_from_investing = (_, refl, refl, refl)
get_metric_metadata-IsRegistered other_cash_flow_from_financing = (_, refl, refl, refl)
