-- ===== src/Registry/Metadata.antt =====
-- `CanonicalMetricMetadata` and the registry (domain/services/canonical_metric_registry.py).
use arche_api.Base.{Bool, true, false, [], ◌∷◌, ◌++◌}
use arche_api.Base.Text.{Text, codes}
use arche_api.Base.Dict.{Dict}
use arche_api.Entities.{
  CanonicalStatementMetric, revenue, cost_of_revenue, gross_profit,
  research_and_development_expense, selling_general_and_administrative_expense,
  depreciation_and_amortization_expense, operating_income, operating_expense, interest_income,
  interest_expense, other_non_operating_income_expense, income_before_tax, income_tax_expense,
  net_income, basic_eps, diluted_eps, weighted_average_shares_basic,
  weighted_average_shares_diluted, total_assets, total_current_assets, cash_and_cash_equivalents,
  short_term_investments, accounts_receivable_net, inventories, other_current_assets,
  total_non_current_assets, property_plant_and_equipment_net, goodwill, intangible_assets_net,
  other_non_current_assets, total_liabilities, total_current_liabilities, accounts_payable,
  short_term_debt, current_portion_of_long_term_debt, other_current_liabilities,
  total_non_current_liabilities, long_term_debt, other_non_current_liabilities, total_equity,
  retained_earnings, additional_paid_in_capital, treasury_stock,
  accumulated_other_comprehensive_income, net_cash_from_operating_activities,
  net_cash_from_investing_activities, net_cash_from_financing_activities,
  net_increase_decrease_in_cash, cash_paid_for_interest, cash_paid_for_income_taxes,
  capital_expenditures, free_cash_flow, other_operating_income_expense, other_assets,
  other_liabilities, other_equity, other_cash_flow_from_operations, other_cash_flow_from_investing,
  other_cash_flow_from_financing,
}

-- The texts of `_ALLOWED_CATEGORIES`.
pub data MetricCategory : Type 0 where
  in_revenue in_expense in_profitability in_assets in_liabilities in_equity in_cash_flow
        in_capital_structure in_per_share in_shares in_other :
      MetricCategory

-- "IS", "BS" and "CF"
pub data StatementCode : Type 0 where
  code_is code_bs code_cf : StatementCode

pub record CanonicalMetricMetadata : Type 0 where
  pub metric : CanonicalStatementMetric
  pub label : Text
  pub category : MetricCategory
  pub statement_type : StatementCode
  pub is_primary : Bool
  pub is_derived : Bool

-- An entry under its metric, with the default of `is_derived`.
abbrev metadata :
    CanonicalStatementMetric
    → Text
    → MetricCategory
    → StatementCode
    → Bool
    → CanonicalStatementMetric × CanonicalMetricMetadata
metadata metric label category statement_type is_primary = (
  metric,
  record {
    metric = metric;
    label = label;
    category = category;
    statement_type = statement_type;
    is_primary = is_primary;
    is_derived = false;
  },
)

abbrev Entries : Type 0
Entries = Dict CanonicalStatementMetric CanonicalMetricMetadata

abbrev income_statement_metadata : Entries
income_statement_metadata =
    metadata revenue (codes "Revenue") in_revenue code_is true
    ∷ metadata cost_of_revenue (codes "Cost of revenue") in_expense code_is false
    ∷ metadata gross_profit (codes "Gross profit") in_profitability code_is true
    ∷ metadata research_and_development_expense (codes "Research and development expense")
        in_expense code_is false
    ∷ metadata selling_general_and_administrative_expense
        (codes "Selling, general and administrative expense") in_expense code_is false
    ∷ metadata depreciation_and_amortization_expense (codes "Depreciation and amortization")
        in_expense code_is false
    ∷ metadata operating_income (codes "Operating income") in_profitability code_is true
    ∷ metadata operating_expense (codes "Operating expense") in_expense code_is false
    ∷ metadata interest_income (codes "Interest income") in_other code_is false
    ∷ metadata interest_expense (codes "Interest expense") in_expense code_is false
    ∷ metadata other_non_operating_income_expense (codes "Other non-operating income (expense)")
        in_other code_is false
    ∷ metadata income_before_tax (codes "Income before tax") in_profitability code_is false
    ∷ metadata income_tax_expense (codes "Income tax expense") in_expense code_is false
    ∷ metadata net_income (codes "Net income") in_profitability code_is true
    ∷ metadata basic_eps (codes "Basic earnings per share") in_per_share code_is true
    ∷ metadata diluted_eps (codes "Diluted earnings per share") in_per_share code_is true
    ∷ metadata weighted_average_shares_basic (codes "Weighted average shares (basic)") in_shares
        code_is false
    ∷ metadata weighted_average_shares_diluted (codes "Weighted average shares (diluted)") in_shares
        code_is false
    ∷ []

abbrev balance_sheet_assets_metadata : Entries
balance_sheet_assets_metadata =
    metadata total_assets (codes "Total assets") in_assets code_bs true
    ∷ metadata total_current_assets (codes "Total current assets") in_assets code_bs false
    ∷ metadata cash_and_cash_equivalents (codes "Cash and cash equivalents") in_assets code_bs true
    ∷ metadata short_term_investments (codes "Short-term investments") in_assets code_bs false
    ∷ metadata accounts_receivable_net (codes "Accounts receivable, net") in_assets code_bs false
    ∷ metadata inventories (codes "Inventories") in_assets code_bs false
    ∷ metadata other_current_assets (codes "Other current assets") in_assets code_bs false
    ∷ metadata total_non_current_assets (codes "Total non-current assets") in_assets code_bs false
    ∷ metadata property_plant_and_equipment_net (codes "Property, plant and equipment, net")
        in_assets code_bs false
    ∷ metadata goodwill (codes "Goodwill") in_assets code_bs false
    ∷ metadata intangible_assets_net (codes "Intangible assets, net") in_assets code_bs false
    ∷ metadata other_non_current_assets (codes "Other non-current assets") in_assets code_bs false
    ∷ metadata total_liabilities (codes "Total liabilities") in_liabilities code_bs true
    ∷ metadata total_current_liabilities (codes "Total current liabilities") in_liabilities code_bs
        false
    ∷ []

abbrev balance_sheet_claims_metadata : Entries
balance_sheet_claims_metadata =
    metadata accounts_payable (codes "Accounts payable") in_liabilities code_bs false
    ∷ metadata short_term_debt (codes "Short-term debt") in_capital_structure code_bs false
    ∷ metadata current_portion_of_long_term_debt (codes "Current portion of long-term debt")
        in_capital_structure code_bs false
    ∷ metadata other_current_liabilities (codes "Other current liabilities") in_liabilities code_bs
        false
    ∷ metadata total_non_current_liabilities (codes "Total non-current liabilities") in_liabilities
        code_bs false
    ∷ metadata long_term_debt (codes "Long-term debt") in_capital_structure code_bs true
    ∷ metadata other_non_current_liabilities (codes "Other non-current liabilities") in_liabilities
        code_bs false
    ∷ metadata total_equity (codes "Total equity") in_equity code_bs true
    ∷ metadata retained_earnings (codes "Retained earnings") in_equity code_bs false
    ∷ metadata additional_paid_in_capital (codes "Additional paid-in capital") in_equity code_bs
        false
    ∷ metadata treasury_stock (codes "Treasury stock") in_equity code_bs false
    ∷ metadata accumulated_other_comprehensive_income
        (codes "Accumulated other comprehensive income") in_equity code_bs false
    ∷ []

abbrev cash_flow_metadata : Entries
cash_flow_metadata =
    metadata net_cash_from_operating_activities (codes "Net cash from operating activities")
      in_cash_flow code_cf true
    ∷ metadata net_cash_from_investing_activities (codes "Net cash from investing activities")
        in_cash_flow code_cf false
    ∷ metadata net_cash_from_financing_activities (codes "Net cash from financing activities")
        in_cash_flow code_cf false
    ∷ metadata net_increase_decrease_in_cash (codes "Net change in cash") in_cash_flow code_cf true
    ∷ metadata cash_paid_for_interest (codes "Cash paid for interest") in_cash_flow code_cf false
    ∷ metadata cash_paid_for_income_taxes (codes "Cash paid for income taxes") in_cash_flow code_cf
        false
    ∷ metadata capital_expenditures (codes "Capital expenditures") in_cash_flow code_cf true
    ∷ metadata free_cash_flow (codes "Free cash flow") in_cash_flow code_cf true
    ∷ []

abbrev other_metadata : Entries
other_metadata =
    metadata other_operating_income_expense (codes "Other operating income (expense)") in_other
      code_is false
    ∷ metadata other_assets (codes "Other assets") in_assets code_bs false
    ∷ metadata other_liabilities (codes "Other liabilities") in_liabilities code_bs false
    ∷ metadata other_equity (codes "Other equity") in_equity code_bs false
    ∷ metadata other_cash_flow_from_operations (codes "Other operating cash flows") in_cash_flow
        code_cf false
    ∷ metadata other_cash_flow_from_investing (codes "Other investing cash flows") in_cash_flow
        code_cf false
    ∷ metadata other_cash_flow_from_financing (codes "Other financing cash flows") in_cash_flow
        code_cf false
    ∷ []

abbrev pub metric_metadata_registry : Entries
metric_metadata_registry =
    income_statement_metadata
    ++ (balance_sheet_assets_metadata
        ++ (balance_sheet_claims_metadata ++ (cash_flow_metadata ++ other_metadata)))
