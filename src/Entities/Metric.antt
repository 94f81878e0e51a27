-- ===== src/Entities/Metric.antt =====
-- `CanonicalStatementMetric` (domain/enums/canonical_statement_metric.py).
use arche_api.Base.{ℕ, ◌≡◌, ◌↔◌, refl, Bool, true, some, eqb, eqb_iff, Eq, List, [], ◌∷◌, get_elem?}
use arche_api.Base.Text.{Text, codes, text_leb}
use mathlib.Core.Option.{some-injective}
use mathlib.Core.Path.{sym, ◌∙◌, ap}

pub data CanonicalStatementMetric : Type 0 where
  revenue : CanonicalStatementMetric
  cost_of_revenue : CanonicalStatementMetric
  gross_profit : CanonicalStatementMetric
  research_and_development_expense : CanonicalStatementMetric
  selling_general_and_administrative_expense : CanonicalStatementMetric
  depreciation_and_amortization_expense : CanonicalStatementMetric
  operating_income : CanonicalStatementMetric
  operating_expense : CanonicalStatementMetric
  interest_income : CanonicalStatementMetric
  interest_expense : CanonicalStatementMetric
  other_non_operating_income_expense : CanonicalStatementMetric
  income_before_tax : CanonicalStatementMetric
  income_tax_expense : CanonicalStatementMetric
  net_income : CanonicalStatementMetric
  basic_eps : CanonicalStatementMetric
  diluted_eps : CanonicalStatementMetric
  weighted_average_shares_basic : CanonicalStatementMetric
  weighted_average_shares_diluted : CanonicalStatementMetric
  total_assets : CanonicalStatementMetric
  total_current_assets : CanonicalStatementMetric
  cash_and_cash_equivalents : CanonicalStatementMetric
  short_term_investments : CanonicalStatementMetric
  accounts_receivable_net : CanonicalStatementMetric
  inventories : CanonicalStatementMetric
  other_current_assets : CanonicalStatementMetric
  total_non_current_assets : CanonicalStatementMetric
  property_plant_and_equipment_net : CanonicalStatementMetric
  goodwill : CanonicalStatementMetric
  intangible_assets_net : CanonicalStatementMetric
  other_non_current_assets : CanonicalStatementMetric
  total_liabilities : CanonicalStatementMetric
  total_current_liabilities : CanonicalStatementMetric
  accounts_payable : CanonicalStatementMetric
  short_term_debt : CanonicalStatementMetric
  current_portion_of_long_term_debt : CanonicalStatementMetric
  other_current_liabilities : CanonicalStatementMetric
  total_non_current_liabilities : CanonicalStatementMetric
  long_term_debt : CanonicalStatementMetric
  other_non_current_liabilities : CanonicalStatementMetric
  total_equity : CanonicalStatementMetric
  retained_earnings : CanonicalStatementMetric
  additional_paid_in_capital : CanonicalStatementMetric
  treasury_stock : CanonicalStatementMetric
  accumulated_other_comprehensive_income : CanonicalStatementMetric
  net_cash_from_operating_activities : CanonicalStatementMetric
  net_cash_from_investing_activities : CanonicalStatementMetric
  net_cash_from_financing_activities : CanonicalStatementMetric
  net_increase_decrease_in_cash : CanonicalStatementMetric
  cash_paid_for_interest : CanonicalStatementMetric
  cash_paid_for_income_taxes : CanonicalStatementMetric
  capital_expenditures : CanonicalStatementMetric
  free_cash_flow : CanonicalStatementMetric
  other_operating_income_expense : CanonicalStatementMetric
  other_assets : CanonicalStatementMetric
  other_liabilities : CanonicalStatementMetric
  other_equity : CanonicalStatementMetric
  other_cash_flow_from_operations : CanonicalStatementMetric
  other_cash_flow_from_investing : CanonicalStatementMetric
  other_cash_flow_from_financing : CanonicalStatementMetric

-- The text of a member: `m.value`.
abbrev pub metric_value : CanonicalStatementMetric → Text
metric_value revenue = codes "REVENUE"
metric_value cost_of_revenue = codes "COST_OF_REVENUE"
metric_value gross_profit = codes "GROSS_PROFIT"
metric_value research_and_development_expense = codes "RESEARCH_AND_DEVELOPMENT_EXPENSE"
metric_value selling_general_and_administrative_expense =
    codes "SELLING_GENERAL_AND_ADMINISTRATIVE_EXPENSE"
metric_value depreciation_and_amortization_expense = codes "DEPRECIATION_AND_AMORTIZATION_EXPENSE"
metric_value operating_income = codes "OPERATING_INCOME"
metric_value operating_expense = codes "OPERATING_EXPENSE"
metric_value interest_income = codes "INTEREST_INCOME"
metric_value interest_expense = codes "INTEREST_EXPENSE"
metric_value other_non_operating_income_expense = codes "OTHER_NON_OPERATING_INCOME_EXPENSE"
metric_value income_before_tax = codes "INCOME_BEFORE_TAX"
metric_value income_tax_expense = codes "INCOME_TAX_EXPENSE"
metric_value net_income = codes "NET_INCOME"
metric_value basic_eps = codes "BASIC_EPS"
metric_value diluted_eps = codes "DILUTED_EPS"
metric_value weighted_average_shares_basic = codes "WEIGHTED_AVERAGE_SHARES_BASIC"
metric_value weighted_average_shares_diluted = codes "WEIGHTED_AVERAGE_SHARES_DILUTED"
metric_value total_assets = codes "TOTAL_ASSETS"
metric_value total_current_assets = codes "TOTAL_CURRENT_ASSETS"
metric_value cash_and_cash_equivalents = codes "CASH_AND_CASH_EQUIVALENTS"
metric_value short_term_investments = codes "SHORT_TERM_INVESTMENTS"
metric_value accounts_receivable_net = codes "ACCOUNTS_RECEIVABLE_NET"
metric_value inventories = codes "INVENTORIES"
metric_value other_current_assets = codes "OTHER_CURRENT_ASSETS"
metric_value total_non_current_assets = codes "TOTAL_NON_CURRENT_ASSETS"
metric_value property_plant_and_equipment_net = codes "PROPERTY_PLANT_AND_EQUIPMENT_NET"
metric_value goodwill = codes "GOODWILL"
metric_value intangible_assets_net = codes "INTANGIBLE_ASSETS_NET"
metric_value other_non_current_assets = codes "OTHER_NON_CURRENT_ASSETS"
metric_value total_liabilities = codes "TOTAL_LIABILITIES"
metric_value total_current_liabilities = codes "TOTAL_CURRENT_LIABILITIES"
metric_value accounts_payable = codes "ACCOUNTS_PAYABLE"
metric_value short_term_debt = codes "SHORT_TERM_DEBT"
metric_value current_portion_of_long_term_debt = codes "CURRENT_PORTION_OF_LONG_TERM_DEBT"
metric_value other_current_liabilities = codes "OTHER_CURRENT_LIABILITIES"
metric_value total_non_current_liabilities = codes "TOTAL_NON_CURRENT_LIABILITIES"
metric_value long_term_debt = codes "LONG_TERM_DEBT"
metric_value other_non_current_liabilities = codes "OTHER_NON_CURRENT_LIABILITIES"
metric_value total_equity = codes "TOTAL_EQUITY"
metric_value retained_earnings = codes "RETAINED_EARNINGS"
metric_value additional_paid_in_capital = codes "ADDITIONAL_PAID_IN_CAPITAL"
metric_value treasury_stock = codes "TREASURY_STOCK"
metric_value accumulated_other_comprehensive_income = codes "ACCUMULATED_OTHER_COMPREHENSIVE_INCOME"
metric_value net_cash_from_operating_activities = codes "NET_CASH_FROM_OPERATING_ACTIVITIES"
metric_value net_cash_from_investing_activities = codes "NET_CASH_FROM_INVESTING_ACTIVITIES"
metric_value net_cash_from_financing_activities = codes "NET_CASH_FROM_FINANCING_ACTIVITIES"
metric_value net_increase_decrease_in_cash = codes "NET_INCREASE_DECREASE_IN_CASH"
metric_value cash_paid_for_interest = codes "CASH_PAID_FOR_INTEREST"
metric_value cash_paid_for_income_taxes = codes "CASH_PAID_FOR_INCOME_TAXES"
metric_value capital_expenditures = codes "CAPITAL_EXPENDITURES"
metric_value free_cash_flow = codes "FREE_CASH_FLOW"
metric_value other_operating_income_expense = codes "OTHER_OPERATING_INCOME_EXPENSE"
metric_value other_assets = codes "OTHER_ASSETS"
metric_value other_liabilities = codes "OTHER_LIABILITIES"
metric_value other_equity = codes "OTHER_EQUITY"
metric_value other_cash_flow_from_operations = codes "OTHER_CASH_FLOW_FROM_OPERATIONS"
metric_value other_cash_flow_from_investing = codes "OTHER_CASH_FLOW_FROM_INVESTING"
metric_value other_cash_flow_from_financing = codes "OTHER_CASH_FLOW_FROM_FINANCING"

-- A member's place in the class, by which the model compares members for identity.
abbrev pub metric_index : CanonicalStatementMetric → ℕ
metric_index revenue = 0
metric_index cost_of_revenue = 1
metric_index gross_profit = 2
metric_index research_and_development_expense = 3
metric_index selling_general_and_administrative_expense = 4
metric_index depreciation_and_amortization_expense = 5
metric_index operating_income = 6
metric_index operating_expense = 7
metric_index interest_income = 8
metric_index interest_expense = 9
metric_index other_non_operating_income_expense = 10
metric_index income_before_tax = 11
metric_index income_tax_expense = 12
metric_index net_income = 13
metric_index basic_eps = 14
metric_index diluted_eps = 15
metric_index weighted_average_shares_basic = 16
metric_index weighted_average_shares_diluted = 17
metric_index total_assets = 18
metric_index total_current_assets = 19
metric_index cash_and_cash_equivalents = 20
metric_index short_term_investments = 21
metric_index accounts_receivable_net = 22
metric_index inventories = 23
metric_index other_current_assets = 24
metric_index total_non_current_assets = 25
metric_index property_plant_and_equipment_net = 26
metric_index goodwill = 27
metric_index intangible_assets_net = 28
metric_index other_non_current_assets = 29
metric_index total_liabilities = 30
metric_index total_current_liabilities = 31
metric_index accounts_payable = 32
metric_index short_term_debt = 33
metric_index current_portion_of_long_term_debt = 34
metric_index other_current_liabilities = 35
metric_index total_non_current_liabilities = 36
metric_index long_term_debt = 37
metric_index other_non_current_liabilities = 38
metric_index total_equity = 39
metric_index retained_earnings = 40
metric_index additional_paid_in_capital = 41
metric_index treasury_stock = 42
metric_index accumulated_other_comprehensive_income = 43
metric_index net_cash_from_operating_activities = 44
metric_index net_cash_from_investing_activities = 45
metric_index net_cash_from_financing_activities = 46
metric_index net_increase_decrease_in_cash = 47
metric_index cash_paid_for_interest = 48
metric_index cash_paid_for_income_taxes = 49
metric_index capital_expenditures = 50
metric_index free_cash_flow = 51
metric_index other_operating_income_expense = 52
metric_index other_assets = 53
metric_index other_liabilities = 54
metric_index other_equity = 55
metric_index other_cash_flow_from_operations = 56
metric_index other_cash_flow_from_investing = 57
metric_index other_cash_flow_from_financing = 58

abbrev members : List CanonicalStatementMetric
members =
    revenue ∷ cost_of_revenue ∷ gross_profit ∷ research_and_development_expense
    ∷ selling_general_and_administrative_expense ∷ depreciation_and_amortization_expense
    ∷ operating_income ∷ operating_expense ∷ interest_income ∷ interest_expense
    ∷ other_non_operating_income_expense ∷ income_before_tax ∷ income_tax_expense ∷ net_income
    ∷ basic_eps ∷ diluted_eps ∷ weighted_average_shares_basic ∷ weighted_average_shares_diluted
    ∷ total_assets ∷ total_current_assets ∷ cash_and_cash_equivalents ∷ short_term_investments
    ∷ accounts_receivable_net ∷ inventories ∷ other_current_assets ∷ total_non_current_assets
    ∷ property_plant_and_equipment_net ∷ goodwill ∷ intangible_assets_net ∷ other_non_current_assets
    ∷ total_liabilities ∷ total_current_liabilities ∷ accounts_payable ∷ short_term_debt
    ∷ current_portion_of_long_term_debt ∷ other_current_liabilities ∷ total_non_current_liabilities
    ∷ long_term_debt ∷ other_non_current_liabilities ∷ total_equity ∷ retained_earnings
    ∷ additional_paid_in_capital ∷ treasury_stock ∷ accumulated_other_comprehensive_income
    ∷ net_cash_from_operating_activities ∷ net_cash_from_investing_activities
    ∷ net_cash_from_financing_activities ∷ net_increase_decrease_in_cash ∷ cash_paid_for_interest
    ∷ cash_paid_for_income_taxes ∷ capital_expenditures ∷ free_cash_flow
    ∷ other_operating_income_expense ∷ other_assets ∷ other_liabilities ∷ other_equity
    ∷ other_cash_flow_from_operations ∷ other_cash_flow_from_investing
    ∷ other_cash_flow_from_financing ∷ []

-- `sorted(..., key=lambda m: m.value)`
abbrev pub metric_leb : CanonicalStatementMetric → CanonicalStatementMetric → Bool
metric_leb a b = text_leb (metric_value a) (metric_value b)

member_at : (m : CanonicalStatementMetric) → get_elem? members (metric_index m) ≡ some m
member_at revenue = refl
member_at cost_of_revenue = refl
member_at gross_profit = refl
member_at research_and_development_expense = refl
member_at selling_general_and_administrative_expense = refl
member_at depreciation_and_amortization_expense = refl
member_at operating_income = refl
member_at operating_expense = refl
member_at interest_income = refl
member_at interest_expense = refl
member_at other_non_operating_income_expense = refl
member_at income_before_tax = refl
member_at income_tax_expense = refl
member_at net_income = refl
member_at basic_eps = refl
member_at diluted_eps = refl
member_at weighted_average_shares_basic = refl
member_at weighted_average_shares_diluted = refl
member_at total_assets = refl
member_at total_current_assets = refl
member_at cash_and_cash_equivalents = refl
member_at short_term_investments = refl
member_at accounts_receivable_net = refl
member_at inventories = refl
member_at other_current_assets = refl
member_at total_non_current_assets = refl
member_at property_plant_and_equipment_net = refl
member_at goodwill = refl
member_at intangible_assets_net = refl
member_at other_non_current_assets = refl
member_at total_liabilities = refl
member_at total_current_liabilities = refl
member_at accounts_payable = refl
member_at short_term_debt = refl
member_at current_portion_of_long_term_debt = refl
member_at other_current_liabilities = refl
member_at total_non_current_liabilities = refl
member_at long_term_debt = refl
member_at other_non_current_liabilities = refl
member_at total_equity = refl
member_at retained_earnings = refl
member_at additional_paid_in_capital = refl
member_at treasury_stock = refl
member_at accumulated_other_comprehensive_income = refl
member_at net_cash_from_operating_activities = refl
member_at net_cash_from_investing_activities = refl
member_at net_cash_from_financing_activities = refl
member_at net_increase_decrease_in_cash = refl
member_at cash_paid_for_interest = refl
member_at cash_paid_for_income_taxes = refl
member_at capital_expenditures = refl
member_at free_cash_flow = refl
member_at other_operating_income_expense = refl
member_at other_assets = refl
member_at other_liabilities = refl
member_at other_equity = refl
member_at other_cash_flow_from_operations = refl
member_at other_cash_flow_from_investing = refl
member_at other_cash_flow_from_financing = refl

pub metric_index_injective :
    (a b : CanonicalStatementMetric) → metric_index a ≡ metric_index b → a ≡ b
metric_index_injective a b h =
    some-injective _ _ (sym (member_at a) ∙ ap (get_elem? members) h ∙ member_at b)

abbrev pub metric_beq : CanonicalStatementMetric → CanonicalStatementMetric → Bool
metric_beq a b = eqb (metric_index a) (metric_index b)

pub metric_beq_iff : (a b : CanonicalStatementMetric) → (metric_beq a b ≡ true) ↔ (a ≡ b)
metric_beq_iff a b = (
  λ h. metric_index_injective a b ((eqb_iff (metric_index a) (metric_index b)).0 h),
  λ e. (eqb_iff (metric_index a) (metric_index b)).1 (ap metric_index e),
)

instance abbrev pub metric_eq : Eq CanonicalStatementMetric
metric_eq = record { test = metric_beq; test_iff = metric_beq_iff }
