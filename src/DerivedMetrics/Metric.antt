-- ===== src/DerivedMetrics/Metric.antt =====
-- `DerivedMetric` (domain/enums/derived_metric.py) and `DerivedMetricCategory`, with the identity of
-- members.
use arche_api.Base.{ℕ, ◌≡◌, ◌↔◌, refl, Bool, true, some, eqb, eqb_iff, Eq, List, [], ◌∷◌, get_elem?}
use arche_api.Base.Text.{Text, codes}
use mathlib.Core.Option.{some-injective}
use mathlib.Core.Path.{sym, ◌∙◌, ap}

pub data DerivedMetric : Type 0 where
  gross_margin : DerivedMetric
  operating_margin : DerivedMetric
  net_margin : DerivedMetric
  revenue_growth_yoy : DerivedMetric
  revenue_growth_qoq : DerivedMetric
  revenue_growth_ttm : DerivedMetric
  eps_diluted_growth : DerivedMetric
  ebitda : DerivedMetric
  ebit : DerivedMetric
  levered_free_cash_flow : DerivedMetric
  unlevered_free_cash_flow : DerivedMetric
  working_capital : DerivedMetric
  debt_to_equity : DerivedMetric
  interest_coverage : DerivedMetric
  roe : DerivedMetric
  roa : DerivedMetric
  roic : DerivedMetric

-- The text of a member: `m.value`.
abbrev pub derived_metric_value : DerivedMetric → Text
derived_metric_value gross_margin = codes "GROSS_MARGIN"
derived_metric_value operating_margin = codes "OPERATING_MARGIN"
derived_metric_value net_margin = codes "NET_MARGIN"
derived_metric_value revenue_growth_yoy = codes "REVENUE_GROWTH_YOY"
derived_metric_value revenue_growth_qoq = codes "REVENUE_GROWTH_QOQ"
derived_metric_value revenue_growth_ttm = codes "REVENUE_GROWTH_TTM"
derived_metric_value eps_diluted_growth = codes "EPS_DILUTED_GROWTH"
derived_metric_value ebitda = codes "EBITDA"
derived_metric_value ebit = codes "EBIT"
derived_metric_value levered_free_cash_flow = codes "LEVERED_FREE_CASH_FLOW"
derived_metric_value unlevered_free_cash_flow = codes "UNLEVERED_FREE_CASH_FLOW"
derived_metric_value working_capital = codes "WORKING_CAPITAL"
derived_metric_value debt_to_equity = codes "DEBT_TO_EQUITY"
derived_metric_value interest_coverage = codes "INTEREST_COVERAGE"
derived_metric_value roe = codes "ROE"
derived_metric_value roa = codes "ROA"
derived_metric_value roic = codes "ROIC"

-- A member's place in the class, by which the model compares members for identity.
abbrev pub derived_metric_index : DerivedMetric → ℕ
derived_metric_index gross_margin = 0
derived_metric_index operating_margin = 1
derived_metric_index net_margin = 2
derived_metric_index revenue_growth_yoy = 3
derived_metric_index revenue_growth_qoq = 4
derived_metric_index revenue_growth_ttm = 5
derived_metric_index eps_diluted_growth = 6
derived_metric_index ebitda = 7
derived_metric_index ebit = 8
derived_metric_index levered_free_cash_flow = 9
derived_metric_index unlevered_free_cash_flow = 10
derived_metric_index working_capital = 11
derived_metric_index debt_to_equity = 12
derived_metric_index interest_coverage = 13
derived_metric_index roe = 14
derived_metric_index roa = 15
derived_metric_index roic = 16

abbrev pub all_derived_metrics : List DerivedMetric
all_derived_metrics =
    gross_margin ∷ operating_margin ∷ net_margin ∷ revenue_growth_yoy ∷ revenue_growth_qoq
    ∷ revenue_growth_ttm ∷ eps_diluted_growth ∷ ebitda ∷ ebit ∷ levered_free_cash_flow
    ∷ unlevered_free_cash_flow ∷ working_capital ∷ debt_to_equity ∷ interest_coverage ∷ roe ∷ roa
    ∷ roic ∷ []

pub data DerivedMetricCategory : Type 0 where
  margin growth cash_flow leverage return : DerivedMetricCategory

member_at : (m : DerivedMetric) → get_elem? all_derived_metrics (derived_metric_index m) ≡ some m
member_at gross_margin = refl
member_at operating_margin = refl
member_at net_margin = refl
member_at revenue_growth_yoy = refl
member_at revenue_growth_qoq = refl
member_at revenue_growth_ttm = refl
member_at eps_diluted_growth = refl
member_at ebitda = refl
member_at ebit = refl
member_at levered_free_cash_flow = refl
member_at unlevered_free_cash_flow = refl
member_at working_capital = refl
member_at debt_to_equity = refl
member_at interest_coverage = refl
member_at roe = refl
member_at roa = refl
member_at roic = refl

derived_metric_index_injective :
    (a b : DerivedMetric) → derived_metric_index a ≡ derived_metric_index b → a ≡ b
derived_metric_index_injective a b h =
    some-injective _ _ (sym (member_at a) ∙ ap (get_elem? all_derived_metrics) h ∙ member_at b)

abbrev pub derived_metric_beq : DerivedMetric → DerivedMetric → Bool
derived_metric_beq a b = eqb (derived_metric_index a) (derived_metric_index b)

pub derived_metric_beq_iff : (a b : DerivedMetric) → (derived_metric_beq a b ≡ true) ↔ (a ≡ b)
derived_metric_beq_iff a b = (
  λ h.
      derived_metric_index_injective a b
        ((eqb_iff (derived_metric_index a) (derived_metric_index b)).0 h),
  λ e. (eqb_iff (derived_metric_index a) (derived_metric_index b)).1 (ap derived_metric_index e),
)

instance abbrev pub derived_metric_eq : Eq DerivedMetric
derived_metric_eq = record { test = derived_metric_beq; test_iff = derived_metric_beq_iff }
