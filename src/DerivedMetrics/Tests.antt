-- ===== src/DerivedMetrics/Tests.antt =====
-- Metrics of an income statement and of a cash-flow statement.
use arche_api.Base.{
  ℕ, suc, ◌+◌, ◌*◌, ◌^◌, ◌≤◌, ◌≡◌, refl, true, none, some, List, [], ◌∷◌, ◌++◌, All, any, ◌==◌,
  arith, length,
}
use arche_api.Base.Int.{leb_ℤ, pos, negsuc, ◌-ℤ◌, ◌+ℤ◌}
use arche_api.Base.Text.{codes}
use arche_api.Base.Dict.{Dict}
use arche_api.Base.Results.{ok}
use arche_api.Base.Sort.{IsSorted}
use mathlib.Core.List.{Perm}
use arche_api.Decimal.{
  Decimal, whole, mul, sub, add, decimal_beq, scale, to_integral_value, strip_zeros,
  rounded_quotient, with_sign,
}
use arche_api.Entities.{
  CanonicalStatementMetric, CanonicalStatementPayload, StatementType, income_statement,
  cash_flow_statement, us_gaap, q1, date, Date, revenue, net_income, free_cash_flow,
  net_cash_from_operating_activities, metric_eq, statement_type_eq,
}
use arche_api.DerivedMetrics.Metric.{net_margin, derived_metric_eq}
use arche_api.DerivedMetrics.Types.{MetricContext}
use arche_api.DerivedMetrics.Division.{quantize_ratio, get_core_metric}
use arche_api.DerivedMetrics.Formulas.{quantized, compute_revenue_growth_ttm}
use arche_api.DerivedMetrics.Prior.{payload_leb, select_prior_payload}
use arche_api.DerivedMetrics.Specs.{specs}
use arche_api.DerivedMetrics.Engine.{compute_metric, compute, requested}
use arche_api.DerivedMetrics.Accounted.{expected_failures, compute-accounted}
use arche_api.DerivedMetrics.Failures.{IsAnticipated, compute-IsAnticipated}
use arche_api.DerivedMetrics.Ratios.{IsQuotient, net, compute_metric-ratio_iff}
use arche_api.DerivedMetrics.Windows.{IsNewest, select_prior_payload-IsNewest}
use arche_api.DerivedMetrics.Trailing.{comparable, IsTotal, compute_revenue_growth_ttm-windows}
use arche_api.DerivedMetrics.Rounding.{quantize_ratio-near}

abbrev statement :
    StatementType → Date → Dict CanonicalStatementMetric Decimal → CanonicalStatementPayload
statement type day metrics = record {
  cik = codes "0000320193";
  statement_type = type;
  accounting_standard = us_gaap;
  statement_date = day;
  fiscal_year = pos 2023;
  fiscal_period = q1;
  currency = codes "USD";
  unit_multiplier = pos 0;
  core_metrics = metrics;
  extra_metrics = [];
  dimensions = [];
  source_accession_id = codes "0000320193-23-000077";
  source_taxonomy = codes "US_GAAP";
  source_version_sequence = pos 1;
}

abbrev income : CanonicalStatementPayload
income =
    statement income_statement (date 2023 3 31)
      ((revenue, whole (pos 3)) ∷ (net_income, whole (pos 2)) ∷ [])

abbrev quarter : ℕ → CanonicalStatementPayload
quarter n = statement income_statement (date 2022 n 1) ((revenue, whole (pos n)) ∷ [])

-- A cash-flow statement with a free cash flow, without capital expenditures.
abbrev cash : CanonicalStatementPayload
cash =
    statement cash_flow_statement (date 2023 3 31)
      ((free_cash_flow, whole (pos 5)) ∷ (net_cash_from_operating_activities, whole (pos 7)) ∷ [])

abbrev context : MetricContext
context = record { payload = income; history = quarter 1 ∷ quarter 2 ∷ [] }

abbrev year : List CanonicalStatementPayload
year = quarter 1 ∷ quarter 2 ∷ quarter 3 ∷ quarter 4 ∷ quarter 5 ∷ quarter 6 ∷ quarter 7 ∷ []

abbrev two_thirds : Decimal
two_thirds = record { digits = pos 666667; exponent = negsuc 5 }

margin_of_two_thirds : compute_metric net_margin (specs 34 net_margin) context ≡ ok two_thirds
unfolding compute_metric quantized quantize_ratio decimal_beq scale mul to_integral_value
    rounded_quotient strip_zeros ◌+ℤ◌ ◌-ℤ◌
margin_of_two_thirds = refl

abbrev trailing : MetricContext
trailing = record { payload = income; history = year }

-- 5 + 6 + 7 + 3 against 1 + 2 + 3 + 4.
growth_of_trailing :
    compute_revenue_growth_ttm 34 trailing ≡ ok (record { digits = pos 11; exponent = negsuc 0 })
unfolding compute_metric quantized quantize_ratio decimal_beq scale mul to_integral_value
    rounded_quotient strip_zeros ◌+ℤ◌ ◌-ℤ◌ add sub
growth_of_trailing = refl

compute-accounted_example :
    (compute 34 income [] none).failures
    ≡ expected_failures 34 (record { payload = income; history = [] }) (requested none)
compute-accounted_example = (compute-accounted 34 income [] none).0

compute-IsAnticipated_example :
    All (λ f. IsAnticipated f.details) (compute 34 income (quarter 1 ∷ []) none).failures
compute-IsAnticipated_example = compute-IsAnticipated 34 income (quarter 1 ∷ []) none

compute_metric-ratio_iff_example :
    (any (λ s. income.statement_type == s) (income_statement ∷ []) ≡ true)
    × IsQuotient 34 context
        (get_core_metric income net_income)
        (get_core_metric income revenue)
        two_thirds
compute_metric-ratio_iff_example =
    (compute_metric-ratio_iff 34 context net_margin net_income revenue (income_statement ∷ [])
        two_thirds net).0
      margin_of_two_thirds

select_prior_payload-IsNewest_example :
    IsNewest income (quarter 1 ∷ quarter 2 ∷ []) (select_prior_payload context none (some 1))
select_prior_payload-IsNewest_example =
    select_prior_payload-IsNewest context 1 ((refl, tt), (tt, tt))

compute_revenue_growth_ttm-windows_example :
    (older : List CanonicalStatementPayload) × (prior : List CanonicalStatementPayload)
    × (last : List CanonicalStatementPayload) × Perm
        (older ++ (prior ++ last))
        (comparable 34 trailing)
    × IsSorted payload_leb (older ++ (prior ++ last))
    × (length prior ≡ 4)
    × (length last ≡ 4)
    × ((a : Decimal) × (b : Decimal) × IsTotal 34 trailing last a
        × IsTotal 34 trailing prior b
        × IsQuotient 34 trailing
            (some (sub 34 a b))
            (some b)
            (record { digits = pos 11; exponent = negsuc 0 }))
compute_revenue_growth_ttm-windows_example =
    compute_revenue_growth_ttm-windows 34 trailing (record { digits = pos 11; exponent = negsuc 0 })
      growth_of_trailing

-- The free cash flow is there, and the metric that prefers it fails.

quantize_ratio-near_example :
    (leb_ℤ (negsuc 5) (negsuc 7) ≡ true
      → quantize_ratio 34 (record { digits = pos 12345678; exponent = negsuc 7 })
        ≡ record { digits = pos 12345678; exponent = negsuc 7 })
    × ((k : ℕ)
        → negsuc 7 ≡ negsuc 5 -ℤ pos (suc k)
        → (q : ℕ) × (quantize_ratio 34 (record { digits = pos 12345678; exponent = negsuc 7 })
            ≡ record { digits = with_sign (pos 12345678) q; exponent = negsuc 5 })
          × (2 * (q * 10 ^ suc k) ≤ 2 * 12345678 + 10 ^ suc k)
          × (2 * 12345678 ≤ 2 * (q * 10 ^ suc k) + 10 ^ suc k))
quantize_ratio-near_example =
    quantize_ratio-near 34 (record { digits = pos 12345678; exponent = negsuc 7 }) (omega arith)
