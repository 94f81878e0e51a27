-- ===== src/Reconciliation/Tests.antt =====
-- Runs of the reconciliation engine and of the calendar.
use arche_api.Base.{
  ◌≡◌, refl, ◌≤◌, length, ◌↔◌, true, false, none, some, List, [], ◌∷◌, In, get_last?, filter, head?,
  leb,
}
use arche_api.Base.Int.{pos, negsuc}
use arche_api.Base.Text.{codes}
use arche_api.Base.Sort.{sort}
use arche_api.Base.Results.{err}
use arche_api.Decimal.{whole}
use arche_api.Entities.{
  CanonicalStatementMetric, total_assets, total_liabilities, total_equity, balance_sheet, us_gaap,
  fy, date, high, low, CanonicalStatementPayload, identity, calendar, days_between,
}
use arche_api.Reconciliation.Rules.{
  ReconciliationRule, identity_rule, calendar_rule, IdentityReconciliationRule,
  CalendarReconciliationRule,
}
use arche_api.Reconciliation.Calendar.{
  year_out_of_range, StatementPeriod, period_of, key_of, align_statements_across_types,
  infer_statement_period, classify_fiscal_calendar, FiscalCalendarClassification, positive_gaps,
  period_leb,
}
use arche_api.Reconciliation.CalendarLaws.{
  aligned, is_at, align-last, IsSpread, classify-irregular_iff,
}
use arche_api.Reconciliation.Engine.{sum_metrics_for_bucket}
use arche_api.Reconciliation.Sums.{AreMissing, sum_metrics-none}
use arche_api.Reconciliation.Run.{ReconciliationEngineConfig}

abbrev sheet : CanonicalStatementPayload
sheet = record {
  cik = codes "0000320193";
  statement_type = balance_sheet;
  accounting_standard = us_gaap;
  statement_date = date 2023 12 31;
  fiscal_year = pos 2023;
  fiscal_period = fy;
  currency = codes "USD";
  unit_multiplier = pos 0;
  core_metrics =
      (total_assets, whole (pos 100))
      ∷ (total_liabilities, whole (pos 60))
      ∷ (total_equity, whole (pos 40))
      ∷ [];
  extra_metrics = [];
  dimensions = [];
  source_accession_id = codes "0000320193-24-000001";
  source_taxonomy = codes "US_GAAP_2023";
  source_version_sequence = pos 1;
}

abbrev later : CanonicalStatementPayload
later = record sheet { source_version_sequence = pos 2 }

abbrev balances : IdentityReconciliationRule
balances = record {
  rule_id = codes "BS";
  category = identity;
  severity = high;
  lhs_metrics = total_assets ∷ [];
  rhs_metrics = total_liabilities ∷ total_equity ∷ [];
  tolerance = none;
  applicable_statement_types = some (balance_sheet ∷ []);
  is_enabled = true;
}

abbrev june : CalendarReconciliationRule
june = record {
  rule_id = codes "FYE";
  category = calendar;
  severity = low;
  allowed_fye_months = 6 ∷ 7 ∷ [];
  allow_53_week = true;
  max_gap_days = pos 730;
  is_enabled = true;
}

abbrev rules : List ReconciliationRule
rules =
    identity_rule balances
    ∷ calendar_rule june
    ∷ calendar_rule (record june { is_enabled = false })
    ∷ []

abbrev config : ReconciliationEngineConfig
config = record {
  rule_set_version = codes "e11_v1";
  default_tolerance = record { digits = pos 1; exponent = negsuc 1 };
  fx_tolerance_bps = pos 100;
}

abbrev as_given : List CanonicalStatementMetric → List CanonicalStatementMetric
as_given ms = ms

far_future :
    infer_statement_period (record sheet { fiscal_year = pos 10000 }) ≡ err year_out_of_range
unfolding infer_statement_period
far_future = refl

align-last_example :
    aligned
      (key_of (period_of sheet none))
      balance_sheet
      (align_statements_across_types (period_of sheet none ∷ period_of later none ∷ []))
    ≡ get_last? (
        filter
          (is_at (key_of (period_of sheet none)) balance_sheet)
          (period_of sheet none ∷ period_of later none ∷ []))
align-last_example =
    align-last (key_of (period_of sheet none)) balance_sheet
      (period_of sheet none ∷ period_of later none ∷ [])

sum_metrics-none_example :
    (sum_metrics_for_bucket 28 as_given (total_assets ∷ []) (period_of sheet none ∷ []) ≡ none) ↔ (
      (p : StatementPeriod)
      → In p (period_of sheet none ∷ [])
      → AreMissing (total_assets ∷ []) p.payload.core_metrics)
sum_metrics-none_example =
    sum_metrics-none 28 as_given (total_assets ∷ []) (period_of sheet none ∷ [])
      (λ m. ((λ i. i), (λ i. i)))

abbrev year_2021 : StatementPeriod
year_2021 =
    period_of (record sheet { statement_date = date 2021 12 31; fiscal_year = pos 2021 }) none

abbrev years : List StatementPeriod
years = period_of sheet none ∷ year_2021 ∷ []

abbrev classified : FiscalCalendarClassification
classified = record {
  fye_month = 12;
  is_53_week_year = true;
  is_irregular = false;
  inferred_period_length_days = some 730;
}

years-classified : classify_fiscal_calendar head? years ≡ some classified
unfolding classify_fiscal_calendar days_between
years-classified = refl

-- Fiscal years that end in December and then in June.
abbrev moved : List StatementPeriod
moved =
    period_of (record sheet { statement_date = date 2022 12 31; fiscal_year = pos 2022 }) none
    ∷ period_of (record sheet { statement_date = date 2023 6 30 }) none
    ∷ []

moved-regular :
    classify_fiscal_calendar head? moved
    ≡ some (record {
      fye_month = 12;
      is_53_week_year = false;
      is_irregular = false;
      inferred_period_length_days = some 181;
    })
unfolding classify_fiscal_calendar days_between
moved-regular = refl

classify-irregular_iff_example :
    ((classified.is_irregular ≡ true) ↔ IsSpread (sort leb (positive_gaps (sort period_leb years))))
    × (length (sort leb (positive_gaps (sort period_leb years))) ≤ 1
        → classified.is_irregular ≡ false)
classify-irregular_iff_example = classify-irregular_iff head? years classified years-classified
