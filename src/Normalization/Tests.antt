-- ===== src/Normalization/Tests.antt =====
-- Two facts for revenue, one of them in another currency.
use arche_api.Base.{◌≡◌, refl, ◌⊎◌, ◌↔◌, inl, inr, false, none, some, [], ◌∷◌, In, arith}
use arche_api.Base.Int.{pos, negsuc, ◌-ℤ◌}
use arche_api.Base.Text.{Text, codes, strip}
use arche_api.Base.Dict.{Dict, lookup}
use arche_api.Base.Results.{ok, err}
use arche_api.Decimal.{Decimal, half_even}
use arche_api.Entities.{
  CanonicalStatementMetric, income_statement, us_gaap, fy, date, revenue, net_income,
  operating_income, basic_eps, diluted_eps, weighted_average_shares_diluted, total_assets,
  total_liabilities, total_equity, cash_and_cash_equivalents, net_cash_from_operating_activities,
  net_cash_from_investing_activities, net_cash_from_financing_activities,
  net_increase_decrease_in_cash, metric_eq, check_payload,
}
use arche_api.Normalization.Types.{
  high, CanonicalMetricRecord, EdgarFact, NormalizationContext, NormalizationResult, unresolved,
  invalid_operation, type_error,
}
use arche_api.Normalization.Parse.{decimal_of_text, quantize, parse_decimal}
use arche_api.Normalization.Choice.{choose_fact}
use arche_api.Normalization.Engine.{
  validate_context, canonicalize_unit, effective_metric, resolve_metrics, normalize, payload_of,
}
use arche_api.Normalization.Determinism.{normalize-congr}
use arche_api.Normalization.Payloads.{HasOrigin, normalize-HasOrigin}
use arche_api.Normalization.Completeness.{HasNoFact, normalize-settled}
use arche_api.Normalization.Quantized.{IsQuantized, parse_decimal-IsQuantized}

abbrev sales : EdgarFact
sales = record {
  fact_id = codes "f1";
  concept = codes "us-gaap:Revenues";
  value = codes "12.345";
  unit = codes "usd";
  decimals = some (pos 2);
  period_start = none;
  period_end = some (date 2023 12 31);
  instant_date = none;
  dimensions = [];
}

abbrev foreign : EdgarFact
foreign = record sales {
  fact_id = codes "f2";
  unit = codes "EUR";
  period_end = some (date 2024 12 31);
}

abbrev context : NormalizationContext
context = record {
  cik = codes "0000320193";
  statement_type = income_statement;
  accounting_standard = us_gaap;
  statement_date = date 2023 12 31;
  fiscal_year = pos 2023;
  fiscal_period = fy;
  currency = codes "USD";
  accession_id = codes "0000320193-23-000077";
  taxonomy = codes "US_GAAP_2024";
  version_sequence = pos 1;
  facts = sales ∷ foreign ∷ [];
  industry_code = none;
  analyst_profile_id = none;
  override_rules = [];
  enable_override_trace = false;
}

abbrev value : Decimal
value = record { digits = pos 1234; exponent = negsuc 1 }

abbrev version : Text
version = codes "v1"

abbrev records : Dict CanonicalStatementMetric CanonicalMetricRecord
records =
    (
      revenue,
      record {
        metric = revenue;
        value = value;
        unit = codes "USD";
        confidence = high;
        source_fact_ids = codes "f1" ∷ [];
      },
    )
    ∷ []

abbrev result : NormalizationResult
result = record {
  payload = payload_of 28 context records;
  payload_version = version;
  metric_records = records;
  warnings =
      unresolved net_income
      ∷ unresolved operating_income
      ∷ unresolved basic_eps
      ∷ unresolved diluted_eps
      ∷ unresolved weighted_average_shares_diluted
      ∷ unresolved total_assets
      ∷ unresolved total_liabilities
      ∷ unresolved total_equity
      ∷ unresolved cash_and_cash_equivalents
      ∷ unresolved net_cash_from_operating_activities
      ∷ unresolved net_cash_from_investing_activities
      ∷ unresolved net_cash_from_financing_activities
      ∷ unresolved net_increase_decrease_in_cash
      ∷ [];
}

-- The fact in dollars is taken, though the other is later.
normalized : normalize 28 context version ≡ ok result
unfolding normalize validate_context resolve_metrics choose_fact parse_decimal decimal_of_text
    quantize half_even effective_metric canonicalize_unit check_payload strip ◌-ℤ◌
normalized = refl

distinct :
    (a b : EdgarFact) → In a context.facts → In b context.facts → a.fact_id ≡ b.fact_id → a ≡ b
distinct a b (inl p) (inl q) e = cc
distinct a b (inl p) (inr (inl q)) e = absurd (ground (arith, p, q, e))
distinct a b (inl p) (inr (inr j)) e = absurd j
distinct a b (inr (inl p)) (inr (inr j)) e = absurd j
distinct a b (inr (inr i)) j e = absurd i
distinct a b (inr (inl p)) (inl q) e = absurd (ground (arith, p, q, e))
distinct a b (inr (inl p)) (inr (inl q)) e = cc

swapped : (a : EdgarFact) → In a context.facts ↔ In a (foreign ∷ sales ∷ [])
swapped a = ground arith

normalize-congr_example :
    normalize 28 context version
    ≡ normalize 28 (record context { facts = foreign ∷ sales ∷ [] }) version
normalize-congr_example = normalize-congr 28 context version (foreign ∷ sales ∷ []) swapped distinct

normalize-HasOrigin_example : HasOrigin 28 context revenue value
normalize-HasOrigin_example =
    normalize-HasOrigin 28 context version result normalized revenue value refl

normalize-settled_example :
    ((v : Decimal) × (lookup net_income result.payload.core_metrics ≡ some v))
    ⊎ (In (unresolved net_income) result.warnings
        × HasNoFact context (codes "us-gaap:NetIncomeLoss" ∷ codes "us-gaap:ProfitLoss" ∷ []))
normalize-settled_example =
    normalize-settled 28 context refl version result net_income
      (codes "us-gaap:NetIncomeLoss" ∷ codes "us-gaap:ProfitLoss" ∷ []) normalized (inr (inl refl))

parsed :
    decimal_of_text (codes "12.345") ≡ some (record { digits = pos 12345; exponent = negsuc 2 })
unfolding decimal_of_text ◌-ℤ◌
parsed = refl

parse_decimal-IsQuantized_example :
    (parse_decimal 28 (codes "12.345") none
      ≡ ok (record { digits = pos 12345; exponent = negsuc 2 }))
    × IsQuantized 28 2
        (record { digits = pos 12345; exponent = negsuc 2 })
        (parse_decimal 28 (codes "12.345") (some (pos 2)))
parse_decimal-IsQuantized_example =
    parse_decimal-IsQuantized 28 2 (codes "12.345")
      (record { digits = pos 12345; exponent = negsuc 2 }) parsed

-- Many digits and a number of places: an exception of the decimals.
too_long :
    parse_decimal 28 (codes "1234567890123456789012345678") (some (pos 1)) ≡ err invalid_operation
unfolding parse_decimal decimal_of_text quantize half_even ◌-ℤ◌
too_long = refl

-- A dated and an undated fact in the same currency.
undated :
    choose_fact (codes "USD") (sales ∷ record sales { period_end = none } ∷ []) ≡ err type_error
unfolding choose_fact strip
undated = refl
