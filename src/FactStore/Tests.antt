-- ===== src/FactStore/Tests.antt =====
-- Facts derived from an income statement of 2023.
use arche_api.Base.{◌≡◌, refl, some, [], ◌∷◌, true}
use mathlib.Core.List.Perm
use arche_api.Base.Int.{pos}
use arche_api.Base.Text.{Text, codes}
use arche_api.Base.Results.{ok, err}
use arche_api.Decimal.{whole}
use arche_api.Entities.{income_statement, us_gaap, q2, date, net_income, CanonicalStatementPayload}
use arche_api.FactStore.Derivation.{
  FactDerivationConfig, year_out_of_range, build_dimension_key, infer_period_start,
  payload_to_facts,
}
use arche_api.FactStore.DimensionKey.{build_dimension_key-congr}
use arche_api.FactStore.DerivationLaws.{IsDerived, payload_to_facts-IsDerived}

abbrev segment : Text × Text
segment = (codes "segment", codes "EMEA")

abbrev product : Text × Text
product = (codes "product", codes "cloud")

abbrev payload : CanonicalStatementPayload
payload = record {
  cik = codes "0000320193";
  statement_type = income_statement;
  accounting_standard = us_gaap;
  statement_date = date 2023 6 30;
  fiscal_year = pos 2023;
  fiscal_period = q2;
  currency = codes "USD";
  unit_multiplier = pos 0;
  core_metrics = (net_income, whole (pos 7)) ∷ [];
  extra_metrics = (codes "HEADCOUNT", whole (pos 9)) ∷ [];
  dimensions = segment ∷ product ∷ [];
  source_accession_id = codes "0000320193-23-000077";
  source_taxonomy = codes "US_GAAP";
  source_version_sequence = pos 1;
}

abbrev config : FactDerivationConfig
config = record {
  default_period_start_strategy = codes "fiscal_year_start";
  include_extra_metrics = true;
}

build_dimension_key-congr_example :
    build_dimension_key (segment ∷ product ∷ []) ≡ build_dimension_key (product ∷ segment ∷ [])
build_dimension_key-congr_example =
    build_dimension_key-congr (segment ∷ product ∷ []) (product ∷ segment ∷ [])
      (Perm.swap product segment [])

payload_to_facts-IsDerived_example :
    IsDerived payload (pos 1) config (payload_to_facts payload (pos 1) config)
payload_to_facts-IsDerived_example = payload_to_facts-IsDerived payload (pos 1) config

key_of_two : build_dimension_key (segment ∷ product ∷ []) ≡ codes "product=cloud|segment=EMEA"
unfolding build_dimension_key
key_of_two = refl

-- A value that holds the separators gives the key of another slice.
shared_key :
    build_dimension_key ((codes "a", codes "1|b=2") ∷ [])
    ≡ build_dimension_key ((codes "a", codes "1") ∷ (codes "b", codes "2") ∷ [])
unfolding build_dimension_key
shared_key = refl

second_quarter :
    infer_period_start (pos 2023) q2 (codes "fiscal_year_start") ≡ ok (some (date 2023 4 1))
unfolding infer_period_start
second_quarter = refl

late_year : infer_period_start (pos 10000) q2 (codes "fiscal_year_start") ≡ err year_out_of_range
unfolding infer_period_start
late_year = refl
