-- ===== src/FactStore/Derivation.antt =====
-- domain/services/fact_store_service.py.
use arche_api.Base.{
  ℕ, Bool, true, false, not, ◌&&◌, Option, none, some, List, [], ◌∷◌, ◌++◌, map, if◌then◌else◌, leb,
}
use arche_api.Base.Int.{ℤ, pos, negsuc, leb_ℤ}
use arche_api.Base.Text.{Text, codes, text_beq, text_eq, text_leb}
use arche_api.Base.Dict.{Dict}
use arche_api.Base.Sort.{sort, lex}
use arche_api.Base.Results.{Result, ok, err, ◌>>=◌, ◌>>◌, raise_if}
use arche_api.Decimal.{Decimal}
use arche_api.Entities.{
  metric_value, FiscalPeriod, fy, q1, q2, q3, q4, h1, other_period, Date, date,
  CanonicalStatementPayload, EdgarNormalizedFact,
}

pub record FactDerivationConfig : Type 0 where
  pub default_period_start_strategy : Text
  pub include_extra_metrics : Bool

-- `ValueError` of the service, and of `datetime.date`.
pub data DerivationError : Type 0 where
  fiscal_year_not_positive year_out_of_range : DerivationError

-- The order of pairs.
abbrev pub item_leb : Text × Text → Text × Text → Bool
item_leb = lex (λ p. p.0) text_leb (λ p q. text_leb p.1 q.1)

abbrev pub show_item : Text × Text → Text
show_item (k, v) = k ++ (codes "=" ++ v)

-- `"|".join(...)`
abbrev pub join_bars : List Text → Text
join_bars [] = []
join_bars (s ∷ []) = s
join_bars (s ∷ t ∷ ts) = s ++ (codes "|" ++ join_bars (t ∷ ts))

-- `build_dimension_key`
unfoldable pub build_dimension_key : Dict Text Text → Text
build_dimension_key [] = codes "default"
build_dimension_key (p ∷ ps) = join_bars (map show_item (sort item_leb (p ∷ ps)))

-- `_date(year, month, 1)` takes the years 1 to 9999.
abbrev pub first_day : ℤ → ℕ → Result DerivationError Date
first_day (pos y) month =
    if leb 1 y && leb y 9999 then ok (date y month 1) else err year_out_of_range
first_day (negsuc n) month = err year_out_of_range

-- `quarter_starts.get(fiscal_period.name, None)` on the four dates.
abbrev pub quarter_start : FiscalPeriod → Date → Date → Date → Date → Option Date
quarter_start q1 a b c d = some a
quarter_start q2 a b c d = some b
quarter_start q3 a b c d = some c
quarter_start q4 a b c d = some d
quarter_start fy a b c d = none
quarter_start h1 a b c d = none
quarter_start other_period a b c d = none

abbrev pub is_full_year : FiscalPeriod → Bool
is_full_year fy = true
is_full_year _ = false

-- `_infer_period_start`
unfoldable pub infer_period_start : ℤ → FiscalPeriod → Text → Result DerivationError (Option Date)
infer_period_start year period strategy =
    if text_beq strategy (codes "none")
    then ok none
    else if not (text_beq strategy (codes "fiscal_year_start"))
    then ok none
    else if is_full_year period
    then (first_day year 1 >>= λ d. ok (some d))
    else (first_day year 1 >>= λ a. first_day year 4 >>= λ b.
        first_day year 7 >>= λ c. first_day year 10 >>= λ d. ok (quarter_start period a b c d))

-- `_iter_metrics`
abbrev pub iter_metrics : FactDerivationConfig → CanonicalStatementPayload → List (Text × Decimal)
iter_metrics config p =
    map (λ e. (metric_value e.0, e.1)) p.core_metrics
    ++ (if config.include_extra_metrics then p.extra_metrics else [])

abbrev pub fact_of :
    CanonicalStatementPayload → ℤ → Option Date → Text × Decimal → EdgarNormalizedFact
fact_of p version start (code, amount) = record {
  cik = p.cik;
  statement_type = p.statement_type;
  accounting_standard = p.accounting_standard;
  fiscal_year = p.fiscal_year;
  fiscal_period = p.fiscal_period;
  statement_date = p.statement_date;
  version_sequence = version;
  metric_code = code;
  metric_label = none;
  unit = p.currency;
  period_start = start;
  period_end = p.statement_date;
  value = amount;
  dimensions = p.dimensions;
  dimension_key = build_dimension_key p.dimensions;
  source_line_item = none;
}

-- `payload_to_facts`
unfoldable pub payload_to_facts :
    CanonicalStatementPayload
    → ℤ
    → FactDerivationConfig
    → Result DerivationError (List EdgarNormalizedFact)
payload_to_facts p version config = do
  raise_if (leb_ℤ p.fiscal_year (pos 0)) fiscal_year_not_positive
  start ← infer_period_start p.fiscal_year p.fiscal_period config.default_period_start_strategy
  ok (map (fact_of p version start) (iter_metrics config p))
