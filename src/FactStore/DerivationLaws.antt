-- ===== src/FactStore/DerivationLaws.antt =====
-- The derivation of facts on every payload.
use arche_api.Base.{
  ℕ, ◌≡◌, refl, ap, ◌⊎◌, inl, inr, Bool, true, false, Option, none, some, List, [], ◌∷◌, ◌++◌, map,
  append-nil, All, Bool-cases, arith, leb,
}
use arche_api.Base.Int.{ℤ, pos, negsuc, leb_ℤ}
use arche_api.Base.Text.{Text, codes, text_beq, text_beq_iff}
use arche_api.Base.Dict.{Dict}
use arche_api.Base.Results.{Result, ok, err, ◌>>=◌}
use arche_api.Decimal.{Decimal}
use arche_api.Entities.{
  CanonicalStatementMetric, metric_value, FiscalPeriod, fy, q1, q2, q3, q4, h1, other_period, Date,
  date, CanonicalStatementPayload, EdgarNormalizedFact,
}
use arche_api.FactStore.Derivation.{
  FactDerivationConfig, DerivationError, fiscal_year_not_positive, year_out_of_range,
  build_dimension_key, infer_period_start, iter_metrics, fact_of, payload_to_facts,
}

abbrev infers : Text → Bool
infers strategy = text_beq strategy (codes "fiscal_year_start")

-- The month a period opens in.
abbrev opening_month : FiscalPeriod → Option ℕ
opening_month fy = some 1
opening_month q1 = some 1
opening_month q2 = some 4
opening_month q3 = some 7
opening_month q4 = some 10
opening_month h1 = none
opening_month other_period = none

abbrev opening : ℕ → FiscalPeriod → Option Date
opening year period = elim (opening_month period) [
  | none ↦ none
  | some month ↦ some (date year month 1)
]

abbrev IsStart : ℤ → FiscalPeriod → Text → Result DerivationError (Option Date) → Type 0
IsStart year period strategy (ok start) =
    ((infers strategy ≡ false) × (start ≡ none))
    ⊎ ((infers strategy ≡ true)
        × (y : ℕ) × (year ≡ pos y)
        × (leb y 9999 ≡ true)
        × (start ≡ opening y period))
IsStart year period strategy (err e) =
    (e ≡ year_out_of_range) × (infers strategy ≡ true) × (leb_ℤ year (pos 9999) ≡ false)

-- Where the strategy infers, every period of a representable year has its start.
started :
    (y : ℕ) (period : FiscalPeriod) (strategy : Text)
    → infers strategy ≡ true
    → text_beq strategy (codes "none") ≡ false
    → leb 1 y ≡ true
    → leb y 9999 ≡ true
    → infer_period_start (pos y) period strategy ≡ ok (opening y period)
unfolding infer_period_start
started y fy strategy h k low high = rw (h, k, low, high) refl
started y q1 strategy h k low high = rw (h, k, low, high) refl
started y q2 strategy h k low high = rw (h, k, low, high) refl
started y q3 strategy h k low high = rw (h, k, low, high) refl
started y q4 strategy h k low high = rw (h, k, low, high) refl
started y h1 strategy h k low high = rw (h, k, low, high) refl
started y other_period strategy h k low high = rw (h, k, low, high) refl

not_started :
    (y : ℕ) (period : FiscalPeriod) (strategy : Text)
    → infers strategy ≡ true
    → text_beq strategy (codes "none") ≡ false
    → leb 1 y ≡ true
    → leb y 9999 ≡ false
    → infer_period_start (pos y) period strategy ≡ err year_out_of_range
unfolding infer_period_start
not_started y fy strategy h k low high = rw (h, k, low, high) refl
not_started y q1 strategy h k low high = rw (h, k, low, high) refl
not_started y q2 strategy h k low high = rw (h, k, low, high) refl
not_started y q3 strategy h k low high = rw (h, k, low, high) refl
not_started y q4 strategy h k low high = rw (h, k, low, high) refl
not_started y h1 strategy h k low high = rw (h, k, low, high) refl
not_started y other_period strategy h k low high = rw (h, k, low, high) refl

unstarted :
    (year : ℤ) (period : FiscalPeriod) (strategy : Text)
    → infers strategy ≡ false
    → infer_period_start year period strategy ≡ ok none
unfolding infer_period_start
unstarted year period strategy h = elim (Bool-cases (text_beq strategy (codes "none"))) [
  | inl e ↦ rw e refl
  | inr e ↦ rw (e, h) refl
]

other_strategy :
    (strategy : Text) → infers strategy ≡ true → text_beq strategy (codes "none") ≡ false
other_strategy strategy h = rw ((text_beq_iff strategy (codes "fiscal_year_start")).0 h) refl

infer_period_start-IsStart :
    (year : ℤ) (period : FiscalPeriod) (strategy : Text)
    → leb_ℤ year (pos 0) ≡ false
    → IsStart year period strategy (infer_period_start year period strategy)
infer_period_start-IsStart (negsuc n) period strategy h = ground arith
infer_period_start-IsStart (pos y) period strategy h = elim (Bool-cases (infers strategy)) [
  | inr f ↦ rw (unstarted (pos y) period strategy f) (inl (f, refl))
  | inl f ↦ elim (Bool-cases (leb y 9999)) [
    | inl k ↦
        rw (started y period strategy f (other_strategy strategy f) (ground arith) k)
          (inr (f, y, refl, k, refl))
    | inr k ↦
        rw (not_started y period strategy f (other_strategy strategy f) (ground arith) k)
          (refl, f, ground arith)
  ]
]

-- What a fact has from the payload and the call, whatever its metric.
abbrev Shares : CanonicalStatementPayload → ℤ → Option Date → EdgarNormalizedFact → Type 0
Shares p version start f =
    (f.cik ≡ p.cik)
    × (f.statement_type ≡ p.statement_type)
    × (f.accounting_standard ≡ p.accounting_standard)
    × (f.fiscal_year ≡ p.fiscal_year)
    × (f.fiscal_period ≡ p.fiscal_period)
    × (f.statement_date ≡ p.statement_date)
    × (f.version_sequence ≡ version)
    × (f.metric_label ≡ none)
    × (f.unit ≡ p.currency)
    × (f.period_start ≡ start)
    × (f.period_end ≡ p.statement_date)
    × (f.dimensions ≡ p.dimensions)
    × (f.dimension_key ≡ build_dimension_key p.dimensions)
    × (f.source_line_item ≡ none)

-- The codes and values of the core metrics.
abbrev core_of : Dict CanonicalStatementMetric Decimal → List (Text × Decimal)
core_of [] = []
core_of ((metric, amount) ∷ rest) = (metric_value metric, amount) ∷ core_of rest

-- The metrics that are to have facts: those of the core, followed by all extra ones if the
-- configuration includes them, and by none if it does not.
abbrev Lists : FactDerivationConfig → CanonicalStatementPayload → List (Text × Decimal) → Type 0
Lists config p metrics =
    ((config.include_extra_metrics ≡ true) × (metrics ≡ core_of p.core_metrics ++ p.extra_metrics))
    ⊎ ((config.include_extra_metrics ≡ false) × (metrics ≡ core_of p.core_metrics))

iter_metrics-Lists :
    (config : FactDerivationConfig) (p : CanonicalStatementPayload)
    → Lists config p (iter_metrics config p)
iter_metrics-Lists config p = elim (Bool-cases config.include_extra_metrics) [
  | inl e ↦ inl (e, rw (e, same p.core_metrics) refl)
  | inr e ↦ inr (e, rw (e, same p.core_metrics) (append-nil (core_of p.core_metrics)))
]
  where
    same :
        (core : Dict CanonicalStatementMetric Decimal)
        → map (λ e. (metric_value e.0, e.1)) core ≡ core_of core
    same [] = refl
    same ((metric, amount) ∷ rest) = ap (◌∷◌ (metric_value metric, amount)) (same rest)

abbrev pub IsDerived :
    CanonicalStatementPayload
    → ℤ
    → FactDerivationConfig
    → Result DerivationError (List EdgarNormalizedFact)
    → Type 0
IsDerived p version config (ok facts) =
    (leb_ℤ p.fiscal_year (pos 0) ≡ false)
    × Lists config p (map (λ f. (f.metric_code, f.value)) facts)
    × ((start : Option Date) × All (Shares p version start) facts
        × IsStart p.fiscal_year p.fiscal_period config.default_period_start_strategy (ok start))
IsDerived p version config (err fiscal_year_not_positive) = leb_ℤ p.fiscal_year (pos 0) ≡ true
IsDerived p version config (err year_out_of_range) =
    (leb_ℤ p.fiscal_year (pos 9999) ≡ false) × (infers config.default_period_start_strategy ≡ true)

map-fact_of :
    (p : CanonicalStatementPayload) (version : ℤ) (start : Option Date) (ms : List (Text × Decimal))
    → map (λ f. (f.metric_code, f.value)) (map (fact_of p version start) ms) ≡ ms
map-fact_of p version start [] = refl
map-fact_of p version start ((code, amount) ∷ ms) =
    ap (λ rest. (code, amount) ∷ rest) (map-fact_of p version start ms)

fact_of-Shares :
    (p : CanonicalStatementPayload) (version : ℤ) (start : Option Date) (ms : List (Text × Decimal))
    → All (Shares p version start) (map (fact_of p version start) ms)
fact_of-Shares p version start [] = tt
fact_of-Shares p version start ((code, amount) ∷ ms) = (
  (refl, refl, refl, refl, refl, refl, refl, refl, refl, refl, refl, refl, refl, refl),
  fact_of-Shares p version start ms,
)

IsStart-IsDerived :
    (p : CanonicalStatementPayload) (version : ℤ) (config : FactDerivationConfig)
    (m : Result DerivationError (Option Date))
    → leb_ℤ p.fiscal_year (pos 0) ≡ false
    → IsStart p.fiscal_year p.fiscal_period config.default_period_start_strategy m
    → IsDerived p version config
        (m >>= λ start. ok (map (fact_of p version start) (iter_metrics config p)))
IsStart-IsDerived p version config (ok start) h k = (
  h,
  rw (map-fact_of p version start (iter_metrics config p)) (iter_metrics-Lists config p),
  (start, fact_of-Shares p version start _, k),
)
IsStart-IsDerived p version config (err fiscal_year_not_positive) h k = cc
IsStart-IsDerived p version config (err year_out_of_range) h k = (k.2, k.1)

-- A payload gives either one fact for each core metric, in order, followed by one for each extra metric
-- where the configuration includes them and by none where it does not, with its code and value; each
-- has the payload's company, statement type, accounting standard, year, period, statement date (also
-- as its period end), currency, dimensions and their key, the version of the call, neither a label
-- nor a line item, and a period start that is the first day of the period's opening month where the
-- strategy is fiscal_year_start and none where it is another; or an error. A year of 0 or less is
-- refused with fiscal_year_not_positive, and the year is over 9999 and the strategy
-- fiscal_year_start where the date is out of range.
pub payload_to_facts-IsDerived :
    (p : CanonicalStatementPayload) (version : ℤ) (config : FactDerivationConfig)
    → IsDerived p version config (payload_to_facts p version config)
unfolding payload_to_facts
payload_to_facts-IsDerived p version config = elim (Bool-cases (leb_ℤ p.fiscal_year (pos 0))) [
  | inl h ↦ rw h h
  | inr h ↦ rw h (
      IsStart-IsDerived p version config _ h (
        infer_period_start-IsStart p.fiscal_year p.fiscal_period
          config.default_period_start_strategy h))
]
