-- ===== src/Reconciliation/Calendar.antt =====
-- domain/services/reconciliation_calendar.py.
use arche_api.Base.{
  ℕ, zero, suc, ◌-◌, ◌/◌, ◌≡◌, Bool, true, false, ◌&&◌, ◌||◌, Option, none, some, List, [], ◌∷◌,
  map, if◌then◌else◌, length, get_elem?, filter, ltb, leb, eqb, Eq, ◌↔◌, arith, nat_eq, get_last?,
}
use arche_api.Base.Int.{ℤ, pos, negsuc, ltb_ℤ, eqb_ℤ, eqb_ℤ_iff, ◌-ℤ◌, abs_ℤ}
use arche_api.Base.Text.{Text, text_beq, text_beq_iff, text_eq}
use arche_api.Base.Dict.{Dict, lookup, insert}
use arche_api.Base.Sort.{sort}
use arche_api.Base.Results.{Result, ok, err, ◌>>=◌}
use arche_api.Entities.{
  StatementType, statement_type_eq, FiscalPeriod, fy, q1, q2, q3, q4, h1, other_period,
  fiscal_period_beq, fiscal_period_beq_iff, Date, date, date_leb, days_between,
  CanonicalStatementPayload, NormalizedStatementIdentity,
}

-- `ValueError` of `datetime.date`, and `IndexError` of a list.
pub data ReconciliationError : Type 0 where
  year_out_of_range index_out_of_range : ReconciliationError

pub record StatementPeriod : Type 0 where
  pub identity : NormalizedStatementIdentity
  pub statement_date : Date
  pub period_start : Option Date
  pub period_end : Date
  pub fiscal_year : ℤ
  pub fiscal_period : FiscalPeriod
  pub statement_type : StatementType
  pub currency : Text
  pub payload : CanonicalStatementPayload

pub record FiscalCalendarClassification : Type 0 where
  pub fye_month : ℕ
  pub is_53_week_year : Bool
  pub is_irregular : Bool
  pub inferred_period_length_days : Option ℕ

-- `_date(year, month, 1)` takes the years 1 to 9999.
abbrev pub first_of : ℤ → ℕ → Result ReconciliationError (Option Date)
first_of (pos y) month =
    if leb 1 y && leb y 9999 then ok (some (date y month 1)) else err year_out_of_range
first_of (negsuc n) month = err year_out_of_range

abbrev pub period_start_of : FiscalPeriod → ℤ → Result ReconciliationError (Option Date)
period_start_of fy year = first_of year 1
period_start_of q1 year = first_of year 1
period_start_of q2 year = first_of year 4
period_start_of q3 year = first_of year 7
period_start_of q4 year = first_of year 10
period_start_of h1 year = ok none
period_start_of other_period year = ok none

abbrev pub identity_of : CanonicalStatementPayload → NormalizedStatementIdentity
identity_of p = record {
  cik = p.cik;
  statement_type = p.statement_type;
  fiscal_year = p.fiscal_year;
  fiscal_period = p.fiscal_period;
  version_sequence = p.source_version_sequence;
}

abbrev pub period_of : CanonicalStatementPayload → Option Date → StatementPeriod
period_of p start = record {
  identity = identity_of p;
  statement_date = p.statement_date;
  period_start = start;
  period_end = p.statement_date;
  fiscal_year = p.fiscal_year;
  fiscal_period = p.fiscal_period;
  statement_type = p.statement_type;
  currency = p.currency;
  payload = p;
}

-- `infer_statement_period`
unfoldable pub infer_statement_period :
    CanonicalStatementPayload → Result ReconciliationError StatementPeriod
infer_statement_period p = do
  start ← period_start_of p.fiscal_period p.fiscal_year
  ok (period_of p start)

abbrev pub period_leb : StatementPeriod → StatementPeriod → Bool
period_leb p q = date_leb p.statement_date q.statement_date

-- In `max(fye_months, key=...)` every month counts once, since `fye_months` is a set, so that the
-- result is the month that the iteration over the set gives first: `first_month`, a parameter.
module _ (first_month : List ℕ → Option ℕ) where
  unfoldable pub infer_fye_month : List StatementPeriod → Option ℕ
  infer_fye_month sorted =
      elim (first_month (
        map (λ p. p.statement_date.month)
          (filter (λ p. fiscal_period_beq p.fiscal_period fy) sorted))) [
            | some m ↦ some m
            | none ↦ elim (get_last? sorted) [ none ↦ none | some p ↦ some p.statement_date.month ]
          ]

-- `if delta_days > 0: deltas.append(delta_days)`
abbrev pub add_gap : ℤ → List ℕ → List ℕ
add_gap (pos zero) gaps = gaps
add_gap (pos (suc n)) gaps = suc n ∷ gaps
add_gap (negsuc n) gaps = gaps

-- The positive gaps in days between neighbours.
unfoldable pub positive_gaps : List StatementPeriod → List ℕ
positive_gaps [] = []
positive_gaps (p ∷ []) = []
positive_gaps (p ∷ q ∷ ps) =
    add_gap (days_between q.statement_date p.statement_date) (positive_gaps (q ∷ ps))

-- `deltas_sorted[-1] - deltas_sorted[0] > 40`
abbrev pub exceeds_first : ℕ → Option ℕ → Bool
exceeds_first first none = false
exceeds_first first (some last) = ltb 40 (last - first)

-- Whether the sorted gaps, of which there is one, begin with 0 or spread too far.
abbrev pub is_spread : List ℕ → Bool
is_spread [] = false
is_spread (d ∷ ds) = eqb d 0 || exceeds_first d (get_last? (d ∷ ds))

abbrev pub is_53_weeks : Option ℕ → Bool
is_53_weeks none = false
is_53_weeks (some n) = leb 370 n

abbrev pub classification_of : List ℕ → Option ℕ → Option ℕ → Option FiscalCalendarClassification
classification_of gaps median none = none
classification_of gaps median (some month) = some (record {
  fye_month = month;
  is_53_week_year = is_53_weeks median;
  is_irregular = is_spread gaps;
  inferred_period_length_days = median;
})

module _ (first_month : List ℕ → Option ℕ) where
  -- `classify_fiscal_calendar`
  unfoldable pub classify_fiscal_calendar :
      List StatementPeriod → Option FiscalCalendarClassification
  unfolding infer_fye_month positive_gaps
  classify_fiscal_calendar periods =
      let sorted = sort period_leb periods in
      let gaps = sort leb (positive_gaps sorted) in
      let median = get_elem? gaps (length gaps / 2) in
      classification_of gaps median (infer_fye_month first_month sorted)

-- The test of one gap.
abbrev pub is_off_cycle : ℤ → ℤ → ℤ → Bool
is_off_cycle expected most gap = ltb_ℤ most gap || ltb_ℤ most (abs_ℤ (gap -ℤ expected))

abbrev pub off_cycle : ℤ → ℤ → List StatementPeriod → List StatementPeriod
off_cycle expected most [] = []
off_cycle expected most (p ∷ []) = []
off_cycle expected most (p ∷ q ∷ ps) =
    let rest = off_cycle expected most (q ∷ ps) in
    if is_off_cycle expected most (days_between q.statement_date p.statement_date)
    then q ∷ rest
    else rest

-- `detect_off_cycle_periods`
unfoldable pub detect_off_cycle_periods : List StatementPeriod → ℤ → ℤ → List StatementPeriod
detect_off_cycle_periods periods expected most = off_cycle expected most (sort period_leb periods)

-- The key of a bucket: `(cik, fiscal_year, fiscal_period)`.
pub record BucketKey : Type 0 where
  pub cik : Text
  pub fiscal_year : ℤ
  pub fiscal_period : FiscalPeriod

abbrev pub bucket_key_beq : BucketKey → BucketKey → Bool
bucket_key_beq a b =
    text_beq a.cik b.cik
    && (eqb_ℤ a.fiscal_year b.fiscal_year && fiscal_period_beq a.fiscal_period b.fiscal_period)

pub bucket_key_beq_iff : (a b : BucketKey) → (bucket_key_beq a b ≡ true) ↔ (a ≡ b)
bucket_key_beq_iff a b = ground (
  arith,
  text_beq_iff a.cik b.cik,
  eqb_ℤ_iff a.fiscal_year b.fiscal_year,
  fiscal_period_beq_iff a.fiscal_period b.fiscal_period,
)

instance abbrev pub bucket_key_eq : Eq BucketKey
bucket_key_eq = record { test = bucket_key_beq; test_iff = bucket_key_beq_iff }

abbrev pub Bucket : Type 0
Bucket = Dict StatementType StatementPeriod

abbrev pub Alignment : Type 0
Alignment = Dict BucketKey Bucket

abbrev pub key_of : StatementPeriod → BucketKey
key_of p = record {
  cik = p.identity.cik;
  fiscal_year = p.fiscal_year;
  fiscal_period = p.fiscal_period;
}

-- `alignment.setdefault(key, {})`
abbrev pub or_empty : Option Bucket → Bucket
or_empty none = []
or_empty (some b) = b

abbrev pub align_one : StatementPeriod → Alignment → Alignment
align_one p a = insert (key_of p) (insert p.statement_type p (or_empty (lookup (key_of p) a))) a

abbrev pub align_from : List StatementPeriod → Alignment → Alignment
align_from [] a = a
align_from (p ∷ ps) a = align_from ps (align_one p a)

-- `align_statements_across_types`
unfoldable pub align_statements_across_types : List StatementPeriod → Alignment
align_statements_across_types ps = align_from ps []
