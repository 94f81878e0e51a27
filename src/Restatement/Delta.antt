-- ===== src/Restatement/Delta.antt =====
-- domain/entities/edgar_restatement_delta.py. `prec` is the precision of the decimal context.
use arche_api.Base.{
  ℕ, Bool, not, ◌&&◌, Option, none, some, List, [], ◌∷◌, if◌then◌else◌, ◌==◌, filter,
}
use arche_api.Base.Int.{ℤ, pos, leb_ℤ, int_eq}
use arche_api.Base.Text.{Text, strip, is_empty, text_eq}
use arche_api.Base.Dict.{Dict, lookup, insert, keys, contains}
use arche_api.Base.Sort.{sort}
use arche_api.Base.Results.{Result, ok, err, ◌>>=◌, ◌>>◌, raise_if}
use arche_api.Decimal.{Decimal, decimal_beq, sub}
use arche_api.Entities.{
  CanonicalStatementMetric, metric_eq, metric_leb, StatementType, statement_type_eq,
  AccountingStandard, accounting_standard_eq, FiscalPeriod, fiscal_period_eq, Date, date_eq,
  CanonicalStatementPayload,
}
use arche_api.Restatement.Errors.{
  EdgarError, identity_mismatch, diff_inconsistent, blank_cik, bad_fiscal_year, blank_currency,
  bad_version_sequence,
}

pub record RestatementMetricDelta : Type 0 where
  pub metric : CanonicalStatementMetric
  pub old : Option Decimal
  pub new : Option Decimal
  pub diff : Option Decimal

pub record RestatementDelta : Type 0 where
  pub cik : Text
  pub statement_type : StatementType
  pub accounting_standard : AccountingStandard
  pub statement_date : Date
  pub fiscal_year : ℤ
  pub fiscal_period : FiscalPeriod
  pub currency : Text
  pub from_version_sequence : ℤ
  pub to_version_sequence : ℤ
  pub metrics : Dict CanonicalStatementMetric RestatementMetricDelta

-- `RestatementMetricDelta.__post_init__`
unfoldable pub check_metric_delta :
    ℕ → RestatementMetricDelta → Result EdgarError RestatementMetricDelta
check_metric_delta prec d = elim d.old [
  | none ↦ ok d
  | some old ↦ elim d.new [
    | none ↦ ok d
    | some new ↦ elim d.diff [
      | none ↦ ok d
      | some diff ↦
          if not (decimal_beq diff (sub prec new old)) then err diff_inconsistent else ok d
    ]
  ]
]

abbrev pub is_blank : Text → Bool
is_blank s = is_empty (strip s)

-- `RestatementDelta.__post_init__`
unfoldable pub check_delta : RestatementDelta → Result EdgarError RestatementDelta
check_delta d = do
  raise_if (is_blank d.cik) blank_cik
  raise_if (leb_ℤ d.fiscal_year (pos 0)) bad_fiscal_year
  raise_if (is_blank d.currency) blank_currency
  raise_if (leb_ℤ d.from_version_sequence (pos 0)) bad_version_sequence
  raise_if (leb_ℤ d.to_version_sequence (pos 0)) bad_version_sequence
  ok d

abbrev pub same_identity : CanonicalStatementPayload → CanonicalStatementPayload → Bool
same_identity a b =
    a.cik == b.cik
    && (a.statement_type == b.statement_type
        && (a.accounting_standard == b.accounting_standard
            && (a.statement_date == b.statement_date
                && (a.fiscal_year == b.fiscal_year
                    && (a.fiscal_period == b.fiscal_period && a.currency == b.currency)))))

-- `_ensure_payload_identity_match`
unfoldable pub ensure_payload_identity_match :
    CanonicalStatementPayload → CanonicalStatementPayload → Result EdgarError (Unit {0})
ensure_payload_identity_match a b = raise_if (not (same_identity a b)) identity_mismatch

-- The metrics that are looked at: those asked for, or the common ones in the order of their texts.
unfoldable pub candidate_metrics :
    CanonicalStatementPayload
    → CanonicalStatementPayload
    → Option (List CanonicalStatementMetric)
    → List CanonicalStatementMetric
candidate_metrics a b (some metrics) = metrics
candidate_metrics a b none =
    sort metric_leb (filter (λ m. contains m b.core_metrics) (keys a.core_metrics))

-- One round of the loop over the candidates.
unfoldable pub add_metric_delta :
    ℕ
    → CanonicalStatementPayload
    → CanonicalStatementPayload
    → CanonicalStatementMetric
    → Dict CanonicalStatementMetric RestatementMetricDelta
    → Result EdgarError (Dict CanonicalStatementMetric RestatementMetricDelta)
unfolding check_metric_delta
add_metric_delta prec a b m deltas = elim (lookup m a.core_metrics) [
  | none ↦ ok deltas
  | some old ↦ elim (lookup m b.core_metrics) [
    | none ↦ ok deltas
    | some new ↦ if decimal_beq new old then ok deltas else do
      d ←
          check_metric_delta prec
            (record { metric = m; old = some old; new = some new; diff = some (sub prec new old) })
      ok (insert m d deltas)
  ]
]

unfoldable pub collect_deltas :
    ℕ
    → CanonicalStatementPayload
    → CanonicalStatementPayload
    → List CanonicalStatementMetric
    → Dict CanonicalStatementMetric RestatementMetricDelta
    → Result EdgarError (Dict CanonicalStatementMetric RestatementMetricDelta)
unfolding add_metric_delta
collect_deltas prec a b [] deltas = ok deltas
collect_deltas prec a b (m ∷ ms) deltas =
    add_metric_delta prec a b m deltas >>= collect_deltas prec a b ms

-- The value object that `compute_restatement_delta` builds.
abbrev pub delta_record :
    CanonicalStatementPayload
    → CanonicalStatementPayload
    → Dict CanonicalStatementMetric RestatementMetricDelta
    → RestatementDelta
delta_record a b deltas = record {
  cik = a.cik;
  statement_type = a.statement_type;
  accounting_standard = a.accounting_standard;
  statement_date = a.statement_date;
  fiscal_year = a.fiscal_year;
  fiscal_period = a.fiscal_period;
  currency = a.currency;
  from_version_sequence = a.source_version_sequence;
  to_version_sequence = b.source_version_sequence;
  metrics = deltas;
}

unfoldable pub compute_restatement_delta :
    ℕ
    → CanonicalStatementPayload
    → CanonicalStatementPayload
    → Option (List CanonicalStatementMetric)
    → Result EdgarError RestatementDelta
unfolding ensure_payload_identity_match candidate_metrics collect_deltas check_delta
compute_restatement_delta prec a b metrics = do
  ensure_payload_identity_match a b
  deltas ← collect_deltas prec a b (candidate_metrics a b metrics) []
  check_delta (delta_record a b deltas)
