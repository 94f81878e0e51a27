-- ===== src/Restatement/Timeline.antt =====
-- domain/services/restatement_timeline.py and domain/entities/restatement_metric_timeline.py.
use arche_api.Base.{
  ℕ, suc, ◌+◌, Bool, true, not, ◌||◌, Option, none, some, List, [], ◌∷◌, ◌++◌, if◌then◌else◌,
  length, any, ltb, leb,
}
use arche_api.Base.Int.{ℤ, pos}
use arche_api.Base.Text.{Text, text_eq}
use arche_api.Base.Dict.{Dict, lookup, insert, keys, values, contains}
use arche_api.Base.Results.{Result, ok, err, ◌>>◌, raise_if}
use arche_api.Decimal.{Decimal, whole, decimal_zero, decimal_leb, decimal_ltb, is_zero, copy_abs}
use arche_api.Entities.{
  CanonicalStatementMetric, metric_value, StatementType, FiscalPeriod, MaterialityClass, none_class,
  low, medium, high,
}
use arche_api.Restatement.Errors.{
  EdgarError, empty_ledger, bad_total_hops, hop_out_of_range, negative_delta, unknown_metric,
}
use arche_api.Restatement.Delta.{RestatementMetricDelta, RestatementDelta}

pub record RestatementMetricTimeline : Type 0 where
  pub cik : Text
  pub statement_type : StatementType
  pub fiscal_year : ℤ
  pub fiscal_period : FiscalPeriod
  pub by_metric : Dict Text (List (ℕ × Decimal))
  pub total_hops : ℕ
  pub restatement_frequency : Dict Text ℕ
  pub per_metric_max_delta : Dict Text Decimal
  pub timeline_severity : MaterialityClass

-- The two tests of one pair.
abbrev pub check_hop : ℕ → ℕ × Decimal → Result EdgarError (Unit {0})
check_hop total (hop, delta) = do
  raise_if (leb hop 0 || ltb total hop) hop_out_of_range
  raise_if (decimal_ltb delta decimal_zero) negative_delta

abbrev pub check_hops : ℕ → List (ℕ × Decimal) → Result EdgarError (Unit {0})
check_hops total [] = ok tt
check_hops total (h ∷ hs) = do check_hop total h; check_hops total hs

abbrev pub check_by_metric : ℕ → Dict Text (List (ℕ × Decimal)) → Result EdgarError (Unit {0})
check_by_metric total [] = ok tt
check_by_metric total ((code, hops) ∷ rest) = do check_hops total hops; check_by_metric total rest

-- Whether the set difference of the keys is empty.
abbrev pub has_extra : Dict Text (List (ℕ × Decimal)) → List Text → Bool
has_extra by_metric codes = any (λ c. not (contains c by_metric)) codes

-- `RestatementMetricTimeline.__post_init__`
unfoldable pub check_timeline :
    RestatementMetricTimeline → Result EdgarError RestatementMetricTimeline
check_timeline t = do
  raise_if (leb t.total_hops 0) bad_total_hops
  check_by_metric t.total_hops t.by_metric
  raise_if (has_extra t.by_metric (keys t.restatement_frequency)) unknown_metric
  raise_if (has_extra t.by_metric (keys t.per_metric_max_delta)) unknown_metric
  ok t

-- `_classify_timeline`
unfoldable pub classify_timeline : Decimal → MaterialityClass
classify_timeline x =
    if decimal_leb x decimal_zero
    then none_class
    else if decimal_ltb x (whole (pos 1000000))
    then low
    else if decimal_ltb x (whole (pos 10000000))
    then medium
    else high

-- The three dictionaries that the loop fills.
pub record Series : Type 0 where
  pub by_metric : Dict Text (List (ℕ × Decimal))
  pub restatement_frequency : Dict Text ℕ
  pub per_metric_max_delta : Dict Text Decimal

abbrev pub empty_series : Series
empty_series = record { by_metric = []; restatement_frequency = []; per_metric_max_delta = [] }

-- `defaultdict(list)` and `defaultdict(int)` on a missing key.
abbrev pub or_nil : Option (List (ℕ × Decimal)) → List (ℕ × Decimal)
or_nil none = []
or_nil (some xs) = xs

abbrev pub or_zero : Option ℕ → ℕ
or_zero none = 0
or_zero (some n) = n

-- `current_max is None or abs_delta > current_max`
abbrev pub exceeds : Decimal → Option Decimal → Bool
exceeds x none = true
exceeds x (some current) = decimal_ltb current x

-- A metric with a difference, in the loop over `delta.metrics`.
unfoldable pub record_diff : ℕ → Text → Decimal → Series → Series
record_diff hop code x s = record {
  by_metric = insert code (or_nil (lookup code s.by_metric) ++ ((hop, x) ∷ [])) s.by_metric;
  restatement_frequency =
      if not (is_zero x)
      then insert code (or_zero (lookup code s.restatement_frequency) + 1) s.restatement_frequency
      else s.restatement_frequency;
  per_metric_max_delta =
      if exceeds x (lookup code s.per_metric_max_delta)
      then insert code x s.per_metric_max_delta
      else s.per_metric_max_delta;
}

abbrev pub record_metric : ℕ → CanonicalStatementMetric → Option Decimal → Series → Series
record_metric hop m none s = s
record_metric hop m (some diff) s = record_diff hop (metric_value m) (copy_abs diff) s

abbrev pub record_metrics :
    ℕ → Dict CanonicalStatementMetric RestatementMetricDelta → Series → Series
record_metrics hop [] s = s
record_metrics hop ((m, d) ∷ rest) s = record_metrics hop rest (record_metric hop m d.diff s)

-- The loop over the ledger, from the given hop on.
abbrev pub record_ledger : ℕ → List RestatementDelta → Series → Series
record_ledger hop [] s = s
record_ledger hop (d ∷ ds) s = record_ledger (suc hop) ds (record_metrics hop d.metrics s)

abbrev pub larger : Decimal → Decimal → Decimal
larger current x = if decimal_ltb current x then x else current

-- The rest of `max`, with the greatest so far.
abbrev pub max_from : Decimal → List Decimal → Decimal
max_from current [] = current
max_from current (x ∷ xs) = max_from (larger current x) xs

-- `max(xs, default=Decimal("0"))`
abbrev pub max_value : List Decimal → Decimal
max_value [] = decimal_zero
max_value (x ∷ xs) = max_from x xs

-- `build_restatement_metric_timeline`; the identity is that of the first delta.
unfoldable pub build_restatement_metric_timeline :
    List RestatementDelta → Result EdgarError RestatementMetricTimeline
unfolding check_timeline classify_timeline
build_restatement_metric_timeline [] = err empty_ledger
build_restatement_metric_timeline (d ∷ ds) =
    let s = record_ledger 1 (d ∷ ds) empty_series in
    check_timeline (record {
      cik = d.cik;
      statement_type = d.statement_type;
      fiscal_year = d.fiscal_year;
      fiscal_period = d.fiscal_period;
      by_metric = s.by_metric;
      total_hops = length (d ∷ ds);
      restatement_frequency = s.restatement_frequency;
      per_metric_max_delta = s.per_metric_max_delta;
      timeline_severity = classify_timeline (max_value (values s.per_metric_max_delta));
    })
