-- ===== src/Reconciliation/Engine.antt =====
-- The rules of `ReconciliationEngine` (domain/services/reconciliation_engine.py), one at a time.
-- `prec` is the precision of the decimal context. `set_order` is the order in which Python goes
-- through the set of some metrics.
use arche_api.Base.{
  ℕ, Bool, true, false, not, Option, none, some, List, [], ◌∷◌, map, if◌then◌else◌, any, filter,
  nat_eq, head?,
}
use arche_api.Base.Text.{text_eq}
use arche_api.Base.Dict.{Dict, lookup, contains, keys, values}
use arche_api.Base.Results.{Result, ok, err, ◌>>=◌}
use arche_api.Decimal.{Decimal, decimal_zero, decimal_leb, is_zero, add, sub, abs}
use arche_api.Entities.{
  CanonicalStatementMetric, metric_eq, metric_value, StatementType, statement_type_eq,
  statement_type_value, FiscalPeriod, fiscal_period_beq, MaterialityClass, none_class, low, pass,
  fail, warning, ReconciliationStatus, identity_eq,
}
use arche_api.Reconciliation.Rules.{
  Notes, identity_notes, missing_components, rollforward_notes, ReconciliationResult,
  IdentityReconciliationRule, RollforwardReconciliationRule,
}
use arche_api.Reconciliation.Calendar.{
  ReconciliationError, index_out_of_range, StatementPeriod, BucketKey, Bucket, Alignment,
}

abbrev pub default_or : Decimal → Option Decimal → Decimal
default_or default none = default
default_or default (some t) = t

-- `(total or Decimal("0"))`
abbrev pub total_or_zero : Option Decimal → Decimal
total_or_zero none = decimal_zero
total_or_zero (some t) = if is_zero t then decimal_zero else t

-- Status and severity of a difference.
unfoldable pub verdict :
    ℕ → Decimal → MaterialityClass → Decimal → ReconciliationStatus × MaterialityClass
verdict prec tolerance severity delta =
    if decimal_leb (abs prec delta) tolerance then (pass, none_class) else (fail, severity)

module _ (prec : ℕ) where
  -- One metric of the sum.
  abbrev pub add_value : Option Decimal → Option Decimal → Option Decimal
  add_value none total = total
  add_value (some v) total = some (add prec (total_or_zero total) v)

  abbrev pub sum_core :
      List CanonicalStatementMetric
      → Dict CanonicalStatementMetric Decimal
      → Option Decimal
      → Option Decimal
  sum_core [] core total = total
  sum_core (m ∷ ms) core total = sum_core ms core (add_value (lookup m core) total)

  abbrev pub sum_periods :
      List CanonicalStatementMetric → List StatementPeriod → Option Decimal → Option Decimal
  sum_periods ms [] total = total
  sum_periods ms (p ∷ ps) total = sum_periods ms ps (sum_core ms p.payload.core_metrics total)

module _ (prec : ℕ)
    (set_order : List CanonicalStatementMetric → List CanonicalStatementMetric) where
  -- `_sum_metrics_for_bucket`
  unfoldable pub sum_metrics_for_bucket :
      List CanonicalStatementMetric → List StatementPeriod → Option Decimal
  sum_metrics_for_bucket [] periods = none
  sum_metrics_for_bucket (m ∷ ms) periods = sum_periods prec (set_order (m ∷ ms)) periods none

-- Status, severity and difference for the two sides of an identity.
unfoldable pub compare_sides :
    ℕ
    → Decimal
    → MaterialityClass
    → Option Decimal
    → Option Decimal
    → ReconciliationStatus × MaterialityClass × Option Decimal
unfolding verdict
compare_sides prec tolerance severity (some lhs) (some rhs) =
    let delta = sub prec rhs lhs in
    let (status, s) = verdict prec tolerance severity delta in (status, s, some delta)
compare_sides prec tolerance severity none rhs = (warning, low, none)
compare_sides prec tolerance severity (some lhs) none = (warning, low, none)

-- The statement types of the rule, if it has any, against those of the bucket.
abbrev pub is_applicable : Option (List StatementType) → Bucket → Bool
is_applicable none bucket = true
is_applicable (some []) bucket = true
is_applicable (some (t ∷ ts)) bucket = any (λ s. contains s bucket) (t ∷ ts)

module _ (prec : ℕ) (set_order : List CanonicalStatementMetric → List CanonicalStatementMetric)
    (default_tolerance : Decimal) where
  -- One bucket that the rule applies to, with the representative period.
  abbrev pub identity_result :
      IdentityReconciliationRule → BucketKey → Bucket → StatementPeriod → ReconciliationResult
  identity_result rule key bucket rep =
      let lhs = sum_metrics_for_bucket prec set_order rule.lhs_metrics (values bucket) in
      let rhs = sum_metrics_for_bucket prec set_order rule.rhs_metrics (values bucket) in
      let (status, severity, delta) =
        compare_sides prec (default_or default_tolerance rule.tolerance) rule.severity lhs rhs in
      record {
        statement_identity = record {
          cik = key.cik;
          statement_type = rep.statement_type;
          fiscal_year = key.fiscal_year;
          fiscal_period = key.fiscal_period;
          version_sequence = rep.identity.version_sequence;
        };
        rule_id = rule.rule_id;
        rule_category = rule.category;
        status = status;
        severity = severity;
        expected_value = lhs;
        actual_value = rhs;
        delta = delta;
        dimension_key = none;
        dimension_labels = none;
        notes =
            identity_notes (map metric_value rule.lhs_metrics) (map metric_value rule.rhs_metrics)
              (map statement_type_value (keys bucket));
      }

  -- `_apply_identity_rule`
  unfoldable pub apply_identity_rule :
      IdentityReconciliationRule
      → Alignment
      → Result ReconciliationError (List ReconciliationResult)
  unfolding sum_metrics_for_bucket compare_sides
  apply_identity_rule rule [] = ok []
  apply_identity_rule rule ((key, bucket) ∷ rest) =
      let others = apply_identity_rule rule rest in
      if not (is_applicable rule.applicable_statement_types bucket)
      then others
      else elim (head? (values bucket)) [
        | none ↦ err index_out_of_range
        | some rep ↦ (others >>= λ rs. ok (identity_result rule key bucket rep ∷ rs))
      ]

abbrev pub is_given_value : Option Decimal → Bool
is_given_value none = false
is_given_value (some v) = true

module _ (prec : ℕ) (default_tolerance : Decimal) where
  abbrev pub rollforward_base :
      RollforwardReconciliationRule → StatementPeriod → Notes → ReconciliationResult
  rollforward_base rule p notes = record {
    statement_identity = p.identity;
    rule_id = rule.rule_id;
    rule_category = rule.category;
    status = warning;
    severity = low;
    expected_value = none;
    actual_value = none;
    delta = none;
    dimension_key = none;
    dimension_labels = none;
    notes = notes;
  }

  -- The result for the opening and closing value and the total flow.
  abbrev pub rollforward_of :
      RollforwardReconciliationRule
      → StatementPeriod
      → Option Decimal
      → Option Decimal
      → Option Decimal
      → ReconciliationResult
  rollforward_of rule p (some opening) (some closing) (some flow) =
      let expected = add prec opening flow in
      let delta = sub prec closing expected in
      let (status, severity) =
        verdict prec (default_or default_tolerance rule.tolerance) rule.severity delta in
      record (rollforward_base rule p (
        rollforward_notes (metric_value rule.opening_metric) (metric_value rule.closing_metric)
          (map metric_value rule.flow_metrics))) {
            status = status;
            severity = severity;
            expected_value = some expected;
            actual_value = some closing;
            delta = some delta;
          }
  rollforward_of rule p opening closing flow =
      rollforward_base rule p
        (missing_components (is_given_value opening) (is_given_value closing) (is_given_value flow))

  abbrev pub has_granularity : Option FiscalPeriod → StatementPeriod → Bool
  has_granularity none p = true
  has_granularity (some g) p = fiscal_period_beq p.fiscal_period g

  abbrev pub rollforward_result :
      RollforwardReconciliationRule → StatementPeriod → ReconciliationResult
  rollforward_result rule p =
      let core = p.payload.core_metrics in
      rollforward_of rule p (lookup rule.opening_metric core) (lookup rule.closing_metric core)
        (sum_core prec rule.flow_metrics core none)

  -- `_apply_rollforward_rule`
  unfoldable pub apply_rollforward_rule :
      RollforwardReconciliationRule → List StatementPeriod → List ReconciliationResult
  unfolding verdict
  apply_rollforward_rule rule periods =
      map (rollforward_result rule) (filter (has_granularity rule.period_granularity) periods)
