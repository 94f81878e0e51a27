-- ===== src/Reconciliation/Single.antt =====
-- The rules of `ReconciliationEngine` on foreign currency, the calendar and segments.
use arche_api.Base.{
  ℕ, Bool, not, ◌&&◌, Option, none, some, List, [], ◌∷◌, map, if◌then◌else◌, length, any, filter,
  leb, eqb, nat_eq, get_last?,
}
use arche_api.Base.Int.{int_eq}
use arche_api.Base.Text.{text_eq, text_beq}
use arche_api.Base.Dict.{Dict, insert, contains}
use arche_api.Base.Sort.{sort}
use arche_api.Decimal.{Decimal, decimal_zero, add, sub}
use arche_api.Entities.{
  metric_value, none_class, low, pass, fail, warning, date_eq, CanonicalStatementPayload,
  NormalizedStatementIdentity, identity_eq, EdgarNormalizedFact, fact_leb,
}
use arche_api.Reconciliation.Rules.{
  StatementReconciliationContext, Notes, fx_notes, calendar_notes, segment_missing, segment_notes,
  ReconciliationResult, FxReconciliationRule, CalendarReconciliationRule,
  SegmentRollupReconciliationRule,
}
use arche_api.Reconciliation.Calendar.{StatementPeriod, period_leb}
use arche_api.Reconciliation.Engine.{default_or, verdict}

abbrev pub fx_result : FxReconciliationRule → NormalizedStatementIdentity → ReconciliationResult
fx_result rule identity = record {
  statement_identity = identity;
  rule_id = rule.rule_id;
  rule_category = rule.category;
  status = warning;
  severity = low;
  expected_value = none;
  actual_value = none;
  delta = none;
  dimension_key = none;
  dimension_labels = none;
  notes =
      fx_notes (metric_value rule.base_metric)
        (elim rule.fx_rate_metric [ none ↦ none | some m ↦ some (metric_value m) ])
        rule.local_currency rule.reporting_currency;
}

-- `_apply_fx_rule`
unfoldable pub apply_fx_rule :
    FxReconciliationRule → List StatementReconciliationContext → List ReconciliationResult
apply_fx_rule rule contexts = map (λ c. fx_result rule c.identity) contexts

-- The elements of a set of months, each once.
abbrev pub distinct : List ℕ → List ℕ
distinct [] = []
distinct (m ∷ ms) = let rest = distinct ms in if any (λ k. eqb m k) ms then rest else m ∷ rest

abbrev pub calendar_result : CalendarReconciliationRule → StatementPeriod → ReconciliationResult
calendar_result rule p =
    let month = p.statement_date.month in
    let is_allowed = any (λ m. eqb month m) rule.allowed_fye_months in
    record {
      statement_identity = p.identity;
      rule_id = rule.rule_id;
      rule_category = rule.category;
      status = if is_allowed then pass else fail;
      severity = if not is_allowed then rule.severity else none_class;
      expected_value = none;
      actual_value = none;
      delta = none;
      dimension_key = none;
      dimension_labels = none;
      notes = calendar_notes month (sort leb (distinct rule.allowed_fye_months));
    }

-- `_apply_calendar_rule`
unfoldable pub apply_calendar_rule :
    CalendarReconciliationRule → List StatementPeriod → List ReconciliationResult
apply_calendar_rule rule periods = map (calendar_result rule) (sort period_leb periods)

-- `payload_by_identity`: a later context of the same identity replaces an earlier one.
abbrev pub index_payloads :
    List StatementReconciliationContext
    → Dict NormalizedStatementIdentity CanonicalStatementPayload
    → Dict NormalizedStatementIdentity CanonicalStatementPayload
index_payloads [] d = d
index_payloads (c ∷ cs) d = index_payloads cs (insert c.identity c.payload d)

abbrev pub is_parent : SegmentRollupReconciliationRule → EdgarNormalizedFact → Bool
is_parent rule f =
    text_beq f.metric_code (metric_value rule.parent_metric)
    && not (contains rule.rollup_dimension_key f.dimensions)

abbrev pub is_child : SegmentRollupReconciliationRule → EdgarNormalizedFact → Bool
is_child rule f =
    text_beq f.metric_code (metric_value rule.child_metric)
    && contains rule.rollup_dimension_key f.dimensions

module _ (prec : ℕ) (default_tolerance : Decimal) where
  -- `sum(..., Decimal("0"))`
  abbrev pub sum_facts : Decimal → List EdgarNormalizedFact → Decimal
  sum_facts total [] = total
  sum_facts total (f ∷ fs) = sum_facts (add prec total f.value) fs

  abbrev pub segment_base :
      SegmentRollupReconciliationRule → NormalizedStatementIdentity → Notes → ReconciliationResult
  segment_base rule identity notes = record {
    statement_identity = identity;
    rule_id = rule.rule_id;
    rule_category = rule.category;
    status = warning;
    severity = low;
    expected_value = none;
    actual_value = none;
    delta = none;
    dimension_key = none;
    dimension_labels = none;
    notes = notes;
  }

  -- The result for the last parent in the order of the key, if there is one, and the children.
  abbrev pub segment_of :
      SegmentRollupReconciliationRule
      → NormalizedStatementIdentity
      → ℕ
      → Option EdgarNormalizedFact
      → List EdgarNormalizedFact
      → ReconciliationResult
  segment_of rule identity parents none children =
      segment_base rule identity
        (segment_missing rule.rollup_dimension_key parents (length children))
  segment_of rule identity parents (some parent) [] =
      segment_base rule identity (segment_missing rule.rollup_dimension_key parents 0)
  segment_of rule identity parents (some parent) (c ∷ cs) =
      let child_sum = sum_facts decimal_zero (c ∷ cs) in
      let delta = sub prec child_sum parent.value in
      let (status, severity) =
        verdict prec (default_or default_tolerance rule.tolerance) rule.severity delta in
      record (segment_base rule identity (
        segment_notes rule.rollup_dimension_key (metric_value rule.parent_metric)
          (metric_value rule.child_metric) parent.dimension_key (length (c ∷ cs)))) {
            status = status;
            severity = severity;
            expected_value = some parent.value;
            actual_value = some child_sum;
            delta = some delta;
          }

  abbrev pub segment_result :
      SegmentRollupReconciliationRule
      → NormalizedStatementIdentity
      → List EdgarNormalizedFact
      → ReconciliationResult
  segment_result rule identity facts =
      let parents = filter (is_parent rule) facts in
      segment_of rule identity (length parents) (get_last? (sort fact_leb parents))
        (filter (is_child rule) facts)

  -- `_apply_segment_rule`
  unfoldable pub apply_segment_rule :
      SegmentRollupReconciliationRule
      → Dict NormalizedStatementIdentity CanonicalStatementPayload
      → Dict NormalizedStatementIdentity (List EdgarNormalizedFact)
      → List ReconciliationResult
  unfolding verdict
  apply_segment_rule rule payloads [] = []
  apply_segment_rule rule payloads ((identity, facts) ∷ rest) =
      let others = apply_segment_rule rule payloads rest in
      if contains identity payloads then segment_result rule identity facts ∷ others else others
