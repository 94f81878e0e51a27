-- ===== src/Reconciliation/Verdicts.antt =====
-- What each rule says of the statements that it judges.
use arche_api.Base.{
  get_last?, In-filter, length, ℕ, ◌≡◌, refl, inl, inr, true, false, Option, none, some, List, [],
  ◌∷◌, All, In, Bool-cases, map-All, All-always, All-of-In, head?, filter,
}
use arche_api.Base.Dict.{Dict, values, contains}
use arche_api.Base.Sort.{sort, In-sort}
use arche_api.Base.Results.{ok}
use arche_api.Decimal.{Decimal}
use arche_api.Entities.{
  CanonicalStatementMetric, CanonicalStatementPayload, NormalizedStatementIdentity,
  EdgarNormalizedFact, identity_eq, metric_eq, fact_leb,
}
use arche_api.Reconciliation.Rules.{
  StatementReconciliationContext, ReconciliationResult, ReconciliationRule, identity_rule,
  rollforward_rule, fx_rule, calendar_rule, segment_rule, id_of, category_of,
  IdentityReconciliationRule, RollforwardReconciliationRule, FxReconciliationRule,
  CalendarReconciliationRule, SegmentRollupReconciliationRule,
}
use arche_api.Reconciliation.Calendar.{StatementPeriod, BucketKey, Bucket, Alignment, period_leb}
use arche_api.Reconciliation.CalendarLaws.{AreFilled}
use arche_api.Reconciliation.Engine.{
  is_applicable, identity_result, apply_identity_rule, rollforward_of, rollforward_result,
  has_granularity, apply_rollforward_rule,
}
use arche_api.Reconciliation.Single.{
  fx_result, apply_fx_rule, calendar_result, apply_calendar_rule, apply_segment_rule, is_parent,
  is_child, segment_result,
}
use arche_api.Reconciliation.Judgements.{
  IsWarning, IsCalendarVerdict, month_is_allowed, IsIdentityVerdict, IsRollforwardVerdict,
  IsSegmentVerdict, identity_result-cases, rollforward_result-cases, segment_of-cases,
}

module _ (prec : ℕ) (set_order : List CanonicalStatementMetric → List CanonicalStatementMetric)
    (default : Decimal) (alignment : Alignment) (periods : List StatementPeriod)
    (facts : Dict NormalizedStatementIdentity (List EdgarNormalizedFact)) where
  -- What a result of a rule says.
  abbrev pub Says : ReconciliationRule → ReconciliationResult → Type 0
  Says (identity_rule r) = λ result.
      (key : BucketKey) × (bucket : Bucket) × In (key, bucket) alignment
      × IsIdentityVerdict prec set_order default r bucket result
  Says (rollforward_rule r) = λ result.
      (p : StatementPeriod) × In p periods × IsRollforwardVerdict prec set_order default r p result
  Says (fx_rule r) = IsWarning
  Says (calendar_rule r) =
      λ result. (p : StatementPeriod) × In p periods × IsCalendarVerdict r p result
  Says (segment_rule r) = λ result.
      (identity : NormalizedStatementIdentity) × (fs : List EdgarNormalizedFact) × In (identity, fs)
        facts
      × IsSegmentVerdict prec set_order default r identity fs result

  -- It names the rule, and says what the rule says.
  abbrev pub IsOfRule : ReconciliationRule → ReconciliationResult → Type 0
  IsOfRule rule r = (r.rule_id ≡ id_of rule) × (r.rule_category ≡ category_of rule) × Says rule r

  module _ (rule : IdentityReconciliationRule) (key : BucketKey) (bucket : Bucket)
      (rest : Alignment) (rs : List ReconciliationResult)
      (e : apply_identity_rule prec set_order default rule rest ≡ ok rs) where
    applied_bucket :
        (p : StatementPeriod)
        → is_applicable rule.applicable_statement_types bucket ≡ true
        → head? (values bucket) ≡ some p
        → apply_identity_rule prec set_order default rule ((key, bucket) ∷ rest)
          ≡ ok (identity_result prec set_order default rule key bucket p ∷ rs)
    applied_bucket p t q = unfold apply_identity_rule in rw (t, q, e) refl

    skipped_bucket :
        is_applicable rule.applicable_statement_types bucket ≡ false
        → apply_identity_rule prec set_order default rule ((key, bucket) ∷ rest) ≡ ok rs
    skipped_bucket t = unfold apply_identity_rule in rw (t, e) refl

  apply_identity_rule-from :
      (rule : IdentityReconciliationRule) (some_buckets : Alignment)
      → ((b : BucketKey × Bucket) → In b some_buckets → In b alignment)
      → AreFilled some_buckets
      → (rs : List ReconciliationResult) × (apply_identity_rule prec set_order default rule
            some_buckets
          ≡ ok rs)
        × All (IsOfRule (identity_rule rule)) rs
  apply_identity_rule-from rule [] sub_of h = ([], unfold apply_identity_rule in refl, tt)
  apply_identity_rule-from rule ((key, bucket) ∷ rest) sub_of h =
      let (rs, e, good) = apply_identity_rule-from rule rest (λ b i. sub_of b (inr i)) h.1 in
      let (p, q) = h.0 in
      elim (Bool-cases (is_applicable rule.applicable_statement_types bucket)) [
        | inl t ↦ (
          identity_result prec set_order default rule key bucket p ∷ rs,
          applied_bucket rule key bucket rest rs e p t q,
          (
            (
              refl,
              refl,
              (
                key,
                bucket,
                sub_of (key, bucket) (inl refl),
                identity_result-cases prec set_order default rule key bucket p t,
              ),
            ),
            good,
          ),
        )
        | inr t ↦ (rs, skipped_bucket rule key bucket rest rs e t, good)
      ]

  pub apply_identity_rule-IsOfRule :
      (rule : IdentityReconciliationRule)
      → AreFilled alignment
      → (rs : List ReconciliationResult) × (apply_identity_rule prec set_order default rule
            alignment
          ≡ ok rs)
        × All (IsOfRule (identity_rule rule)) rs
  apply_identity_rule-IsOfRule rule = apply_identity_rule-from rule alignment (λ b i. i)

  rollforward_of-names :
      (rule : RollforwardReconciliationRule) (p : StatementPeriod)
      (opening closing flow : Option Decimal)
      → let r = rollforward_of prec default rule p opening closing flow in
        (r.rule_id ≡ rule.rule_id) × (r.rule_category ≡ rule.category)
  rollforward_of-names rule p (some x) (some y) (some z) = (refl, refl)
  rollforward_of-names rule p none y z = (refl, refl)
  rollforward_of-names rule p (some x) none z = (refl, refl)
  rollforward_of-names rule p (some x) (some y) none = (refl, refl)

  rollforward_result-IsOfRule :
      (rule : RollforwardReconciliationRule) (p : StatementPeriod)
      → In p periods
      → IsOfRule (rollforward_rule rule) (rollforward_result prec default rule p)
  rollforward_result-IsOfRule rule p i =
      let (named, kind) = rollforward_of-names rule p _ _ _ in
      (named, kind, (p, i, rollforward_result-cases prec set_order default rule p))

  pub apply_rollforward_rule-IsOfRule :
      (rule : RollforwardReconciliationRule)
      → All (IsOfRule (rollforward_rule rule)) (apply_rollforward_rule prec default rule periods)
  unfolding apply_rollforward_rule
  apply_rollforward_rule-IsOfRule rule =
      map-All (IsOfRule (rollforward_rule rule)) (rollforward_result prec default rule)
        (filter (has_granularity prec default rule.period_granularity) periods)
        (All-of-In _ (filter (has_granularity prec default rule.period_granularity) periods) (λ p i.
          rollforward_result-IsOfRule rule p
            (In-filter (has_granularity prec default rule.period_granularity) p periods i).0))

  pub apply_fx_rule-IsOfRule :
      (rule : FxReconciliationRule) (contexts : List StatementReconciliationContext)
      → All (IsOfRule (fx_rule rule)) (apply_fx_rule rule contexts)
  unfolding apply_fx_rule
  apply_fx_rule-IsOfRule rule contexts =
      map-All (IsOfRule (fx_rule rule)) (λ c. fx_result rule c.identity) contexts
        (All-always contexts (λ c. (refl, refl, (refl, refl, refl))))

  calendar_result-IsOfRule :
      (rule : CalendarReconciliationRule) (p : StatementPeriod)
      → In p periods
      → IsOfRule (calendar_rule rule) (calendar_result rule p)
  calendar_result-IsOfRule rule p i = (
    refl,
    refl,
    (
      p,
      i,
      (
        refl,
        elim (Bool-cases (month_is_allowed rule p)) [
          | inl e ↦ inl (e, rw e refl, rw e refl)
          | inr e ↦ inr (e, rw e refl, rw e refl)
        ],
      ),
    ),
  )

  pub apply_calendar_rule-IsOfRule :
      (rule : CalendarReconciliationRule)
      → All (IsOfRule (calendar_rule rule)) (apply_calendar_rule rule periods)
  unfolding apply_calendar_rule
  apply_calendar_rule-IsOfRule rule =
      map-All (IsOfRule (calendar_rule rule)) (calendar_result rule) (sort period_leb periods) (
        All-of-In _ (sort period_leb periods)
          (λ p i. calendar_result-IsOfRule rule p ((In-sort period_leb p periods).0 i)))

  segment_result-IsOfRule :
      (rule : SegmentRollupReconciliationRule) (identity : NormalizedStatementIdentity)
      (fs : List EdgarNormalizedFact)
      → In (identity, fs) facts
      → IsOfRule (segment_rule rule) (segment_result prec default rule identity fs)
  segment_result-IsOfRule rule identity fs i =
      let (named, kind, same, said) =
        segment_of-cases prec set_order default rule identity (length (filter (is_parent rule) fs))
          (get_last? (sort fact_leb (filter (is_parent rule) fs))) (filter (is_child rule) fs) in
      (named, kind, (identity, fs, i, (same, said)))

  apply_segment_rule-from :
      (rule : SegmentRollupReconciliationRule)
      (payloads : Dict NormalizedStatementIdentity CanonicalStatementPayload)
      (some_facts : Dict NormalizedStatementIdentity (List EdgarNormalizedFact))
      → ((q : NormalizedStatementIdentity × List EdgarNormalizedFact)
          → In q some_facts
          → In q facts)
      → All
          (IsOfRule (segment_rule rule))
          (apply_segment_rule prec default rule payloads some_facts)
  unfolding apply_segment_rule
  apply_segment_rule-from rule payloads [] sub_of = tt
  apply_segment_rule-from rule payloads ((identity, fs) ∷ rest) sub_of =
      let others = apply_segment_rule-from rule payloads rest (λ q i. sub_of q (inr i)) in
      elim (Bool-cases (contains identity payloads)) [
        | inl e ↦
            rw e
              (segment_result-IsOfRule rule identity fs (sub_of (identity, fs) (inl refl)), others)
        | inr e ↦ rw e others
      ]

  pub apply_segment_rule-IsOfRule :
      (rule : SegmentRollupReconciliationRule)
      (payloads : Dict NormalizedStatementIdentity CanonicalStatementPayload)
      → All (IsOfRule (segment_rule rule)) (apply_segment_rule prec default rule payloads facts)
  apply_segment_rule-IsOfRule rule payloads = apply_segment_rule-from rule payloads facts (λ q i. i)
