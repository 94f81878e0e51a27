-- ===== src/Reconciliation/Judgements.antt =====
-- What the result of a rule says of the values that it compares.
use arche_api.Base.{
  Option-cases, get_last?, ◌≢◌, ℕ, ◌≡◌, refl, ◌⊎◌, inl, inr, Bool, true, false, Option, none, some,
  List, [], ◌∷◌, Bool-cases, filter, any, eqb,
}
use arche_api.Base.Dict.{values, lookup}
use arche_api.Base.Sort.{sort}
use arche_api.Decimal.{Decimal, decimal_zero, decimal_leb, add, sub, abs}
use arche_api.Entities.{
  CanonicalStatementMetric, MaterialityClass, ReconciliationStatus, none_class, low, pass, fail,
  warning, NormalizedStatementIdentity, EdgarNormalizedFact, identity_eq, metric_eq, fact_leb,
}
use arche_api.Reconciliation.Rules.{
  ReconciliationResult, IdentityReconciliationRule, RollforwardReconciliationRule,
  CalendarReconciliationRule, SegmentRollupReconciliationRule,
}
use arche_api.Reconciliation.Calendar.{StatementPeriod, BucketKey, Bucket}
use arche_api.Reconciliation.Engine.{
  default_or, verdict, compare_sides, sum_metrics_for_bucket, sum_core, is_applicable,
  identity_result, rollforward_of, rollforward_result,
}
use arche_api.Reconciliation.Single.{segment_of, is_parent, is_child, sum_facts}

-- A difference within the tolerance passes; a greater one fails with the severity of the rule.
abbrev pub Judged :
    ℕ → Decimal → MaterialityClass → Decimal → ReconciliationStatus → MaterialityClass → Type 0
Judged prec tolerance severity delta status s =
    ((decimal_leb (abs prec delta) tolerance ≡ true) × (status ≡ pass) × (s ≡ none_class))
    ⊎ ((decimal_leb (abs prec delta) tolerance ≡ false) × (status ≡ fail) × (s ≡ severity))

-- No judgement: a warning of low severity without a difference.
abbrev pub Warned : ReconciliationStatus → MaterialityClass → Option Decimal → Type 0
Warned status s delta = (status ≡ warning) × (s ≡ low) × (delta ≡ none)

abbrev pub IsWarning : ReconciliationResult → Type 0
IsWarning r = Warned r.status r.severity r.delta

-- The difference of two values with its judgement.
abbrev pub IsJudged :
    ℕ → Decimal → MaterialityClass → Decimal → Decimal → ReconciliationResult → Type 0
IsJudged prec tolerance severity x y r =
    (r.expected_value ≡ some x)
    × (r.actual_value ≡ some y)
    × (r.delta ≡ some (sub prec y x))
    × Judged prec tolerance severity (sub prec y x) r.status r.severity

verdict_lem :
    (prec : ℕ) (tolerance : Decimal) (severity : MaterialityClass) (delta : Decimal)
    → Judged prec tolerance severity delta
        (verdict prec tolerance severity delta).0
        (verdict prec tolerance severity delta).1
unfolding verdict
verdict_lem prec tolerance severity delta =
    elim (Bool-cases (decimal_leb (abs prec delta) tolerance)) [
      | inl e ↦ inl (e, rw e refl, rw e refl)
      | inr e ↦ inr (e, rw e refl, rw e refl)
    ]

-- The month of a statement's date is among those that the rule allows.
abbrev pub month_is_allowed : CalendarReconciliationRule → StatementPeriod → Bool
month_is_allowed rule p = any (λ m. eqb p.statement_date.month m) rule.allowed_fye_months

abbrev pub IsCalendarVerdict :
    CalendarReconciliationRule → StatementPeriod → ReconciliationResult → Type 0
IsCalendarVerdict rule p r =
    (r.statement_identity ≡ p.identity)
    × (((month_is_allowed rule p ≡ true) × (r.status ≡ pass) × (r.severity ≡ none_class))
        ⊎ ((month_is_allowed rule p ≡ false) × (r.status ≡ fail) × (r.severity ≡ rule.severity)))

module _ (prec : ℕ) (set_order : List CanonicalStatementMetric → List CanonicalStatementMetric)
    (default : Decimal) where
  -- For a bucket that the rule applies to: a warning exactly where one of the two sums is missing, and
  -- otherwise their difference with its judgement.
  abbrev pub IsIdentityVerdict : IdentityReconciliationRule → Bucket → ReconciliationResult → Type 0
  IsIdentityVerdict rule bucket r =
      let lhs = sum_metrics_for_bucket prec set_order rule.lhs_metrics (values bucket) in
      let rhs = sum_metrics_for_bucket prec set_order rule.rhs_metrics (values bucket) in
      (is_applicable rule.applicable_statement_types bucket ≡ true)
      × ((((lhs ≡ none) ⊎ (rhs ≡ none)) × IsWarning r)
          ⊎ ((x y : Decimal) × (lhs ≡ some x)
              × (rhs ≡ some y)
              × IsJudged prec (default_or default rule.tolerance) rule.severity x y r))

  -- For a period: a warning exactly where the opening value, the closing value or the flow is missing,
  -- and otherwise the closing value less the opening value and the flow, with its judgement.
  abbrev pub IsRollforwardVerdict :
      RollforwardReconciliationRule → StatementPeriod → ReconciliationResult → Type 0
  IsRollforwardVerdict rule p r =
      let opening = lookup rule.opening_metric p.payload.core_metrics in
      let closing = lookup rule.closing_metric p.payload.core_metrics in
      let flow = sum_core prec rule.flow_metrics p.payload.core_metrics none in
      (r.statement_identity ≡ p.identity)
      × ((((opening ≡ none) ⊎ ((closing ≡ none) ⊎ (flow ≡ none))) × IsWarning r)
          ⊎ ((x y z : Decimal) × (opening ≡ some x)
              × (closing ≡ some y)
              × (flow ≡ some z)
              × IsJudged prec (default_or default rule.tolerance) rule.severity (add prec x z) y r))

  -- For the facts of a statement: a warning exactly where there is no parent or no child, and otherwise
  -- the sum of the children less the value of the last parent, with its judgement.
  abbrev pub IsSegmentVerdict :
      SegmentRollupReconciliationRule
      → NormalizedStatementIdentity
      → List EdgarNormalizedFact
      → ReconciliationResult
      → Type 0
  IsSegmentVerdict rule identity fs r =
      let parent = get_last? (sort fact_leb (filter (is_parent rule) fs)) in
      let children = filter (is_child rule) fs in
      (r.statement_identity ≡ identity)
      × ((((parent ≡ none) ⊎ (children ≡ [])) × IsWarning r)
          ⊎ ((q : EdgarNormalizedFact) × (parent ≡ some q)
              × (children ≢ [])
              × IsJudged prec (default_or default rule.tolerance) rule.severity q.value
                  (sum_facts prec default decimal_zero children) r))

  pub identity_result-cases :
      (rule : IdentityReconciliationRule) (key : BucketKey) (bucket : Bucket)
      (rep : StatementPeriod)
      → is_applicable rule.applicable_statement_types bucket ≡ true
      → IsIdentityVerdict rule bucket (identity_result prec set_order default rule key bucket rep)
  unfolding compare_sides
  identity_result-cases rule key bucket rep applies = (
    applies,
    elim (Option-cases (sum_metrics_for_bucket prec set_order rule.lhs_metrics (values bucket))) [
      | inl l ↦ inl (inl l, rw l (refl, refl, refl))
      | inr (x, l) ↦
          elim (Option-cases
            (sum_metrics_for_bucket prec set_order rule.rhs_metrics (values bucket))) [
              | inl m ↦ inl (inr m, rw (l, m) (refl, refl, refl))
              | inr (y, m) ↦ inr (
                x,
                y,
                l,
                m,
                (
                  l,
                  m,
                  rw (l, m) refl,
                  rw (l, m)
                      (verdict_lem prec (default_or default rule.tolerance) rule.severity
                        (sub prec y x)),
                ),
              )
            ]
    ],
  )

  pub rollforward_result-cases :
      (rule : RollforwardReconciliationRule) (p : StatementPeriod)
      → IsRollforwardVerdict rule p (rollforward_result prec default rule p)
  rollforward_result-cases rule p = (
    same _ _ _,
    elim (Option-cases (lookup rule.opening_metric p.payload.core_metrics)) [
      | inl o ↦ inl (inl o, rw o (refl, refl, refl))
      | inr (x, o) ↦ elim (Option-cases (lookup rule.closing_metric p.payload.core_metrics)) [
        | inl c ↦ inl (inr (inl c), rw (o, c) (refl, refl, refl))
        | inr (y, c) ↦
            elim (Option-cases (sum_core prec rule.flow_metrics p.payload.core_metrics none)) [
              | inl f ↦ inl (inr (inr f), rw (o, c, f) (refl, refl, refl))
              | inr (z, f) ↦ inr (
                x,
                y,
                z,
                o,
                c,
                f,
                rw (o, c, f)
                    (
                      refl,
                      refl,
                      refl,
                      verdict_lem prec (default_or default rule.tolerance) rule.severity
                          (sub prec y (add prec x z)),
                    ),
              )
            ]
      ]
    ],
  )
    where
      same :
          (opening closing flow : Option Decimal)
          → (rollforward_of prec default rule p opening closing flow).statement_identity
            ≡ p.identity
      same (some x) (some y) (some z) = refl
      same none y z = refl
      same (some x) none z = refl
      same (some x) (some y) none = refl

  pub segment_of-cases :
      (rule : SegmentRollupReconciliationRule) (identity : NormalizedStatementIdentity) (n : ℕ)
      (parent : Option EdgarNormalizedFact) (children : List EdgarNormalizedFact)
      → let r = segment_of prec default rule identity n parent children in
        (r.rule_id ≡ rule.rule_id)
        × (r.rule_category ≡ rule.category)
        × (r.statement_identity ≡ identity)
        × ((((parent ≡ none) ⊎ (children ≡ [])) × IsWarning r)
            ⊎ ((q : EdgarNormalizedFact) × (parent ≡ some q)
                × (children ≢ [])
                × IsJudged prec
                    (default_or default rule.tolerance)
                    rule.severity
                    q.value
                    (sum_facts prec default decimal_zero children)
                    r))
  segment_of-cases rule identity n none children =
      (refl, refl, refl, inl (inl refl, (refl, refl, refl)))
  segment_of-cases rule identity n (some q) [] =
      (refl, refl, refl, inl (inr refl, (refl, refl, refl)))
  segment_of-cases rule identity n (some q) (c ∷ cs) = (
    refl,
    refl,
    refl,
    inr (q, refl, λ e. cc e, (refl, refl, refl, verdict_lem prec _ rule.severity _)),
  )
