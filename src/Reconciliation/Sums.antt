-- ===== src/Reconciliation/Sums.antt =====
-- When the sum of some metrics over a bucket has a value.
use arche_api.Base.{ℕ, ◌≡◌, refl, ◌↔◌, inl, inr, Option, none, some, List, [], ◌∷◌, In}
use arche_api.Base.Dict.{Dict, lookup}
use arche_api.Decimal.{Decimal}
use arche_api.Entities.{CanonicalStatementMetric, metric_eq}
use arche_api.Reconciliation.Calendar.{StatementPeriod}
use arche_api.Reconciliation.Engine.{add_value, sum_core, sum_periods, sum_metrics_for_bucket}

-- None of the metrics is in the core.
abbrev pub AreMissing :
    List CanonicalStatementMetric → Dict CanonicalStatementMetric Decimal → Type 0
AreMissing ms core = (m : CanonicalStatementMetric) → In m ms → lookup m core ≡ none

module _ (prec : ℕ) where
  add_value-none :
      (v total : Option Decimal) → (add_value prec v total ≡ none) ↔ ((v ≡ none) × (total ≡ none))
  add_value-none none total = ((λ e. (refl, e)), (λ h. h.1))
  add_value-none (some v) total = ((λ e. cc), (λ h. cc (h.0)))

  sum_core-none :
      (ms : List CanonicalStatementMetric) (core : Dict CanonicalStatementMetric Decimal)
      (total : Option Decimal)
      → (sum_core prec ms core total ≡ none) ↔ (AreMissing ms core × (total ≡ none))
  sum_core-none [] core total = ((λ e. ((λ m i. absurd i), e)), (λ h. h.1))
  sum_core-none (m ∷ ms) core total =
      let rest = sum_core-none ms core (add_value prec (lookup m core) total) in
      let here = add_value-none (lookup m core) total in
      (
        λ e.
            let (missing, q) = rest.0 e in
            let (absent, t) = here.0 q in
            ((λ k i. elim i [ inl p ↦ rw p absent | inr j ↦ missing k j ]), t),
        λ (missing, t). rest.1 ((λ k i. missing k (inr i)), here.1 (missing m (inl refl), t)),
      )

  sum_periods-none :
      (ms : List CanonicalStatementMetric) (ps : List StatementPeriod) (total : Option Decimal)
      → (sum_periods prec ms ps total ≡ none) ↔ (
          ((p : StatementPeriod) → In p ps → AreMissing ms p.payload.core_metrics) × (total ≡ none))
  sum_periods-none ms [] total = ((λ e. ((λ p i. absurd i), e)), (λ h. h.1))
  sum_periods-none ms (p ∷ ps) total =
      let rest = sum_periods-none ms ps (sum_core prec ms p.payload.core_metrics total) in
      let here = sum_core-none ms p.payload.core_metrics total in
      (
        λ e.
            let (missing, q) = rest.0 e in
            let (absent, t) = here.0 q in
            ((λ k i. elim i [ inl s ↦ rw s absent | inr j ↦ missing k j ]), t),
        λ (missing, t). rest.1 ((λ k i. missing k (inr i)), here.1 (missing p (inl refl), t)),
      )

  -- Whatever the order in which the set of the metrics is gone through: there is a sum exactly if one
  -- of the metrics has a value in one of the periods.
  pub sum_metrics-none :
      (set_order : List CanonicalStatementMetric → List CanonicalStatementMetric)
      (ms : List CanonicalStatementMetric) (ps : List StatementPeriod)
      → ((m : CanonicalStatementMetric) → In m (set_order ms) ↔ In m ms)
      → (sum_metrics_for_bucket prec set_order ms ps ≡ none)
        ↔ ((p : StatementPeriod) → In p ps → AreMissing ms p.payload.core_metrics)
  unfolding sum_metrics_for_bucket
  sum_metrics-none set_order [] ps same = ((λ e p i m j. absurd j), (λ h. refl))
  sum_metrics-none set_order (m ∷ ms) ps same =
      let rest = sum_periods-none (set_order (m ∷ ms)) ps none in
      (
        λ e p i k j. (rest.0 e).0 p i k ((same k).1 j),
        λ h. rest.1 ((λ p i k j. h p i k ((same k).0 j)), refl),
      )
