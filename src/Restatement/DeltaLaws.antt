-- ===== src/Restatement/DeltaLaws.antt =====
-- What a restatement delta says of its two payloads.
use arche_api.Base.{
  ℕ, ◌≡◌, refl, ◌∙◌, ◌⊎◌, inl, inr, Bool, true, false, ◌||◌, Option, none, some, List, [], ◌∷◌,
  if◌then◌else◌, ◌==◌, filter, any, arith, In, Bool-cases, Option-cases, filter-In,
}
use arche_api.Base.Dict.{Dict, lookup, insert, keys, contains, lookup-insert}
use arche_api.Base.Sort.{In-sort}
use arche_api.Base.Results.{ok, err, ◌>>=◌}
use arche_api.Decimal.{Decimal, decimal_beq, decimal_beq_refl, sub}
use arche_api.Entities.{
  CanonicalStatementMetric, metric_eq, metric_beq_iff, metric_leb, CanonicalStatementPayload,
  check_payload, validate_identity, validate_source,
}
use arche_api.Restatement.Errors.{identity_mismatch}
use arche_api.Restatement.Delta.{
  RestatementMetricDelta, RestatementDelta, check_delta, same_identity,
  ensure_payload_identity_match, candidate_metrics, add_metric_delta, collect_deltas,
  compute_restatement_delta, delta_record,
}

-- The entry of one metric, from the two values alone: both present and different.
abbrev pub expected_of :
    ℕ → CanonicalStatementMetric → Option Decimal → Option Decimal → Option RestatementMetricDelta
expected_of prec m none o = none
expected_of prec m (some old) none = none
expected_of prec m (some old) (some new) =
    if decimal_beq new old
    then none
    else some
        (record { metric = m; old = some old; new = some new; diff = some (sub prec new old) })

abbrev pub expected_delta :
    ℕ
    → CanonicalStatementPayload
    → CanonicalStatementPayload
    → CanonicalStatementMetric
    → Option RestatementMetricDelta
expected_delta prec a b m = expected_of prec m (lookup m a.core_metrics) (lookup m b.core_metrics)

abbrev or_else :
    Option RestatementMetricDelta → Option RestatementMetricDelta → Option RestatementMetricDelta
or_else none o = o
or_else (some d) o = some d

abbrev put :
    CanonicalStatementMetric
    → Option RestatementMetricDelta
    → Dict CanonicalStatementMetric RestatementMetricDelta
    → Dict CanonicalStatementMetric RestatementMetricDelta
put m none deltas = deltas
put m (some d) deltas = insert m d deltas

or_else-none : (o : Option RestatementMetricDelta) → or_else o none ≡ o
or_else-none none = refl
or_else-none (some d) = refl

lookup-put :
    (k m : CanonicalStatementMetric) (o : Option RestatementMetricDelta)
    (deltas : Dict CanonicalStatementMetric RestatementMetricDelta)
    → lookup k (put m o deltas) ≡ (if k == m then or_else o (lookup k deltas) else lookup k deltas)
lookup-put k m none deltas = ground arith
lookup-put k m (some d) deltas = lookup-insert k m d deltas

regroup :
    (p q : Bool) (x y : Option RestatementMetricDelta)
    → (if p then or_else x (if q then or_else x y else y) else if q then or_else x y else y)
      ≡ (if q || p then or_else x y else y)
regroup p q none y = ground arith
regroup p q (some d) y = ground arith

module _ (prec : ℕ) (a b : CanonicalStatementPayload) where
  abbrev add_expected :
      CanonicalStatementMetric
      → Dict CanonicalStatementMetric RestatementMetricDelta
      → Dict CanonicalStatementMetric RestatementMetricDelta
  add_expected m deltas = put m (expected_delta prec a b m) deltas

  -- The check of the entry's arithmetic never fails, and the round adds what is expected.
  add_metric_delta_lem :
      (m : CanonicalStatementMetric) (deltas : Dict CanonicalStatementMetric RestatementMetricDelta)
      → add_metric_delta prec a b m deltas ≡ ok (add_expected m deltas)
  unfolding add_metric_delta
  add_metric_delta_lem m deltas = elim (Option-cases (lookup m a.core_metrics)) [
    | inl e ↦ ground arith
    | inr (old, e) ↦ elim (Option-cases (lookup m b.core_metrics)) [
      | inl e' ↦ ground arith
      | inr (new, e') ↦ ground (arith, decimal_beq_refl (sub prec new old))
    ]
  ]

  abbrev fold_expected :
      List CanonicalStatementMetric
      → Dict CanonicalStatementMetric RestatementMetricDelta
      → Dict CanonicalStatementMetric RestatementMetricDelta
  fold_expected [] deltas = deltas
  fold_expected (m ∷ ms) deltas = fold_expected ms (add_expected m deltas)

  collect_deltas-cons :
      (m : CanonicalStatementMetric) (ms : List CanonicalStatementMetric)
      (deltas : Dict CanonicalStatementMetric RestatementMetricDelta)
      → collect_deltas prec a b (m ∷ ms) deltas
        ≡ (add_metric_delta prec a b m deltas >>= collect_deltas prec a b ms)
  unfolding collect_deltas
  collect_deltas-cons m ms deltas = refl

  collect_deltas_lem :
      (ms : List CanonicalStatementMetric)
      (deltas : Dict CanonicalStatementMetric RestatementMetricDelta)
      → collect_deltas prec a b ms deltas ≡ ok (fold_expected ms deltas)
  collect_deltas_lem [] deltas = unfold collect_deltas in refl
  collect_deltas_lem (m ∷ ms) deltas =
      rw (collect_deltas-cons m ms deltas, add_metric_delta_lem m deltas)
        (collect_deltas_lem ms (add_expected m deltas))

  lookup-add_expected :
      (k m : CanonicalStatementMetric)
      (deltas : Dict CanonicalStatementMetric RestatementMetricDelta)
      → lookup k (add_expected m deltas) ≡ (
          if k == m then or_else (expected_delta prec a b k) (lookup k deltas) else lookup k deltas)
  lookup-add_expected k m deltas = elim (Bool-cases (k == m)) [
    | inl q ↦ rw (lookup-put k m (expected_delta prec a b m) deltas, (metric_beq_iff k m).0 q) refl
    | inr q ↦ rw (lookup-put k m (expected_delta prec a b m) deltas, q) refl
  ]

  lookup-fold_expected :
      (k : CanonicalStatementMetric) (ms : List CanonicalStatementMetric)
      (deltas : Dict CanonicalStatementMetric RestatementMetricDelta)
      → lookup k (fold_expected ms deltas) ≡ (
          if any (λ m. k == m) ms
          then or_else (expected_delta prec a b k) (lookup k deltas)
          else lookup k deltas)
  lookup-fold_expected k [] deltas = refl
  lookup-fold_expected k (m ∷ ms) deltas =
      rw (lookup-fold_expected k ms (add_expected m deltas), lookup-add_expected k m deltas)
        (regroup (any (λ j. k == j) ms) (k == m) (expected_delta prec a b k) (lookup k deltas))

In-keys :
    (m : CanonicalStatementMetric) (d : Dict CanonicalStatementMetric Decimal) (v : Decimal)
    → lookup m d ≡ some v
    → In m (keys d)
In-keys m [] v e = cc
In-keys m ((k, w) ∷ d) v e = ground (arith, metric_beq_iff m k, In-keys m d v)

any-In :
    (m : CanonicalStatementMetric) (ms : List CanonicalStatementMetric)
    → In m ms
    → any (λ j. m == j) ms ≡ true
any-In m [] i = absurd i
any-In m (k ∷ ms) i = ground (arith, metric_beq_iff m k, any-In m ms)

-- Whether the caller asked for the metric: all, if no selection was given.
abbrev pub is_asked : Option (List CanonicalStatementMetric) → CanonicalStatementMetric → Bool
is_asked none m = true
is_asked (some ms) m = any (λ j. m == j) ms

module _ (prec : ℕ) (a b : CanonicalStatementPayload) where
  -- A metric that both payloads have is a candidate.
  candidate :
      (m : CanonicalStatementMetric) (v w : Decimal)
      → lookup m a.core_metrics ≡ some v
      → lookup m b.core_metrics ≡ some w
      → any (λ j. m == j) (candidate_metrics a b none) ≡ true
  unfolding candidate_metrics
  candidate m v w e e' = any-In m (candidate_metrics a b none) (
      (In-sort metric_leb m (filter (λ m. contains m b.core_metrics) (keys a.core_metrics))).1 (
        filter-In (λ m. contains m b.core_metrics) m (keys a.core_metrics)
          (In-keys m a.core_metrics v e) (ground arith)))

  or_else_absent :
      (q : Bool) (m : CanonicalStatementMetric)
      → expected_delta prec a b m ≡ none ⊎ (q ≡ true)
      → (if q then or_else (expected_delta prec a b m) none else none) ≡ expected_delta prec a b m
  or_else_absent q m h = elim (Option-cases (expected_delta prec a b m)) [
    | inl e ↦ rw e (ground arith)
    | inr (d, e) ↦ rw e (ground arith)
  ]

  absent_or_candidate :
      (m : CanonicalStatementMetric)
      → expected_delta prec a b m ≡ none ⊎ (any (λ j. m == j) (candidate_metrics a b none) ≡ true)
  absent_or_candidate m = elim (Option-cases (lookup m a.core_metrics)) [
    | inl e ↦ inl (rw e refl)
    | inr (v, e) ↦ elim (Option-cases (lookup m b.core_metrics)) [
      | inl e' ↦ inl (rw (e, e') refl)
      | inr (w, e') ↦ inr (candidate m v w e e')
    ]
  ]

  lookup-collected :
      (metrics : Option (List CanonicalStatementMetric)) (m : CanonicalStatementMetric)
      → lookup m (fold_expected prec a b (candidate_metrics a b metrics) [])
        ≡ (if is_asked metrics m then expected_delta prec a b m else none)
  lookup-collected (some ms) m =
      unfold candidate_metrics in
      rw (lookup-fold_expected prec a b m ms [], or_else-none (expected_delta prec a b m)) refl
  lookup-collected none m =
      rw (lookup-fold_expected prec a b m (candidate_metrics a b none) [])
        (or_else_absent (any (λ j. m == j) (candidate_metrics a b none)) m (absent_or_candidate m))

  -- The identity and the two versions, and of the metrics asked for the values that differ.
  abbrev pub IsDeltaOf : Option (List CanonicalStatementMetric) → RestatementDelta → Type 0
  IsDeltaOf metrics d =
      (d.cik ≡ a.cik)
      × (d.from_version_sequence ≡ a.source_version_sequence)
      × (d.to_version_sequence ≡ b.source_version_sequence)
      × ((m : CanonicalStatementMetric)
          → lookup m d.metrics ≡ (if is_asked metrics m then expected_delta prec a b m else none))

  check_delta-valid :
      (deltas : Dict CanonicalStatementMetric RestatementMetricDelta)
      → check_payload a ≡ ok tt
      → check_payload b ≡ ok tt
      → check_delta (delta_record a b deltas) ≡ ok (delta_record a b deltas)
  unfolding check_delta check_payload validate_identity validate_source
  check_delta-valid deltas h k = ground arith

  compute_step :
      (metrics : Option (List CanonicalStatementMetric))
      → same_identity a b ≡ true
      → compute_restatement_delta prec a b metrics
        ≡ check_delta (delta_record a b (fold_expected prec a b (candidate_metrics a b metrics) []))
  unfolding compute_restatement_delta ensure_payload_identity_match
  compute_step metrics same =
      rw (same, collect_deltas_lem prec a b (candidate_metrics a b metrics) []) refl

  -- For two valid payloads of one statement identity there is a delta, whatever the precision; it
  -- names the two versions, and a metric has an entry exactly when it was asked for and both payloads
  -- have it with different values: the two values and their difference.
  pub compute_restatement_delta_total :
      (metrics : Option (List CanonicalStatementMetric))
      → check_payload a ≡ ok tt
      → check_payload b ≡ ok tt
      → same_identity a b ≡ true
      → (d : RestatementDelta) × (compute_restatement_delta prec a b metrics ≡ ok d)
        × IsDeltaOf metrics d
  compute_restatement_delta_total metrics h k same =
      let deltas = fold_expected prec a b (candidate_metrics a b metrics) [] in
      (
        delta_record a b deltas,
        compute_step metrics same ∙ check_delta-valid deltas h k,
        (refl, refl, refl, lookup-collected metrics),
      )

  -- Payloads of different identities have no delta.
  pub compute_restatement_delta_mismatch :
      (metrics : Option (List CanonicalStatementMetric))
      → same_identity a b ≡ false
      → compute_restatement_delta prec a b metrics ≡ err identity_mismatch
  unfolding compute_restatement_delta ensure_payload_identity_match
  compute_restatement_delta_mismatch metrics e = rw e refl
