-- ===== src/Normalization/Completeness.antt =====
-- Every registered metric has a value or a warning.
use mathlib.Core.Option.{some-injective}
use arche_api.Base.{
  ℕ, ◌≡◌, refl, sym, ap, ◌∙◌, ◌⊎◌, inl, inr, Option, none, some, List, [], ◌∷◌, ◌++◌, In,
  Bool-cases, ◌==◌,
}
use arche_api.Base.Text.{Text}
use arche_api.Base.Dict.{Dict, lookup, lookup-insert}
use arche_api.Base.Results.{Result, ok, err, bind-ok, ok-injective}
use arche_api.Decimal.{Decimal}
use arche_api.Entities.{CanonicalStatementMetric, metric_eq, metric_beq_iff}
use arche_api.Normalization.Types.{
  EdgarFact, CanonicalMetricRecord, NormalizationContext, NormalizationResult, Warning, unresolved,
}
use arche_api.Normalization.Parse.{parse_decimal}
use arche_api.Normalization.Registry.{canonical_metric_registry}
use arche_api.Normalization.Choice.{choose_fact}
use arche_api.Normalization.Engine.{
  effective_metric, record_of, resolve_metric, resolve_metrics, Resolved, add_resolved, normalize,
  core_metrics_of,
}
use arche_api.Normalization.Latest.{choose_fact-none}
use arche_api.Normalization.Provenance.{source, In-source, resolve_metric-IsFrom}
use arche_api.Normalization.Payloads.{Parts, normalize-Parts}

In-append : {A : Type 0} (a : A) (xs ys : List A) → In a xs ⊎ In a ys → In a (xs ++ ys)
In-append a [] ys (inr i) = i
In-append a [] ys (inl i) = absurd i
In-append a (x ∷ xs) ys (inl (inl e)) = inl e
In-append a (x ∷ xs) ys (inl (inr i)) = inr (In-append a xs ys (inl i))
In-append a (x ∷ xs) ys (inr i) = inr (In-append a xs ys (inr i))

-- No fact is of one of the concepts.
abbrev pub HasNoFact : NormalizationContext → List Text → Type 0
HasNoFact context concepts =
    (concept : Text) (f : EdgarFact)
    → In concept concepts
    → In f context.facts
    → ¬ (f.concept ≡ concept)

module _ (prec : ℕ) (context : NormalizationContext) (no_rules : context.override_rules ≡ []) where
  effective_metric-same :
      (metric : CanonicalStatementMetric) (concept : Text) (f : EdgarFact)
      → effective_metric context metric concept f ≡ ok metric
  unfolding effective_metric
  effective_metric-same metric concept f = rw no_rules refl

  record_of-warning :
      (metric : CanonicalStatementMetric) (concept : Text) (f : EdgarFact) (w : Warning)
      → ¬ (record_of prec context metric concept f ≡ ok (err w))
  record_of-warning metric concept f w h =
      let (amount, rest, _) = bind-ok (parse_decimal prec f.value f.decimals) _ (err w) h in
      cc (rest, effective_metric-same metric concept f)

  untried :
      (metric : CanonicalStatementMetric) (concept : Text) (concepts : List Text) (w : Warning)
      (choice : Option EdgarFact)
      → choose_fact context.currency (source prec context concept) ≡ ok choice
      → ((elim choice [
        | none ↦ resolve_metric prec context metric concepts (source prec context)
        | some chosen ↦ record_of prec context metric concept chosen
      ])
          ≡ ok (err w))
      → (resolve_metric prec context metric concepts (source prec context) ≡ ok (err w)
          → (w ≡ unresolved metric) × HasNoFact context concepts)
      → (w ≡ unresolved metric) × HasNoFact context (concept ∷ concepts)
  untried metric concept concepts w none chosen h later =
      let (e, absent) = later h in
      (
        e,
        λ c f i j same. elim i [
          | inl q ↦
              choose_fact-none context.currency (source prec context concept) chosen f
                (In-source prec context concept f j (same ∙ q))
          | inr i ↦ absent c f i j same
        ],
      )
  untried metric concept concepts w (some f) chosen h later =
      absurd (record_of-warning metric concept f w h)

  resolve_metric-unresolved :
      (metric : CanonicalStatementMetric) (concepts : List Text) (w : Warning)
      → resolve_metric prec context metric concepts (source prec context) ≡ ok (err w)
      → (w ≡ unresolved metric) × HasNoFact context concepts
  resolve_metric-unresolved metric [] w h = (cc, λ c f i. absurd i)
  resolve_metric-unresolved metric (concept ∷ concepts) w h =
      let (choice, rest, chosen) =
        bind-ok (choose_fact context.currency (source prec context concept)) _ (err w) h in
      untried metric concept concepts w choice chosen rest
        (resolve_metric-unresolved metric concepts w)

  -- The metric has a record, or the warning that it is unresolved and no fact.
  abbrev IsSettled : CanonicalStatementMetric → List Text → Resolved prec context → Type 0
  IsSettled metric concepts resolved =
      ((r : CanonicalMetricRecord) × (lookup metric resolved.0 ≡ some r))
      ⊎ (In (unresolved metric) resolved.1 × HasNoFact context concepts)

  add_resolved-IsSettled :
      (metric : CanonicalStatementMetric) (concepts : List Text)
      (outcome : Result Warning CanonicalMetricRecord) (resolved : Resolved prec context)
      → IsSettled metric concepts resolved
      → IsSettled metric concepts (add_resolved prec context outcome resolved)
  add_resolved-IsSettled metric concepts (ok r) resolved (inl (s, e)) =
      elim (Bool-cases (metric == r.metric)) [
        | inl same ↦ inl (r, lookup-insert metric r.metric r resolved.0 ∙ rw same refl)
        | inr other ↦ inl (s, lookup-insert metric r.metric r resolved.0 ∙ rw other e)
      ]
  add_resolved-IsSettled metric concepts (ok r) resolved (inr i) = inr i
  add_resolved-IsSettled metric concepts (err w) resolved (inl p) = inl p
  add_resolved-IsSettled metric concepts (err w) resolved (inr (i, absent)) =
      inr (In-append (unresolved metric) resolved.1 (w ∷ []) (inl i), absent)

  resolve_metrics-IsSettled :
      (metric : CanonicalStatementMetric) (names : List Text)
      (registry : Dict CanonicalStatementMetric (List Text))
      (resolved result : Resolved prec context)
      → resolve_metrics prec context registry (source prec context) resolved ≡ ok result
      → IsSettled metric names resolved
      → IsSettled metric names result
  unfolding resolve_metrics
  resolve_metrics-IsSettled metric names [] resolved result h settled =
      rw (← ok-injective h) settled
  resolve_metrics-IsSettled metric names ((m, concepts) ∷ rest) resolved result h settled =
      let (outcome, later, _) =
        bind-ok (resolve_metric prec context m concepts (source prec context)) _ result h in
      resolve_metrics-IsSettled metric names rest (add_resolved prec context outcome resolved)
        result later (add_resolved-IsSettled metric names outcome resolved settled)

  -- The outcome for a metric settles it.
  outcome-IsSettled :
      (metric : CanonicalStatementMetric) (concepts : List Text)
      (outcome : Result Warning CanonicalMetricRecord) (resolved : Resolved prec context)
      → resolve_metric prec context metric concepts (source prec context) ≡ ok outcome
      → IsSettled metric concepts (add_resolved prec context outcome resolved)
  outcome-IsSettled metric concepts (ok r) resolved h =
      let (c, f, i, l, p, effective, ids) =
        resolve_metric-IsFrom prec context metric concepts r h in
      let same : metric ≡ r.metric =
        ok-injective (sym (effective_metric-same metric c f) ∙ effective) in
      inl (
        r,
        lookup-insert metric r.metric r resolved.0
            ∙ rw ((metric_beq_iff metric r.metric).1 same) refl,
      )
  outcome-IsSettled metric concepts (err w) resolved h =
      let (e, absent) = resolve_metric-unresolved metric concepts w h in
      inr (In-append (unresolved metric) resolved.1 (w ∷ []) (inr (inl (sym e))), absent)

  registered-IsSettled :
      (metric : CanonicalStatementMetric) (names : List Text)
      (registry : Dict CanonicalStatementMetric (List Text))
      (resolved result : Resolved prec context)
      → resolve_metrics prec context registry (source prec context) resolved ≡ ok result
      → In (metric, names) registry
      → IsSettled metric names result
  unfolding resolve_metrics
  registered-IsSettled metric names [] resolved result h i = absurd i
  registered-IsSettled metric names ((m, concepts) ∷ rest) resolved result h i =
      let (outcome, later, run) =
        bind-ok (resolve_metric prec context m concepts (source prec context)) _ result h in
      elim i [
        | inl q ↦
            resolve_metrics-IsSettled metric names rest (add_resolved prec context outcome resolved)
              result later
              (outcome-IsSettled metric names outcome resolved (
                ap
                  (λ (e : CanonicalStatementMetric × List Text).
                    resolve_metric prec context e.0 e.1 (source prec context))
                  q
                ∙ run))
        | inr j ↦
            registered-IsSettled metric names rest (add_resolved prec context outcome resolved)
              result later j
      ]

  lookup-core_metrics_of-some :
      (k : CanonicalStatementMetric) (r : CanonicalMetricRecord)
      (records : Dict CanonicalStatementMetric CanonicalMetricRecord)
      → lookup k records ≡ some r
      → lookup k (core_metrics_of prec context records) ≡ some r.value
  lookup-core_metrics_of-some k r [] h = cc
  lookup-core_metrics_of-some k r ((j, s) ∷ records) h = elim (Bool-cases (k == j)) [
    | inl e ↦
        rw e
          (ap some (ap (λ (t : CanonicalMetricRecord). t.value) (some-injective _ _ (rw e at h))))
    | inr e ↦ rw e (lookup-core_metrics_of-some k r records (rw e at h))
  ]

  Parts-settled :
      (version : Text) (result : NormalizationResult) (metric : CanonicalStatementMetric)
      (concepts : List Text)
      → Parts prec context version result
      → In (metric, concepts) canonical_metric_registry
      → ((v : Decimal) × (lookup metric result.payload.core_metrics ≡ some v))
        ⊎ (In (unresolved metric) result.warnings × HasNoFact context concepts)
  Parts-settled version result metric concepts (resolved, run, built) i =
      elim (registered-IsSettled metric concepts canonical_metric_registry ([], []) resolved run
        i) [
          | inl (r, e) ↦ inl (r.value, rw built (lookup-core_metrics_of-some metric r resolved.0 e))
          | inr (w, absent) ↦ inr (rw built w, absent)
        ]

  -- Without override rules, each registered metric has a value in a normalized payload, or there is the
  -- warning that it is unresolved and no fact of any of its concepts.
  pub normalize-settled :
      (version : Text) (result : NormalizationResult) (metric : CanonicalStatementMetric)
      (concepts : List Text)
      → normalize prec context version ≡ ok result
      → In (metric, concepts) canonical_metric_registry
      → ((v : Decimal) × (lookup metric result.payload.core_metrics ≡ some v))
        ⊎ (In (unresolved metric) result.warnings × HasNoFact context concepts)
  normalize-settled version result metric concepts h i =
      Parts-settled version result metric concepts (normalize-Parts prec context version result h) i
