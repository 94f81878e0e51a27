-- ===== src/Normalization/Payloads.antt =====
-- The values of a normalized payload and where they come from.
use arche_api.Base.{
  ℕ, ◌≡◌, refl, sym, ap, ◌∙◌, inl, inr, some, List, [], ◌∷◌, if◌then◌else◌, In, Bool-cases, ◌==◌,
}
use mathlib.Core.Option.{some-injective}
use arche_api.Base.Text.{Text, text_eq}
use arche_api.Base.Dict.{Dict, lookup, insert, lookup-insert}
use arche_api.Base.Results.{Result, ok, err, bind-ok, ok-injective}
use arche_api.Decimal.{Decimal}
use arche_api.Entities.{CanonicalStatementMetric, metric_eq, metric_beq_iff, check_payload}
use arche_api.Normalization.Types.{
  EdgarFact, CanonicalMetricRecord, NormalizationContext, NormalizationResult, Warning,
}
use arche_api.Normalization.Parse.{parse_decimal}
use arche_api.Normalization.Registry.{canonical_metric_registry}
use arche_api.Normalization.Engine.{
  validate_context, effective_metric, resolve_metric, resolve_metrics, Resolved, add_resolved,
  normalize, refuse_payload, payload_of, core_metrics_of,
}
use arche_api.Normalization.Provenance.{source, IsLatestOf, IsFrom, resolve_metric-IsFrom}

module _ (prec : ℕ) (context : NormalizationContext) where
  -- Every record has its metric as its key, and stands for a registered metric.
  abbrev pub IsSound :
      Dict CanonicalStatementMetric (List Text)
      → Dict CanonicalStatementMetric CanonicalMetricRecord
      → Type 0
  IsSound registry records =
      (k : CanonicalStatementMetric) (r : CanonicalMetricRecord)
      → lookup k records ≡ some r
      → (k ≡ r.metric)
        × ((metric : CanonicalStatementMetric) × (concepts : List Text) × In (metric, concepts)
              registry
            × IsFrom prec context metric concepts r)

  insert-IsSound :
      (registry : Dict CanonicalStatementMetric (List Text))
      (records : Dict CanonicalStatementMetric CanonicalMetricRecord)
      (metric : CanonicalStatementMetric) (concepts : List Text) (r : CanonicalMetricRecord)
      → In (metric, concepts) registry
      → IsFrom prec context metric concepts r
      → IsSound registry records
      → IsSound registry (insert r.metric r records)
  insert-IsSound registry records metric concepts r i from sound k s e =
      let found : (if k == r.metric then some r else lookup k records) ≡ some s =
        sym (lookup-insert k r.metric r records) ∙ e in
      elim (Bool-cases (k == r.metric)) [
        | inl same ↦
            (let q : r ≡ s = some-injective _ _ (rw same at found) in
              rw (← q) ((metric_beq_iff k r.metric).0 same, (metric, concepts, i, from)))
        | inr other ↦ sound k s (rw other at found)
      ]

  add_resolved-IsSound :
      (whole : Dict CanonicalStatementMetric (List Text)) (metric : CanonicalStatementMetric)
      (concepts : List Text) (outcome : Result Warning CanonicalMetricRecord)
      (resolved : Resolved prec context)
      → In (metric, concepts) whole
      → ((r : CanonicalMetricRecord) → outcome ≡ ok r → IsFrom prec context metric concepts r)
      → IsSound whole resolved.0
      → IsSound whole (add_resolved prec context outcome resolved).0
  add_resolved-IsSound whole metric concepts (ok r) resolved i from sound =
      insert-IsSound whole resolved.0 metric concepts r i (from r refl) sound
  add_resolved-IsSound whole metric concepts (err warning) resolved i from sound = sound

  resolve_metrics-IsSound :
      (registry whole : Dict CanonicalStatementMetric (List Text))
      (resolved result : Resolved prec context)
      → ((e : CanonicalStatementMetric × List Text) → In e registry → In e whole)
      → resolve_metrics prec context registry (source prec context) resolved ≡ ok result
      → IsSound whole resolved.0
      → IsSound whole result.0
  unfolding resolve_metrics
  resolve_metrics-IsSound [] whole resolved result sub h sound = rw (← ok-injective h) sound
  resolve_metrics-IsSound ((metric, concepts) ∷ rest) whole resolved result sub h sound =
      let (outcome, later, resolves) =
        bind-ok (resolve_metric prec context metric concepts (source prec context)) _ result h in
      resolve_metrics-IsSound rest whole (add_resolved prec context outcome resolved) result
        (λ e i. sub e (inr i)) later
        (add_resolved-IsSound whole metric concepts outcome resolved
          (sub (metric, concepts) (inl refl))
          (λ r e. resolve_metric-IsFrom prec context metric concepts r (resolves ∙ ap ok e)) sound)

  lookup-core_metrics_of :
      (k : CanonicalStatementMetric) (records : Dict CanonicalStatementMetric CanonicalMetricRecord)
      (v : Decimal)
      → lookup k (core_metrics_of prec context records) ≡ some v
      → (r : CanonicalMetricRecord) × (lookup k records ≡ some r) × (r.value ≡ v)
  lookup-core_metrics_of k [] v h = cc
  lookup-core_metrics_of k ((j, r) ∷ records) v h = elim (Bool-cases (k == j)) [
    | inl e ↦ (r, rw e refl, some-injective _ _ (rw e at h))
    | inr e ↦
        let (s, found, same) = lookup-core_metrics_of k records v (rw e at h) in
        (s, rw e found, same)
  ]

  -- The parts of a normalization that returned.
  abbrev pub Parts : Text → NormalizationResult → Type 0
  Parts version result =
      (resolved : Resolved prec context) × (resolve_metrics prec context canonical_metric_registry
          (source prec context) ([], [])
        ≡ ok resolved)
      × (result ≡ record {
        payload = payload_of prec context resolved.0;
        payload_version = version;
        metric_records = resolved.0;
        warnings = resolved.1;
      })

  pub normalize-Parts :
      (version : Text) (result : NormalizationResult)
      → normalize prec context version ≡ ok result
      → Parts version result
  unfolding normalize
  normalize-Parts version result h =
      let (_, after, _) = bind-ok (validate_context context) _ result h in
      let (resolved, checked, run) =
        bind-ok
          (resolve_metrics prec context canonical_metric_registry (source prec context) ([], [])) _
          result after in
      let (_, built, _) =
        bind-ok (refuse_payload prec context (check_payload (payload_of prec context resolved.0))) _
          result checked in
      (resolved, run, sym (ok-injective built))

  -- Where the value of a metric in the payload comes from.
  abbrev pub HasOrigin : CanonicalStatementMetric → Decimal → Type 0
  HasOrigin k v =
      (metric : CanonicalStatementMetric) × (concepts : List Text) × (concept : Text)
      × (f : EdgarFact) × In (metric, concepts) canonical_metric_registry
      × In concept concepts
      × IsLatestOf prec context concept f
      × (parse_decimal prec f.value f.decimals ≡ ok v)
      × (effective_metric context metric concept f ≡ ok k)

  record-HasOrigin :
      (k : CanonicalStatementMetric) (v : Decimal) (r : CanonicalMetricRecord)
      → r.value ≡ v
      → (k ≡ r.metric)
        × ((metric : CanonicalStatementMetric) × (concepts : List Text) × In
              (metric, concepts)
              canonical_metric_registry
            × IsFrom prec context metric concepts r)
      → HasOrigin k v
  record-HasOrigin k v r same
        (key, (metric, concepts, i, (concept, f, among, latest, parsed, effective, ids))) =
      (
        metric,
        concepts,
        concept,
        f,
        i,
        among,
        latest,
        parsed ∙ ap ok same,
        effective ∙ ap ok (sym key),
      )

  Parts-HasOrigin :
      (version : Text) (result : NormalizationResult) (k : CanonicalStatementMetric) (v : Decimal)
      → Parts version result
      → lookup k result.payload.core_metrics ≡ some v
      → HasOrigin k v
  Parts-HasOrigin version result k v (resolved, run, built) e =
      let (r, found, same) = lookup-core_metrics_of k resolved.0 v (rw built at e) in
      record-HasOrigin k v r same (
        resolve_metrics-IsSound canonical_metric_registry canonical_metric_registry ([], [])
          resolved (λ _ i. i) run (λ k r e. cc) k r found)

  -- Each value of a normalized payload is the parsed value of a given fact of a concept registered for
  -- some metric. The fact is in the reporting currency if any fact of the concept is, and no fact of
  -- its kind (in that currency or not) is later. The payload has the value under the metric that the
  -- override rules leave for the registered one.
  pub normalize-HasOrigin :
      (version : Text) (result : NormalizationResult)
      → normalize prec context version ≡ ok result
      → (k : CanonicalStatementMetric) (v : Decimal) → lookup k result.payload.core_metrics ≡ some v
      → HasOrigin k v
  normalize-HasOrigin version result h k v e =
      Parts-HasOrigin version result k v (normalize-Parts version result h) e
