-- ===== src/Normalization/Provenance.antt =====
-- Where the values of a normalized payload come from, and which metrics have one.
use arche_api.Base.{
  ℕ, ◌≡◌, refl, sym, ap, ◌∙◌, inl, inr, true, Option, none, some, List, [], ◌∷◌, In, In-filter,
  filter-In, arith,
}
use arche_api.Base.Text.{Text, text_beq, text_beq_iff, text_eq}
use arche_api.Base.Results.{Result, ok, err, bind-ok, ok-injective}
use arche_api.Decimal.{Decimal}
use arche_api.Entities.{CanonicalStatementMetric, metric_eq}
use arche_api.Normalization.Types.{EdgarFact, CanonicalMetricRecord, NormalizationContext, Warning}
use arche_api.Normalization.Parse.{parse_decimal}
use arche_api.Normalization.Choice.{
  index_by_concept, candidates_of, choose_fact, is_in_currency, sort_key_leb,
}
use arche_api.Normalization.Engine.{effective_metric, with_metric, record_of, resolve_metric}
use arche_api.Normalization.Latest.{choose_fact-some}
use arche_api.Normalization.Determinism.{candidates_of-index_by_concept}

module _ (prec : ℕ) (context : NormalizationContext) where
  abbrev pub source : Text → List EdgarFact
  source concept = candidates_of concept (index_by_concept context.facts [])

  -- The fact is of the concept, in the reporting currency if a fact of the concept is, and none of its
  -- kind is later.
  abbrev pub IsLatestOf : Text → EdgarFact → Type 0
  IsLatestOf concept f =
      In f context.facts
      × (f.concept ≡ concept)
      × ((g : EdgarFact)
          → In g context.facts
          → g.concept ≡ concept
          → (is_in_currency context.currency g ≡ true → is_in_currency context.currency f ≡ true)
            × (is_in_currency context.currency g ≡ is_in_currency context.currency f
                → sort_key_leb g f ≡ true))

  -- The record of a registered metric: its fact, the fact's value, and the metric that the override
  -- rules leave.
  abbrev pub IsFrom : CanonicalStatementMetric → List Text → CanonicalMetricRecord → Type 0
  IsFrom metric concepts r =
      (concept : Text) × (f : EdgarFact) × In concept concepts
      × IsLatestOf concept f
      × (parse_decimal prec f.value f.decimals ≡ ok r.value)
      × (effective_metric context metric concept f ≡ ok r.metric)
      × (r.source_fact_ids ≡ f.fact_id ∷ [])

  pub source-In :
      (concept : Text) (f : EdgarFact)
      → In f (source concept)
      → In f context.facts × (f.concept ≡ concept)
  source-In concept f i =
      let (j, t) =
        In-filter (λ g. text_beq concept g.concept) f context.facts
          (rw (candidates_of-index_by_concept concept context.facts []) at i) in
      (j, sym ((text_beq_iff concept f.concept).0 t))

  pub In-source :
      (concept : Text) (f : EdgarFact)
      → In f context.facts
      → f.concept ≡ concept
      → In f (source concept)
  In-source concept f i e = rw (candidates_of-index_by_concept concept context.facts []) (
      filter-In (λ g. text_beq concept g.concept) f context.facts i
        ((text_beq_iff concept f.concept).1 (sym e)))

  source-IsLatestOf :
      (concept : Text) (f : EdgarFact)
      → choose_fact context.currency (source concept) ≡ ok (some f)
      → IsLatestOf concept f
  source-IsLatestOf concept f h =
      let (i, preferred, latest) = choose_fact-some context.currency (source concept) f h in
      let (j, e) = source-In concept f i in
      (j, e, λ g k q. (preferred g (In-source concept g k q), latest g (In-source concept g k q)))

  with_metric-ok :
      (f : EdgarFact) (amount : Decimal) (m : Result Warning CanonicalStatementMetric)
      (r : CanonicalMetricRecord)
      → with_metric f amount m ≡ ok r
      → (amount ≡ r.value) × (m ≡ ok r.metric) × (r.source_fact_ids ≡ f.fact_id ∷ [])
  with_metric-ok f amount (ok metric) r h = ground (arith, h)
  with_metric-ok f amount (err warning) r h = cc

  record_of-IsFrom :
      (metric : CanonicalStatementMetric) (concept : Text) (concepts : List Text) (f : EdgarFact)
      (r : CanonicalMetricRecord)
      → choose_fact context.currency (source concept) ≡ ok (some f)
      → record_of prec context metric concept f ≡ ok (ok r)
      → IsFrom metric (concept ∷ concepts) r
  record_of-IsFrom metric concept concepts f r chosen h =
      let (amount, rest, parsed) = bind-ok (parse_decimal prec f.value f.decimals) _ (ok r) h in
      let (same, effective, ids) =
        with_metric-ok f amount (effective_metric context metric concept f) r (ok-injective rest) in
      (
        concept,
        f,
        inl refl,
        source-IsLatestOf concept f chosen,
        parsed ∙ ap ok same,
        effective,
        ids,
      )

  tried :
      (metric : CanonicalStatementMetric) (concept : Text) (concepts : List Text)
      (r : CanonicalMetricRecord) (choice : Option EdgarFact)
      → choose_fact context.currency (source concept) ≡ ok choice
      → ((elim choice [
        | none ↦ resolve_metric prec context metric concepts source
        | some chosen ↦ record_of prec context metric concept chosen
      ])
          ≡ ok (ok r))
      → (resolve_metric prec context metric concepts source ≡ ok (ok r) → IsFrom metric concepts r)
      → IsFrom metric (concept ∷ concepts) r
  tried metric concept concepts r none chosen h later =
      let (c, f, i, l, p, e, s) = later h in (c, f, inr i, l, p, e, s)
  tried metric concept concepts r (some f) chosen h later =
      record_of-IsFrom metric concept concepts f r chosen h

  pub resolve_metric-IsFrom :
      (metric : CanonicalStatementMetric) (concepts : List Text) (r : CanonicalMetricRecord)
      → resolve_metric prec context metric concepts source ≡ ok (ok r)
      → IsFrom metric concepts r
  resolve_metric-IsFrom metric [] r h = cc
  resolve_metric-IsFrom metric (concept ∷ concepts) r h =
      let (choice, rest, chosen) =
        bind-ok (choose_fact context.currency (source concept)) _ (ok r) h in
      tried metric concept concepts r choice chosen rest (resolve_metric-IsFrom metric concepts r)
