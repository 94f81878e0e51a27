-- ===== src/Observability/Traces.antt =====
-- The inspection with the engine that the service makes for itself.
use arche_api.Base.{
  ◌≡◌, refl, sym, ◌∙◌, ◌⊎◌, inl, inr, subst, true, none, some, List, [], ◌∷◌, In, Bool-cases, arith,
}
use arche_api.Base.Text.{Text}
use arche_api.Base.Dict.{Dict}
use arche_api.Base.Results.{Result, ok, err, ◌>>=◌, Result-cases, >>=-assoc}
use arche_api.Entities.{CanonicalStatementMetric}
use arche_api.Overrides.{MappingOverrideRule, OverrideTrace, FactContext, RuleTraceEntry}
use arche_api.Overrides.Engine.{apply, filter_candidates, decide_candidates}
use arche_api.Normalization.Types.{EdgarFact, NormalizationContext, NormalizationError, type_error}
use arche_api.Normalization.Registry.{canonical_metric_registry}
use arche_api.Normalization.Choice.{choose_fact, is_mixed, preferred}
use arche_api.Normalization.Latest.{choose_fact-none}
use arche_api.Normalization.Completeness.{HasNoFact}
use arche_api.Normalization.Engine.{fact_context}
use arche_api.Normalization.Provenance.{source-In, In-source}
use arche_api.Observability.Service.{
  StatementOverrideObservability, Observed, nothing_observed, default_engine,
  select_fact_for_metric, facts_of, evaluate_overrides_for_fact, inspect_chosen, inspect_each,
  observability_of, inspect_overrides,
}

decide_candidates-traced :
    (f : FactContext) (candidates : List MappingOverrideRule) (entries : List RuleTraceEntry)
    → (trace : OverrideTrace) × ((decide_candidates f candidates entries true).1 ≡ some trace)
unfolding decide_candidates
decide_candidates-traced f [] entries = (_, refl)
decide_candidates-traced f (c ∷ cs) entries = (_, refl)

apply-traced :
    (f : FactContext) (rules : List MappingOverrideRule)
    → (trace : OverrideTrace) × ((apply f rules true).1 ≡ some trace)
unfolding apply
apply-traced f rules =
    let (candidates, entries) = filter_candidates f rules true in
    decide_candidates-traced f candidates entries

choose_fact-err :
    (currency : Text) (facts : List EdgarFact) (e : NormalizationError)
    → choose_fact currency facts ≡ err e
    → e ≡ type_error
unfolding choose_fact
choose_fact-err currency facts e h = elim (Bool-cases (is_mixed (preferred currency facts))) [
  | inl mixed ↦ ground (arith, mixed)
  | inr plain ↦ absurd (ground (arith, plain))
]

choose_fact-nil : (currency : Text) → choose_fact currency [] ≡ ok none
unfolding choose_fact
choose_fact-nil currency = refl

-- A choice among facts: there are none, or it raises, or it finds one.
choose_fact-cases :
    (currency : Text) (facts : List EdgarFact)
    → ((facts ≡ []) × (choose_fact currency facts ≡ ok none))
      ⊎ (((f : EdgarFact) × In f facts)
          × ((choose_fact currency facts ≡ err type_error)
              ⊎ ((chosen : EdgarFact) × (choose_fact currency facts ≡ ok (some chosen)))))
choose_fact-cases currency [] = inl (refl, choose_fact-nil currency)
choose_fact-cases currency (f ∷ fs) = inr (
  (f, inl refl),
  elim (Result-cases (choose_fact currency (f ∷ fs))) [
    | inl (none, h) ↦ absurd (choose_fact-none currency (f ∷ fs) h f (inl refl))
    | inl (some chosen, h) ↦ inr (chosen, h)
    | inr (e, h) ↦ inl (rw (← choose_fact-err currency (f ∷ fs) e h) h)
  ],
)

module _ (context : NormalizationContext) where
  evaluate_overrides_for_fact-raises :
      (metric : CanonicalStatementMetric) (concept : Text) (f : EdgarFact)
      → evaluate_overrides_for_fact default_engine context metric concept f ≡ err type_error
  unfolding evaluate_overrides_for_fact
  evaluate_overrides_for_fact-raises metric concept f =
      let (trace, traced) =
        apply-traced (fact_context context metric concept f) context.override_rules in
      rw traced refl

  inspect_chosen-raises :
      (metric : CanonicalStatementMetric) (chosen : EdgarFact) (concept : Text)
      (observed : Observed)
      → inspect_chosen default_engine context metric (some (chosen, concept)) observed
        ≡ err type_error
  inspect_chosen-raises metric chosen concept observed =
      rw (evaluate_overrides_for_fact-raises metric concept chosen) refl

  -- A fact of one of the concepts.
  abbrev pub HasFact : List Text → Type 0
  HasFact concepts =
      (concept : Text) × (f : EdgarFact) × In concept concepts
      × In f context.facts
      × (f.concept ≡ concept)

  abbrev inspect_one :
      CanonicalStatementMetric → List Text → Observed → Result NormalizationError Observed
  inspect_one metric concepts observed =
      select_fact_for_metric context.currency concepts (facts_of default_engine context)
      >>= λ choice. inspect_chosen default_engine context metric choice observed

  inspect_one-cases :
      (metric : CanonicalStatementMetric) (concepts : List Text) (observed : Observed)
      → (HasFact concepts × (inspect_one metric concepts observed ≡ err type_error))
        ⊎ (HasNoFact context concepts × (inspect_one metric concepts observed ≡ ok observed))
  inspect_one-cases metric [] observed = inr (λ c f i. absurd i, refl)
  inspect_one-cases metric (concept ∷ concepts) observed =
      elim (choose_fact-cases context.currency (facts_of default_engine context concept)) [
        | inl (nothing, e) ↦ elim (inspect_one-cases metric concepts observed) [
          | inl ((c, f, i, j, same), h) ↦ inl ((c, f, inr i, j, same), rw e h)
          | inr (absent, h) ↦ inr (no_fact concept concepts nothing absent, rw e h)
        ]
        | inr ((f, i), outcome) ↦
            let (j, same) = source-In 0 context concept f i in
            inl (
              (concept, f, inl refl, j, same),
              elim outcome [
                | inl e ↦ rw e refl
                | inr (chosen, e) ↦ rw e (inspect_chosen-raises metric chosen concept observed)
              ],
            )
      ]
    where
      no_fact :
          (concept : Text) (concepts : List Text)
          → facts_of default_engine context concept ≡ []
          → HasNoFact context concepts
          → HasNoFact context (concept ∷ concepts)
      no_fact concept concepts nothing absent c f i j same = elim i [
        | inl q ↦ subst (In f) nothing (In-source 0 context concept f j (same ∙ q))
        | inr i ↦ absent c f i j same
      ]

  inspect_each-one :
      (metric : CanonicalStatementMetric) (concepts : List Text)
      (rest : Dict CanonicalStatementMetric (List Text)) (observed : Observed)
      → inspect_each default_engine context ((metric, concepts) ∷ rest) observed ≡ (
          inspect_one metric concepts observed >>= λ now.
          inspect_each default_engine context rest now)
  inspect_each-one metric concepts rest observed =
      >>=-assoc (select_fact_for_metric context.currency concepts (facts_of default_engine context))
        (λ choice. inspect_chosen default_engine context metric choice observed)
        (inspect_each default_engine context rest)

  inspect_each-cases :
      (registry : Dict CanonicalStatementMetric (List Text)) (observed : Observed)
      → ((e : CanonicalStatementMetric × List Text) × In e registry
          × HasFact e.1
          × (inspect_each default_engine context registry observed ≡ err type_error))
        ⊎ (((e : CanonicalStatementMetric × List Text) → In e registry → HasNoFact context e.1)
            × (inspect_each default_engine context registry observed ≡ ok observed))
  inspect_each-cases [] observed = inr (λ e i. absurd i, refl)
  inspect_each-cases ((metric, concepts) ∷ rest) observed =
      elim (inspect_one-cases metric concepts observed) [
        | inl (found, h) ↦ inl (
          (metric, concepts),
          inl refl,
          found,
          inspect_each-one metric concepts rest observed ∙ rw h refl,
        )
        | inr (absent, h) ↦
            let first = inspect_each-one metric concepts rest observed in
            elim (inspect_each-cases rest observed) [
              | inl (e, i, found, k) ↦ inl (e, inr i, found, first ∙ rw h k)
              | inr (others, k) ↦ inr (no_entry metric concepts rest absent others, first ∙ rw h k)
            ]
      ]
    where
      no_entry :
          (metric : CanonicalStatementMetric) (concepts : List Text)
          (rest : Dict CanonicalStatementMetric (List Text))
          → HasNoFact context concepts
          → ((e : CanonicalStatementMetric × List Text) → In e rest → HasNoFact context e.1)
          → (e : CanonicalStatementMetric × List Text) → In e ((metric, concepts) ∷ rest)
          → HasNoFact context e.1
      no_entry metric concepts rest absent others e (inl same) =
          subst (λ e. HasNoFact context e.1) (sym same) absent
      no_entry metric concepts rest absent others e (inr i) = others e i

  inspect_overrides-some :
      (r : MappingOverrideRule) (rs : List MappingOverrideRule)
      → context.override_rules ≡ r ∷ rs
      → inspect_overrides default_engine context ≡ (
          inspect_each default_engine context canonical_metric_registry nothing_observed
          >>= λ observed. ok (observability_of default_engine context observed))
  unfolding inspect_overrides
  inspect_overrides-some r rs some_rule =
      either_rules (ok (observability_of default_engine context nothing_observed))
        (inspect_each default_engine context canonical_metric_registry nothing_observed
          >>= λ observed. ok (observability_of default_engine context observed))
        context.override_rules r rs some_rule
    where
      either_rules :
          (a b : Result NormalizationError StatementOverrideObservability)
          (rules : List MappingOverrideRule) (r : MappingOverrideRule)
          (rs : List MappingOverrideRule)
          → rules ≡ r ∷ rs
          → (elim rules [ [] ↦ a | q ∷ qs ↦ b ]) ≡ b
      either_rules a b [] r rs e = absurd (ground arith)
      either_rules a b (q ∷ qs) r rs e = refl

  -- Where there is an override rule, the inspection with the engine that the service makes for itself
  -- reports nothing: it raises `TypeError`, and then some registered concept has a fact; or it returns
  -- no decision and no trace, and then none has.
  pub inspect_overrides-cases :
      (r : MappingOverrideRule) (rs : List MappingOverrideRule)
      → context.override_rules ≡ r ∷ rs
      → ((e : CanonicalStatementMetric × List Text) × In e canonical_metric_registry
          × HasFact e.1
          × (inspect_overrides default_engine context ≡ err type_error))
        ⊎ (((e : CanonicalStatementMetric × List Text)
              → In e canonical_metric_registry
              → HasNoFact context e.1)
            × (inspect_overrides default_engine context
                ≡ ok (observability_of default_engine context nothing_observed)))
  inspect_overrides-cases r rs some_rule =
      elim (inspect_each-cases canonical_metric_registry nothing_observed) [
        | inl (e, i, found, h) ↦
            inl (e, i, found, inspect_overrides-some r rs some_rule ∙ rw h refl)
        | inr (absent, h) ↦ inr (absent, inspect_overrides-some r rs some_rule ∙ rw h refl)
      ]
