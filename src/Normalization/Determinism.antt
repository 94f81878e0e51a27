-- ===== src/Normalization/Determinism.antt =====
-- The result does not depend on the order or the repetition of the facts.
use arche_api.Base.{
  ℕ, ◌≡◌, refl, sym, ap, ◌∙◌, Bool, none, some, List, [], ◌∷◌, ◌++◌, if◌then◌else◌, filter,
  In-filter, filter-In, Bool-cases, inl, inr, append_assoc, append-nil,
}
use mathlib.Core.Path.{fun_ext}
use arche_api.Base.Text.{Text, text_beq, text_beq_iff, text_eq}
use arche_api.Base.Dict.{Dict, lookup-insert}
use arche_api.Base.Results.{Result, ok, ◌>>=◌, ◌>>◌}
use arche_api.Entities.{CanonicalStatementMetric, check_payload}
use arche_api.Normalization.Types.{
  EdgarFact, NormalizationContext, NormalizationError, Warning, CanonicalMetricRecord,
}
use arche_api.Normalization.Registry.{canonical_metric_registry}
use arche_api.Normalization.Choice.{
  or_empty, add_fact, index_by_concept, candidates_of, choose_fact,
}
use arche_api.Normalization.Engine.{
  validate_context, effective_metric, record_of, resolve_metric, resolve_metrics, Resolved,
  add_resolved, normalize, refuse_payload, payload_of,
}
use arche_api.Normalization.Latest.{HasDistinctIds, choose_fact-congr}
use arche_api.Normalization.Members.{SameMembers}

-- The facts of a concept, in their order.
abbrev pub facts_of : List EdgarFact → Text → List EdgarFact
facts_of facts concept = filter (λ f. text_beq concept f.concept) facts

candidates_of-add_fact :
    (concept : Text) (f : EdgarFact) (index : Dict Text (List EdgarFact))
    → candidates_of concept (add_fact f index) ≡ (
        if text_beq concept f.concept
        then candidates_of concept index ++ (f ∷ [])
        else candidates_of concept index)
candidates_of-add_fact concept f index =
    ap or_empty (lookup-insert concept f.concept (candidates_of f.concept index ++ (f ∷ [])) index)
    ∙ (elim (Bool-cases (text_beq concept f.concept)) [
      | inl e ↦
          (let same : concept ≡ f.concept = (text_beq_iff concept f.concept).0 e in
            rw e (rw (← same) refl))
      | inr e ↦ rw e refl
    ])

pub candidates_of-index_by_concept :
    (concept : Text) (facts : List EdgarFact) (index : Dict Text (List EdgarFact))
    → candidates_of concept (index_by_concept facts index)
      ≡ candidates_of concept index ++ facts_of facts concept
candidates_of-index_by_concept concept [] index = sym (append-nil (candidates_of concept index))
candidates_of-index_by_concept concept (f ∷ facts) index =
    candidates_of-index_by_concept concept facts (add_fact f index)
    ∙ ap (λ (cs : List EdgarFact). cs ++ facts_of facts concept)
        (candidates_of-add_fact concept f index)
    ∙ (elim (Bool-cases (text_beq concept f.concept)) [
      | inl e ↦ rw e (append_assoc (candidates_of concept index) (f ∷ []) (facts_of facts concept))
      | inr e ↦ rw e refl
    ])

module _ (prec : ℕ) (context : NormalizationContext) where
  -- Two sources of candidates that lead to the same choices.
  abbrev ChooseAlike : (Text → List EdgarFact) → (Text → List EdgarFact) → Type 0
  ChooseAlike f g =
      (concept : Text)
      → choose_fact context.currency (f concept) ≡ choose_fact context.currency (g concept)

  resolve_metric-congr :
      (metric : CanonicalStatementMetric) (concepts : List Text) (f g : Text → List EdgarFact)
      → ChooseAlike f g
      → resolve_metric prec context metric concepts f
        ≡ resolve_metric prec context metric concepts g
  resolve_metric-congr metric [] f g alike = refl
  resolve_metric-congr metric (concept ∷ concepts) f g alike = rw (alike concept) (
      ap
        (λ (rest : Result NormalizationError (Result Warning CanonicalMetricRecord)).
          choose_fact context.currency (g concept) >>= λ choice. elim choice [
            | none ↦ rest
            | some chosen ↦ record_of prec context metric concept chosen
          ])
        (resolve_metric-congr metric concepts f g alike))

  resolve_metrics-congr :
      (registry : Dict CanonicalStatementMetric (List Text)) (f g : Text → List EdgarFact)
      (resolved : Resolved prec context)
      → ChooseAlike f g
      → resolve_metrics prec context registry f resolved
        ≡ resolve_metrics prec context registry g resolved
  unfolding resolve_metrics
  resolve_metrics-congr [] f g resolved alike = refl
  resolve_metrics-congr ((metric, concepts) ∷ rest) f g resolved alike = simp (
    resolve_metric-congr metric concepts f g alike,
    fun_ext (λ (outcome : Result Warning CanonicalMetricRecord).
        resolve_metrics-congr rest f g (add_resolved prec context outcome resolved) alike),
  )

module _ (prec : ℕ) (context : NormalizationContext) (facts' : List EdgarFact)
    (source : Text → List EdgarFact) where
  abbrev other_context : NormalizationContext
  other_context = record context { facts = facts' }

  resolve_metric-other :
      (metric : CanonicalStatementMetric) (concepts : List Text)
      → resolve_metric prec context metric concepts source
        ≡ resolve_metric prec other_context metric concepts source
  unfolding effective_metric
  resolve_metric-other metric [] = refl
  resolve_metric-other metric (concept ∷ concepts) =
      ap
        (λ (rest : Result NormalizationError (Result Warning CanonicalMetricRecord)).
          choose_fact context.currency (source concept) >>= λ choice. elim choice [
            | none ↦ rest
            | some chosen ↦ record_of prec context metric concept chosen
          ])
        (resolve_metric-other metric concepts)

  resolve_metrics-other :
      (registry : Dict CanonicalStatementMetric (List Text)) (resolved : Resolved prec context)
      → resolve_metrics prec context registry source resolved
        ≡ resolve_metrics prec other_context registry source resolved
  unfolding resolve_metrics
  resolve_metrics-other [] resolved = refl
  resolve_metrics-other ((metric, concepts) ∷ rest) resolved = simp (
    resolve_metric-other metric concepts,
    fun_ext (λ (outcome : Result Warning CanonicalMetricRecord).
        resolve_metrics-other rest (add_resolved prec context outcome resolved)),
  )

-- Facts with the same members, in which identifiers tell facts apart.
same_choice :
    (currency concept : Text) (facts facts' : List EdgarFact)
    → SameMembers facts facts'
    → HasDistinctIds facts
    → choose_fact currency (candidates_of concept (index_by_concept facts []))
      ≡ choose_fact currency (candidates_of concept (index_by_concept facts' []))
same_choice currency concept facts facts' same ids =
    rw
      (
        candidates_of-index_by_concept concept facts [],
        candidates_of-index_by_concept concept facts' [],
      )
      (choose_fact-congr currency (facts_of facts concept) (facts_of facts' concept)
        (λ f. (
          λ i. (let (j, t) = In-filter test f facts i in filter-In test f facts' ((same f).0 j) t),
          λ i. (let (j, t) = In-filter test f facts' i in filter-In test f facts ((same f).1 j) t),
        ))
        (λ a b i j. ids a b (In-filter test a facts i).0 (In-filter test b facts j).0))
  where
    test : EdgarFact → Bool
    test f = text_beq concept f.concept

-- Where fact identifiers are distinct, two lists of facts with the same members, whatever their order
-- and repetitions, are normalized to the same result or error.
pub normalize-congr :
    (prec : ℕ) (context : NormalizationContext) (version : Text) (facts' : List EdgarFact)
    → SameMembers context.facts facts'
    → HasDistinctIds context.facts
    → normalize prec context version ≡ normalize prec (record context { facts = facts' }) version
unfolding normalize validate_context
normalize-congr prec context version facts' same ids =
    ap
      (λ (run : Result NormalizationError (Resolved prec context)).
        validate_context context
        >> (run >>= λ resolved.
            refuse_payload prec context (check_payload (payload_of prec context resolved.0))
            >> ok (record {
              payload = payload_of prec context resolved.0;
              payload_version = version;
              metric_records = resolved.0;
              warnings = resolved.1;
            })))
      (resolve_metrics-congr prec context canonical_metric_registry _ _ ([], [])
          (λ concept. same_choice context.currency concept context.facts facts' same ids)
        ∙ resolve_metrics-other prec context facts' _ canonical_metric_registry ([], []))
