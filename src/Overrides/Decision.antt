-- ===== src/Overrides/Decision.antt =====
-- The decision of `XBRLMappingOverrideEngine.apply`, whatever the order of the rules and the trace.
use arche_api.Base.{
  ◌≡◌, refl, ◌≢◌, ◌↔◌, ◌⊎◌, ap, inl, inr, Bool, true, false, ◌&&◌, Option, none, some, List, [],
  ◌∷◌, In, arith, sym, ◌∙◌, subst, Option-cases, Bool-cases, option_beq_iff, filter, In-filter,
  filter-In,
}
use arche_api.Base.Text.{text_leb_antisym}
use arche_api.Entities.{metric_eq}
use arche_api.Overrides.Rules.{
  OverrideScope, scope_rank, MappingOverrideRule, OverrideDecision, RuleTraceEntry, FactContext,
}
use arche_api.Overrides.Engine.{
  scope_precedence, concept_matches, taxonomy_matches, filter_candidates, best, select_winning_rule,
  compute_final_metric, decision_of, decide_candidates, apply,
}
use arche_api.Overrides.Matching.{Applies, applies_iff}
use arche_api.Overrides.Precedence.{Outranks, Chosen, select-Chosen, select_none, select_some}

module _ (f : FactContext) where
  abbrev is_candidate : MappingOverrideRule → Bool
  is_candidate r = concept_matches f r && taxonomy_matches f r

  filter_candidates-eq-filter :
      (debug : Bool) (rules : List MappingOverrideRule)
      → (filter_candidates f rules debug).0 ≡ filter is_candidate rules
  unfolding filter_candidates
  filter_candidates-eq-filter debug [] = refl
  filter_candidates-eq-filter debug (x ∷ rules) =
      ground (arith, filter_candidates-eq-filter debug rules)

  select-debug :
      (cs : List MappingOverrideRule) (ss : List OverrideScope)
      (entries entries' : List RuleTraceEntry) (debug : Bool)
      → (select_winning_rule f cs ss entries debug).0
        ≡ (select_winning_rule f cs ss entries' false).0
  unfolding select_winning_rule
  select-debug cs [] entries entries' debug = refl
  select-debug cs (s ∷ ss) entries entries' debug = elim (Option-cases (best f s cs)) [
    | inl e ↦
        rw (select_none f cs s ss entries debug e, select_none f cs s ss entries' false e)
          (select-debug cs ss _ _ debug)
    | inr (w, e) ↦
        rw (select_some f cs s ss entries debug w e, select_some f cs s ss entries' false w e)
  ]

  -- The winner among all rules.
  abbrev winner : List MappingOverrideRule → Option MappingOverrideRule
  winner rules = (select_winning_rule f (filter is_candidate rules) scope_precedence [] false).0

  -- No candidates are no special case.
  decide_candidates-select :
      (cs : List MappingOverrideRule) (entries : List RuleTraceEntry) (debug : Bool)
      → (decide_candidates f cs entries debug).0
        ≡ decision_of f (select_winning_rule f cs scope_precedence [] false).0
  decide_candidates-select [] entries debug = unfold decide_candidates in refl
  decide_candidates-select (c ∷ cs) entries debug =
      rw (← select-debug (c ∷ cs) scope_precedence entries [] debug)
        (unfold decide_candidates in refl)

  apply-winner :
      (rules : List MappingOverrideRule) (debug : Bool)
      → (apply f rules debug).0 ≡ decision_of f (winner rules)
  apply-winner rules debug =
      subst
        (λ cs.
          (apply f rules debug).0
          ≡ decision_of f (select_winning_rule f cs scope_precedence [] false).0)
        (filter_candidates-eq-filter debug rules)
        (unfold apply in
          decide_candidates-select (filter_candidates f rules debug).0
            (filter_candidates f rules debug).1 debug)

  winner-Chosen :
      (rules : List MappingOverrideRule)
      → Chosen f scope_precedence (filter is_candidate rules) (winner rules)
  winner-Chosen rules =
      select-Chosen f (filter is_candidate rules) scope_precedence [] false (omega arith)

  every_scope : (s : OverrideScope) → In s scope_precedence
  every_scope s = ground arith

  -- What `apply` may decide for a rule that won.
  pub record Follows (w : MappingOverrideRule) (d : OverrideDecision) : Type 0 where
    pub base : d.base_metric ≡ f.base_metric
    pub names_scope : d.applied_scope ≡ some w.scope
    pub names_rule : d.applied_rule_id ≡ some w.rule_id
    pub suppresses : w.is_suppression ≡ true → d.final_metric ≡ none
    pub remaps : w.is_suppression ≡ false → d.final_metric ≡ w.target_metric
    pub changes : (d.was_overridden ≡ true) ↔ (d.final_metric ≢ f.base_metric)

  decision_of-Follows : (w : MappingOverrideRule) → Follows w (decision_of f (some w))
  unfolding decision_of
  decision_of-Follows w = ground (arith, option_beq_iff (compute_final_metric w) f.base_metric)

  -- No rule applies.
  abbrev pub NoneApplies : List MappingOverrideRule → Type 0
  NoneApplies rules = (r : MappingOverrideRule) → In r rules → ¬ Applies f r

  -- A rule that applies, and outranks every rule that applies.
  abbrev pub IsWinner : List MappingOverrideRule → MappingOverrideRule → Type 0
  IsWinner rules w =
      In w rules
      × Applies f w
      × ((r : MappingOverrideRule) → In r rules → Applies f r → Outranks w r)

  winner-none : (rules : List MappingOverrideRule) → winner rules ≡ none → NoneApplies rules
  winner-none rules e r i a =
      let applied = (applies_iff f r).1 a in
      let c : Chosen f scope_precedence (filter is_candidate rules) none =
        rw e at (winner-Chosen rules) in
      elim (Bool-cases (is_candidate r)) [
        | inl h ↦ ground (arith, c r (filter-In is_candidate r rules i h) (every_scope r.scope))
        | inr h ↦ ground arith
      ]

  winner-some :
      (rules : List MappingOverrideRule) (w : MappingOverrideRule)
      → winner rules ≡ some w
      → IsWinner rules w
  winner-some rules w e =
      let c : Chosen f scope_precedence (filter is_candidate rules) (some w) =
        rw e at (winner-Chosen rules) in
      let (i, h) = In-filter is_candidate w rules c.0 in
      (
        i,
        (applies_iff f w).0 (ground arith),
        λ r j a.
            let applied = (applies_iff f r).1 a in
            c.3 r (filter-In is_candidate r rules j (ground arith)) (every_scope r.scope)
              (ground arith),
      )

  -- What is decided: the base metric with nothing recorded, or what follows from the winner.
  abbrev pub Decides : List MappingOverrideRule → OverrideDecision → Type 0
  Decides rules d =
      (NoneApplies rules
        × (d.final_metric ≡ f.base_metric)
        × (d.applied_rule_id ≡ none)
        × (d.was_overridden ≡ false))
      ⊎ ((w : MappingOverrideRule) × IsWinner rules w × Follows w d)

  -- Either no rule applies to the fact, and the base metric is kept with nothing recorded; or there
  -- is a rule that applies and outranks all that do (a higher scope, then a higher priority, then a
  -- smaller identifier), and the decision follows it: it is recorded, it suppresses or remaps the
  -- metric, and `was_overridden` says exactly whether the metric changed.
  pub apply-Decides :
      (rules : List MappingOverrideRule) (debug : Bool) → Decides rules (apply f rules debug).0
  apply-Decides rules debug = elim (Option-cases (winner rules)) [
    | inl e ↦ inl (
      winner-none rules e,
      rw (apply-winner rules debug, e) (unfold decision_of in refl),
      rw (apply-winner rules debug, e) (unfold decision_of in refl),
      rw (apply-winner rules debug, e) (unfold decision_of in refl),
    )
    | inr (w, e) ↦
        inr (w, winner-some rules w e, rw (apply-winner rules debug, e) (decision_of-Follows w))
  ]

  -- Two rules that outrank one another are one rule, where identifiers are unique.
  Outranks-antisym :
      (v w : MappingOverrideRule)
      → Outranks v w
      → Outranks w v
      → (v.rule_id ≡ w.rule_id → v ≡ w)
      → v ≡ w
  Outranks-antisym v w h k unique = elim h [
    | inl a ↦ elim k [
      | inl b ↦ absurd (omega arith)
      | inr b ↦ absurd (omega (arith, ap scope_rank b.0))
    ]
    | inr a ↦ elim k [
      | inl b ↦ absurd (omega (arith, ap scope_rank a.0))
      | inr b ↦ unique (ground (arith, text_leb_antisym v.rule_id w.rule_id))
    ]
  ]

  -- The decision depends only on which rules there are, not on their order or repetition, and not on
  -- `debug`, provided that no two rules share an identifier.
  pub apply_congr :
      (rules rules' : List MappingOverrideRule) (debug debug' : Bool)
      → ((r : MappingOverrideRule) → In r rules ↔ In r rules')
      → ((v w : MappingOverrideRule) → In v rules → In w rules → v.rule_id ≡ w.rule_id → v ≡ w)
      → (apply f rules debug).0 ≡ (apply f rules' debug').0
  apply_congr rules rules' debug debug' same unique =
      rw (apply-winner rules debug, apply-winner rules' debug') (ap (decision_of f) winners)
    where
      winners : winner rules ≡ winner rules'
      winners = elim (Option-cases (winner rules)) [
        | inl e ↦ elim (Option-cases (winner rules')) [
          | inl e' ↦ e ∙ sym e'
          | inr (w', e') ↦
              let (i, a, _) = winner-some rules' w' e' in
              absurd (winner-none rules e w' ((same w').1 i) a)
        ]
        | inr (w, e) ↦
            let (i, a, top) = winner-some rules w e in
            elim (Option-cases (winner rules')) [
              | inl e' ↦ absurd (winner-none rules' e' w ((same w).0 i) a)
              | inr (w', e') ↦
                  let (i', a', top') = winner-some rules' w' e' in
                  let j = (same w').1 i' in
                  e
                  ∙ ap some (
                      Outranks-antisym w w' (top w' j a') (top' w ((same w).0 i) a)
                        (unique w w' i j))
                  ∙ sym e'
            ]
      ]
