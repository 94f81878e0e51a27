-- ===== src/Overrides/Precedence.antt =====
-- Which rule wins in `XBRLMappingOverrideEngine.apply`, and on what the decision depends.
use arche_api.Base.{
  ◌≡◌, ◌⊎◌, inl, inr, ◌<◌, Bool, true, false, ◌&&◌, Option, none, some, List, [], ◌∷◌, filter, In,
  All-In, ◌∙◌, sym, In-filter, filter-In, All, arith, Option-cases, Bool-cases, option_eq,
}
use arche_api.Base.Int.{ltb_ℤ, eqb_ℤ_iff}
use arche_api.Base.Text.{text_leb, text_leb_total, text_leb_trans}
use arche_api.Base.Sort.{IsOrder, head?-sort, head?-sort-none}
use arche_api.Entities.{metric_eq}
use arche_api.Overrides.Rules.{
  OverrideScope, scope_rank, scope_beq, scope_beq_iff, MappingOverrideRule, RuleTraceEntry,
  FactContext,
}
use arche_api.Overrides.Engine.{
  concept_matches, taxonomy_matches, rule_matches, rule_leb, best, scope_entries, scoped_rules,
  select_winning_rule,
}

-- All the conditions on a rule at once, independent of the order in which the engine tests them.
abbrev pub applies : FactContext → MappingOverrideRule → Bool
applies f r = concept_matches f r && (taxonomy_matches f r && (rule_matches f r).0)

-- Within one scope the higher priority goes first, then the smaller identifier.
abbrev pub GoesBefore : MappingOverrideRule → MappingOverrideRule → Type 0
GoesBefore w r =
    (ltb_ℤ r.priority w.priority ≡ true)
    ⊎ ((w.priority ≡ r.priority) × (text_leb w.rule_id r.rule_id ≡ true))

-- A higher scope goes first.
abbrev pub Outranks : MappingOverrideRule → MappingOverrideRule → Type 0
Outranks w r = (scope_rank r.scope < scope_rank w.scope) ⊎ ((w.scope ≡ r.scope) × GoesBefore w r)

rule_leb-GoesBefore : (w r : MappingOverrideRule) → rule_leb w r ≡ true → GoesBefore w r
rule_leb-GoesBefore w r h = ground (arith, eqb_ℤ_iff w.priority r.priority)

rule_leb-IsOrder : IsOrder rule_leb
rule_leb-IsOrder = record {
  total = λ x y. ground (arith, text_leb_total x.rule_id y.rule_id);
  trans = λ x y z h k. ground (arith, text_leb_trans x.rule_id y.rule_id z.rule_id);
}

module _ (f : FactContext) (cs : List MappingOverrideRule) (s : OverrideScope)
    (ss : List OverrideScope) (entries : List RuleTraceEntry) (debug : Bool) where
  pub select_none :
      best f s cs ≡ none
      → (select_winning_rule f cs (s ∷ ss) entries debug).0
        ≡ (select_winning_rule f cs ss (scope_entries f s cs entries debug) debug).0
  select_none e = unfold select_winning_rule in rw (e, select_winning_rule)

  pub select_some :
      (w : MappingOverrideRule)
      → best f s cs ≡ some w
      → (select_winning_rule f cs (s ∷ ss) entries debug).0 ≡ some w
  select_some w e = unfold select_winning_rule in rw (e, select_winning_rule)

module _ (f : FactContext) where
  best-none :
      (s : OverrideScope) (cs : List MappingOverrideRule)
      → best f s cs ≡ none
      → (r : MappingOverrideRule) → In r cs
      → r.scope ≡ s
      → (rule_matches f r).0 ≡ false
  unfolding best
  best-none s cs e r i q = elim (Bool-cases (rule_matches f r).0) [
    | inl m ↦ absurd (
        head?-sort-none rule_leb (filter (λ r. (rule_matches f r).0) (scoped_rules s cs)) e r (
          filter-In (λ r. (rule_matches f r).0) r (scoped_rules s cs)
            (filter-In (λ r. scope_beq r.scope s) r cs i ((scope_beq_iff r.scope s).1 q)) m))
    | inr m ↦ m
  ]

  best-some :
      (s : OverrideScope) (cs : List MappingOverrideRule) (w : MappingOverrideRule)
      → best f s cs ≡ some w
      → In w cs
        × (w.scope ≡ s)
        × ((rule_matches f w).0 ≡ true)
        × ((r : MappingOverrideRule)
            → In r cs
            → r.scope ≡ s
            → (rule_matches f r).0 ≡ true
            → rule_leb w r ≡ true)
  unfolding best
  best-some s cs w e =
      let matches = filter (λ r. (rule_matches f r).0) (scoped_rules s cs) in
      let (i, least) = head?-sort rule_leb rule_leb-IsOrder matches e in
      let (j, m) = In-filter (λ r. (rule_matches f r).0) w (scoped_rules s cs) i in
      let (k, q) = In-filter (λ r. scope_beq r.scope s) w cs j in
      (
        k,
        (scope_beq_iff w.scope s).0 q,
        m,
        λ r i' q' m'. least r (
            filter-In (λ r. (rule_matches f r).0) r (scoped_rules s cs)
              (filter-In (λ r. scope_beq r.scope s) r cs i' ((scope_beq_iff r.scope s).1 q')) m'),
      )

  -- The scopes that are tried come in descending rank.
  abbrev Descending : List OverrideScope → Type 0
  Descending [] = Unit
  Descending (s ∷ ss) = All (λ t. scope_rank t < scope_rank s) ss × Descending ss

  -- What the search over some scopes has found.
  abbrev pub Chosen :
      List OverrideScope → List MappingOverrideRule → Option MappingOverrideRule → Type 0
  Chosen ss cs none =
      (r : MappingOverrideRule) → In r cs → In r.scope ss → (rule_matches f r).0 ≡ false
  Chosen ss cs (some w) =
      In w cs
      × In w.scope ss
      × ((rule_matches f w).0 ≡ true)
      × ((r : MappingOverrideRule)
          → In r cs
          → In r.scope ss
          → (rule_matches f r).0 ≡ true
          → Outranks w r)

  Chosen-here :
      (s : OverrideScope) (ss : List OverrideScope) (cs : List MappingOverrideRule)
      (w : MappingOverrideRule)
      → Descending (s ∷ ss)
      → best f s cs ≡ some w
      → Chosen (s ∷ ss) cs (some w)
  Chosen-here s ss cs w d e =
      let (i, q, m, least) = best-some s cs w e in
      (
        i,
        inl q,
        m,
        λ r j k m'. elim k [
          | inl h ↦ inr (q ∙ sym h, rule_leb-GoesBefore w r (least r j h m'))
          | inr l ↦ inl (rw q (All-In (λ t. scope_rank t < scope_rank s) r.scope ss l d.0))
        ],
      )

  Chosen-there :
      (s : OverrideScope) (ss : List OverrideScope) (cs : List MappingOverrideRule)
      (o : Option MappingOverrideRule)
      → best f s cs ≡ none
      → Chosen ss cs o
      → Chosen (s ∷ ss) cs o
  Chosen-there s ss cs none e c =
      λ r i k. elim k [ inl h ↦ best-none s cs e r i h | inr l ↦ c r i l ]
  Chosen-there s ss cs (some w) e c = (
    c.0,
    inr c.1,
    c.2,
    λ r i k m. elim k [ inl h ↦ cc (best-none s cs e r i h, m) | inr l ↦ c.3 r i l m ],
  )

  pub select-Chosen :
      (cs : List MappingOverrideRule) (ss : List OverrideScope) (entries : List RuleTraceEntry)
      (debug : Bool)
      → Descending ss
      → Chosen ss cs (select_winning_rule f cs ss entries debug).0
  select-Chosen cs [] entries debug d = unfold select_winning_rule in λ r i j. absurd j
  select-Chosen cs (s ∷ ss) entries debug d = elim (Option-cases (best f s cs)) [
    | inl e ↦ rw (select_none f cs s ss entries debug e) (
        Chosen-there s ss cs _ e
          (select-Chosen cs ss (scope_entries f s cs entries debug) debug d.1))
    | inr (w, e) ↦ rw (select_some f cs s ss entries debug w e) (Chosen-here s ss cs w d e)
  ]
