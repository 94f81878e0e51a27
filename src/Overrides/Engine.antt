-- ===== src/Overrides/Engine.antt =====
-- `XBRLMappingOverrideEngine`.
use arche_api.Base.{
  Bool, true, false, not, ◌&&◌, ◌||◌, Option, none, some, List, [], ◌∷◌, ◌++◌, map, if◌then◌else◌,
  ◌==◌, filter, head?, option_eq, option_beq,
}
use arche_api.Base.Int.{ltb_ℤ, eqb_ℤ}
use arche_api.Base.Text.{Text, codes, text_eq, text_leb, is_empty}
use arche_api.Base.Dict.{Dict, lookup}
use arche_api.Base.Sort.{sort}
use arche_api.Entities.{CanonicalStatementMetric, metric_eq}
use arche_api.Overrides.Rules.{
  OverrideScope, global, industry, company, analyst, scope_beq, MappingOverrideRule,
  OverrideDecision, RuleTraceEntry, FactContext, OverrideTrace,
}

abbrev pub scope_precedence : List OverrideScope
scope_precedence = analyst ∷ company ∷ industry ∷ global ∷ []

-- Truth of an optional text, and whether it is the given one: `value and value == expected`.
abbrev pub is_given : Option Text → Bool
is_given none = false
is_given (some s) = not (is_empty s)

abbrev pub is_some : Option Text → Bool
is_some none = false
is_some (some s) = true

abbrev pub entry : MappingOverrideRule → Bool → Option Text → RuleTraceEntry
entry r matched reason = record {
  rule_id = r.rule_id;
  scope = r.scope;
  matched = matched;
  reason = reason;
}

abbrev pub concept_matches : FactContext → MappingOverrideRule → Bool
concept_matches f r = r.source_concept == f.concept

abbrev pub taxonomy_matches : FactContext → MappingOverrideRule → Bool
taxonomy_matches f r = elim r.source_taxonomy [ none ↦ true | some t ↦ t == f.taxonomy ]

-- `_filter_candidates`: the candidates, and the trace of those that are dropped.
unfoldable pub filter_candidates :
    FactContext → List MappingOverrideRule → Bool → List MappingOverrideRule × List RuleTraceEntry
filter_candidates f [] debug = ([], [])
filter_candidates f (r ∷ rs) debug =
    let (candidates, entries) = filter_candidates f rs debug in
    if not (concept_matches f r)
    then (
      candidates,
      if debug then entry r false (some (codes "concept_mismatch")) ∷ entries else entries,
    )
    else if not (taxonomy_matches f r)
    then (
      candidates,
      if debug then entry r false (some (codes "taxonomy_mismatch")) ∷ entries else entries,
    )
    else (r ∷ candidates, entries)

-- `_match_scope_entity`
unfoldable pub match_scope_entity : FactContext → MappingOverrideRule → Bool × Option Text
match_scope_entity f r = elim r.scope [
  | company ↦
      if not (is_given r.match_cik) || not (option_beq r.match_cik (some f.cik))
      then (false, some (codes "cik_mismatch"))
      else (true, none)
  | industry ↦
      if not (is_given r.match_industry_code)
        || not (option_beq r.match_industry_code f.industry_code)
      then (false, some (codes "industry_mismatch"))
      else (true, none)
  | analyst ↦
      if not (is_given r.match_analyst_id) || not (option_beq r.match_analyst_id f.analyst_id)
      then (false, some (codes "analyst_mismatch"))
      else (true, none)
  | global ↦
      if is_some r.match_cik || (is_some r.match_industry_code || is_some r.match_analyst_id)
      then (false, some (codes "global_rule_has_entity_qualifiers"))
      else (true, none)
]

-- `_dimensions_match`: the loop over `required.items()`.
unfoldable pub dimensions_match : Dict Text Text → Dict Text Text → Bool
dimensions_match [] actual = true
dimensions_match ((k, expected) ∷ required) actual =
    if option_beq (lookup k actual) (some expected) then dimensions_match required actual else false

-- `_rule_matches`
unfoldable pub rule_matches : FactContext → MappingOverrideRule → Bool × Option Text
unfolding match_scope_entity dimensions_match
rule_matches f r =
    let (entity_ok, reason) = match_scope_entity f r in
    if not entity_ok
    then (false, reason)
    else if not (dimensions_match r.match_dimensions f.fact_dimensions)
    then (false, some (codes "dimension_mismatch"))
    else (true, none)

-- The sort key `(-r.priority, r.rule_id)`.
abbrev pub rule_leb : MappingOverrideRule → MappingOverrideRule → Bool
rule_leb a b =
    ltb_ℤ b.priority a.priority || (eqb_ℤ a.priority b.priority && text_leb a.rule_id b.rule_id)

abbrev pub scoped_rules : OverrideScope → List MappingOverrideRule → List MappingOverrideRule
scoped_rules s = filter (λ r. scope_beq r.scope s)

-- Under `debug` every rule of the scope leaves an entry.
unfoldable pub scope_entries :
    FactContext
    → OverrideScope
    → List MappingOverrideRule
    → List RuleTraceEntry
    → Bool
    → List RuleTraceEntry
unfolding rule_matches
scope_entries f s candidates entries debug =
    if debug
    then entries
      ++ map (λ r. let (m, reason) = rule_matches f r in entry r m reason)
          (scoped_rules s candidates)
    else entries

-- The matching rule of one scope that goes first.
unfoldable pub best :
    FactContext → OverrideScope → List MappingOverrideRule → Option MappingOverrideRule
unfolding rule_matches
best f s candidates =
    head? (sort rule_leb (filter (λ r. (rule_matches f r).0) (scoped_rules s candidates)))

-- `_select_winning_rule`: the loop over the scopes, with the trace that it extends.
unfoldable pub select_winning_rule :
    FactContext
    → List MappingOverrideRule
    → List OverrideScope
    → List RuleTraceEntry
    → Bool
    → Option MappingOverrideRule × List RuleTraceEntry
unfolding best scope_entries
select_winning_rule f candidates [] entries debug = (none, entries)
select_winning_rule f candidates (s ∷ ss) entries debug =
    let entries' = scope_entries f s candidates entries debug in
    let rest = select_winning_rule f candidates ss entries' debug in
    elim (best f s candidates) [ none ↦ rest | some w ↦ (some w, entries') ]

-- `_compute_final_metric`
unfoldable pub compute_final_metric : MappingOverrideRule → Option CanonicalStatementMetric
compute_final_metric r =
    if r.is_suppression then none else elim r.target_metric [ none ↦ none | some m ↦ some m ]

-- `_decision_without_match`
unfoldable pub decision_without_match : FactContext → OverrideDecision
decision_without_match f = record {
  base_metric = f.base_metric;
  final_metric = f.base_metric;
  applied_scope = none;
  applied_rule_id = none;
  was_overridden = false;
}

-- The decision of `apply` for its winning rule.
unfoldable pub decision_of : FactContext → Option MappingOverrideRule → OverrideDecision
unfolding compute_final_metric decision_without_match
decision_of f none = decision_without_match f
decision_of f (some w) =
    let final = compute_final_metric w in
    record {
      base_metric = f.base_metric;
      final_metric = final;
      applied_scope = some w.scope;
      applied_rule_id = some w.rule_id;
      was_overridden = not (option_beq final f.base_metric);
    }

-- `_build_trace`, which runs only under `debug`.
abbrev pub build_trace :
    FactContext → OverrideDecision → List RuleTraceEntry → Bool → Option OverrideTrace
build_trace f d entries debug =
    if debug then some (record { fact = f; decision = d; considered_rules = entries }) else none

-- `apply` behind `_filter_candidates`.
unfoldable pub decide_candidates :
    FactContext
    → List MappingOverrideRule
    → List RuleTraceEntry
    → Bool
    → OverrideDecision × Option OverrideTrace
unfolding select_winning_rule decision_of
decide_candidates f [] entries debug =
    let d = decision_without_match f in (d, build_trace f d entries debug)
decide_candidates f (c ∷ cs) entries debug =
    let (winner, entries') = select_winning_rule f (c ∷ cs) scope_precedence entries debug in
    let d = decision_of f winner in (d, build_trace f d entries' debug)

unfoldable pub apply :
    FactContext → List MappingOverrideRule → Bool → OverrideDecision × Option OverrideTrace
unfolding filter_candidates decide_candidates
apply f rules debug =
    let (candidates, entries) = filter_candidates f rules debug in
    decide_candidates f candidates entries debug
