-- ===== src/Overrides/ValidDrafts.antt =====
-- What the validator accepts, and what the engine makes of a rule that it accepted.
use arche_api.Base.{
  ◌≡◌, refl, ◌↔◌, Bool, true, false, ◌&&◌, none, some, List, [], ◌∷◌, All, arith, not, ◌||◌,
  option_beq, option_eq,
}
use arche_api.Base.Int.{pos, ◌≤ℤ◌}
use arche_api.Base.Text.{Text, text_eq}
use arche_api.Base.Results.{ok, ◌>>◌, >>-ok}
use arche_api.Overrides.Rules.{OverrideScope, global, industry, company, analyst, FactContext}
use arche_api.Overrides.Engine.{
  is_given, is_some, rule_matches, match_scope_entity, dimensions_match,
}
use arche_api.Overrides.Validator.{
  OverrideRuleDraft, validate_scope_constraints, validate_match_dimensions, validate_priority,
  validate_for_create, is_blank, rule_of,
}

-- The match fields that each scope wants and forbids.
abbrev pub ScopeFieldsOk : OverrideScope → OverrideRuleDraft → Type 0
ScopeFieldsOk global d =
    (is_given d.match_cik ≡ false)
    × (is_given d.match_industry_code ≡ false)
    × (is_given d.match_analyst_id ≡ false)
ScopeFieldsOk industry d = (is_given d.match_industry_code ≡ true) × (is_given d.match_cik ≡ false)
ScopeFieldsOk company d = is_given d.match_cik ≡ true
ScopeFieldsOk analyst d = is_given d.match_analyst_id ≡ true

pub record IsValidDraft (d : OverrideRuleDraft) : Type 0 where
  pub scope_fields : ScopeFieldsOk d.scope d
  pub no_target : d.is_suppression ≡ true → d.target_metric ≡ none
  pub dimensions : All (λ p. (is_blank p.0 ≡ false) × (is_blank p.1 ≡ false)) d.match_dimensions
  pub priority : pos 0 ≤ℤ d.priority

scope_constraints_iff :
    (d : OverrideRuleDraft)
    → (validate_scope_constraints d ≡ ok tt)
      ↔ (ScopeFieldsOk d.scope d × (d.is_suppression ≡ true → d.target_metric ≡ none))
unfolding validate_scope_constraints
scope_constraints_iff d = ground arith

match_dimensions_iff :
    (dims : List (Text × Text))
    → (validate_match_dimensions dims ≡ ok tt)
      ↔ All (λ p. (is_blank p.0 ≡ false) × (is_blank p.1 ≡ false)) dims
unfolding validate_match_dimensions
match_dimensions_iff [] = ground arith
match_dimensions_iff ((k, v) ∷ dims) = ground (arith, match_dimensions_iff dims)

-- A draft passes exactly when its scope's fields are as they should be, a suppression names no
-- target, no dimension is blank and the priority is not negative.
pub validate_for_create_iff :
    (d : OverrideRuleDraft) → (validate_for_create d ≡ ok tt) ↔ IsValidDraft d
unfolding validate_for_create
validate_for_create_iff d =
    let scope = scope_constraints_iff d in
    let dims = match_dimensions_iff d.match_dimensions in
    let rest = >>-ok (validate_match_dimensions d.match_dimensions) (validate_priority d) in
    let all =
      >>-ok (validate_scope_constraints d)
        (validate_match_dimensions d.match_dimensions >> validate_priority d) in
    let prio : (validate_priority d ≡ ok tt) ↔ (pos 0 ≤ℤ d.priority) = ground arith in
    (
      λ h.
          let (a, b) = all.0 h in
          let (c, e) = rest.0 b in
          record {
            scope_fields = (scope.0 a).0;
            no_target = (scope.0 a).1;
            dimensions = dims.0 c;
            priority = prio.0 e;
          },
      λ v.
          all.1 (
            scope.1 (v.scope_fields, v.no_target),
            rest.1 (dims.1 v.dimensions, prio.1 v.priority),
          ),
    )

-- Whether the entity of a fact is the one that a rule of the scope is for.
abbrev pub entity_fits : OverrideScope → FactContext → OverrideRuleDraft → Bool
entity_fits global f d =
    not (is_some d.match_cik || (is_some d.match_industry_code || is_some d.match_analyst_id))
entity_fits industry f d = option_beq d.match_industry_code f.industry_code
entity_fits company f d = option_beq d.match_cik (some f.cik)
entity_fits analyst f d = option_beq d.match_analyst_id f.analyst_id

entity-valid :
    (id : Text) (d : OverrideRuleDraft) (f : FactContext) (s : OverrideScope)
    → d.scope ≡ s
    → ScopeFieldsOk s d
    → (match_scope_entity f (rule_of id d)).0 ≡ entity_fits s f d
unfolding match_scope_entity
entity-valid id d f global e v = ground arith
entity-valid id d f industry e v = ground arith
entity-valid id d f company e v = ground arith
entity-valid id d f analyst e v = ground arith

-- For a rule that was validated, the engine's test is the rule's own field against the fact's, and
-- the dimensions; that a field is there at all needs no second test.
pub rule_matches-valid :
    (id : Text) (d : OverrideRuleDraft) (f : FactContext)
    → validate_for_create d ≡ ok tt
    → (rule_matches f (rule_of id d)).0
      ≡ (entity_fits d.scope f d && dimensions_match d.match_dimensions f.fact_dimensions)
rule_matches-valid id d f h =
    let v = (validate_for_create_iff d).0 h in
    let e = entity-valid id d f d.scope refl v.scope_fields in unfold rule_matches in ground arith

-- A GLOBAL draft with an empty text in one of its match fields passes the validator, and the engine
-- applies the rule to no fact at all.
global_empty_never_matches :
    (id : Text) (d : OverrideRuleDraft) (f : FactContext)
    → d.scope ≡ global
    → d.match_cik ≡ some []
    → d.match_industry_code ≡ none
    → d.match_analyst_id ≡ none
    → d.is_suppression ≡ false
    → d.match_dimensions ≡ []
    → pos 0 ≤ℤ d.priority
    → (validate_for_create d ≡ ok tt) × ((rule_matches f (rule_of id d)).0 ≡ false)
unfolding validate_for_create rule_matches
global_empty_never_matches id d f e c i a s m p = ground arith
