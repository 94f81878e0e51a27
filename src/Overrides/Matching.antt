-- ===== src/Overrides/Matching.antt =====
-- When a rule applies to a fact, said of its fields.
use arche_api.Base.{
  ◌≡◌, refl, ◌≢◌, ◌↔◌, inl, inr, Bool, true, ◌&&◌, Option, none, some, [], ◌∷◌, All, arith,
  Option-cases, option_beq, option_beq_iff,
}
use arche_api.Base.Text.{Text, text_beq_iff, text_eq}
use arche_api.Base.Dict.{Dict, lookup}
use arche_api.Overrides.Rules.{
  OverrideScope, global, industry, company, analyst, MappingOverrideRule, FactContext,
}
use arche_api.Overrides.Engine.{
  taxonomy_matches, is_given, match_scope_entity, dimensions_match, rule_matches,
}
use arche_api.Overrides.Precedence.{applies}

-- The taxonomy is the fact's, if the rule names one.
abbrev pub TaxonomyFits : Option Text → Text → Type 0
TaxonomyFits none t = Unit
TaxonomyFits (some s) t = s ≡ t

-- Both are there, the same and not empty.
abbrev pub IsSameText : Option Text → Option Text → Type 0
IsSameText none p = ⊥
IsSameText (some s) p = (s ≢ []) × (p ≡ some s)

-- A global rule names no entity; any other names the fact's.
abbrev pub EntityFits : OverrideScope → FactContext → MappingOverrideRule → Type 0
EntityFits global f r =
    (r.match_cik ≡ none) × (r.match_industry_code ≡ none) × (r.match_analyst_id ≡ none)
EntityFits industry f r = IsSameText r.match_industry_code f.industry_code
EntityFits company f r = IsSameText r.match_cik (some f.cik)
EntityFits analyst f r = IsSameText r.match_analyst_id f.analyst_id

-- Every dimension that the rule wants is the fact's.
abbrev pub DimensionsFit : Dict Text Text → Dict Text Text → Type 0
DimensionsFit required actual = All (λ p. lookup p.0 actual ≡ some p.1) required

pub record Applies (f : FactContext) (r : MappingOverrideRule) : Type 0 where
  pub concept : r.source_concept ≡ f.concept
  pub taxonomy : TaxonomyFits r.source_taxonomy f.taxonomy
  pub entity : EntityFits r.scope f r
  pub dimensions : DimensionsFit r.match_dimensions f.fact_dimensions

IsSameText-iff : (o p : Option Text) → ((is_given o && option_beq o p) ≡ true) ↔ IsSameText o p
IsSameText-iff none p = ground arith
IsSameText-iff (some []) p = ground arith
IsSameText-iff (some (c ∷ s)) p = ground (arith, option_beq_iff (some (c ∷ s)) p)

entity_iff :
    (f : FactContext) (r : MappingOverrideRule) (s : OverrideScope)
    → r.scope ≡ s
    → ((match_scope_entity f r).0 ≡ true) ↔ EntityFits s f r
unfolding match_scope_entity
entity_iff f r global e = ground arith
entity_iff f r industry e = ground (arith, IsSameText-iff r.match_industry_code f.industry_code)
entity_iff f r company e = ground (arith, IsSameText-iff r.match_cik (some f.cik))
entity_iff f r analyst e = ground (arith, IsSameText-iff r.match_analyst_id f.analyst_id)

dimensions_iff :
    (required actual : Dict Text Text)
    → (dimensions_match required actual ≡ true) ↔ DimensionsFit required actual
unfolding dimensions_match
dimensions_iff [] actual = ground arith
dimensions_iff ((k, v) ∷ required) actual =
    ground (arith, option_beq_iff (lookup k actual) (some v), dimensions_iff required actual)

taxonomy_iff :
    (f : FactContext) (r : MappingOverrideRule)
    → (taxonomy_matches f r ≡ true) ↔ TaxonomyFits r.source_taxonomy f.taxonomy
taxonomy_iff f r = elim (Option-cases r.source_taxonomy) [
  | inl e ↦ ground arith
  | inr (t, e) ↦ ground (arith, text_beq_iff t f.taxonomy)
]

and_iff3 :
    {P Q R : Type 0} {p q r : Bool}
    → ((p ≡ true) ↔ P)
    → ((q ≡ true) ↔ Q)
    → ((r ≡ true) ↔ R)
    → ((p && (q && r)) ≡ true) ↔ (P × Q × R)
and_iff3 h k l = ground arith

-- The engine's tests together are the conditions on the fields.
pub applies_iff : (f : FactContext) (r : MappingOverrideRule) → (applies f r ≡ true) ↔ Applies f r
applies_iff f r =
    let e = entity_iff f r r.scope refl in
    let d = dimensions_iff r.match_dimensions f.fact_dimensions in
    let t = taxonomy_iff f r in
    let c = text_beq_iff r.source_concept f.concept in
    let both : ((rule_matches f r).0 ≡ true)
        ↔ (EntityFits r.scope f r × DimensionsFit r.match_dimensions f.fact_dimensions) =
      unfold rule_matches in ground arith in
    let all = and_iff3 c t both in
    (
      λ h.
          let (p, q, (i, j)) = all.0 h in
          record { concept = p; taxonomy = q; entity = i; dimensions = j },
      λ a. all.1 (a.concept, a.taxonomy, (a.entity, a.dimensions)),
    )
