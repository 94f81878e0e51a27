-- ===== src/Overrides/Tests.antt =====
-- Runs of the override engine and of the validator on small inputs.
use arche_api.Base.{
  ◌≡◌, refl, ◌↔◌, ap, sym, ◌∙◌, ◌&&◌, true, false, none, some, [], ◌∷◌, In, arith, inl, inr,
}
use arche_api.Base.Int.{pos, negsuc}
use arche_api.Base.Text.{codes, text_beq, strip}
use arche_api.Base.Results.{ok, err}
use arche_api.Entities.{revenue, net_income}
use arche_api.Overrides.Rules.{global, industry, company, MappingOverrideRule, FactContext}
use arche_api.Overrides.Engine.{apply, rule_matches, dimensions_match}
use arche_api.Overrides.Decision.{Decides, apply-Decides, apply_congr}
use arche_api.Overrides.Validator.{
  OverrideRuleDraft, validate_for_create, rule_of, negative_priority, industry_code_missing,
}
use arche_api.Overrides.ValidDrafts.{
  IsValidDraft, validate_for_create_iff, entity_fits, rule_matches-valid,
}

abbrev fact : FactContext
fact = record {
  concept = codes "Revenues";
  taxonomy = codes "us-gaap";
  fact_dimensions = (codes "segment", codes "cloud") ∷ [];
  cik = codes "0000320193";
  industry_code = some (codes "3571");
  analyst_id = none;
  base_metric = some revenue;
}

abbrev remap : MappingOverrideRule
remap = record {
  rule_id = codes "g1";
  scope = global;
  source_concept = codes "Revenues";
  source_taxonomy = none;
  match_cik = none;
  match_industry_code = none;
  match_analyst_id = none;
  match_dimensions = [];
  target_metric = some net_income;
  is_suppression = false;
  priority = pos 9;
}

abbrev suppress : MappingOverrideRule
suppress = record {
  rule_id = codes "c1";
  scope = company;
  source_concept = codes "Revenues";
  source_taxonomy = some (codes "us-gaap");
  match_cik = some (codes "0000320193");
  match_industry_code = none;
  match_analyst_id = none;
  match_dimensions = (codes "segment", codes "cloud") ∷ [];
  target_metric = none;
  is_suppression = true;
  priority = pos 0;
}

-- The company rule goes before the global one in spite of its lower priority.
company_wins : (apply fact (remap ∷ suppress ∷ []) false).0.applied_rule_id ≡ some (codes "c1")
unfolding apply
company_wins = refl

global_alone : (apply fact (remap ∷ []) true).0.final_metric ≡ some net_income
unfolding apply
global_alone = refl

apply-Decides_example :
    Decides fact (remap ∷ suppress ∷ []) (apply fact (remap ∷ suppress ∷ []) true).0
apply-Decides_example = apply-Decides fact (remap ∷ suppress ∷ []) true

same_rules :
    (r : MappingOverrideRule)
    → In r (remap ∷ suppress ∷ []) ↔ In r (suppress ∷ remap ∷ suppress ∷ [])
same_rules r = ground arith

ids_differ : ¬ (codes "g1" ≡ codes "c1")
ids_differ e = absurd (ground (arith, ap (text_beq (codes "g1")) e))

unique_ids :
    (v w : MappingOverrideRule)
    → In v (remap ∷ suppress ∷ [])
    → In w (remap ∷ suppress ∷ [])
    → v.rule_id ≡ w.rule_id
    → v ≡ w
unique_ids v w (inl p) (inl q) e = p ∙ sym q
unique_ids v w (inr (inl p)) (inr (inl q)) e = p ∙ sym q
unique_ids v w (inl p) (inr (inl q)) e =
    absurd (ids_differ (sym (ap (λ r. r.rule_id) p) ∙ e ∙ ap (λ r. r.rule_id) q))
unique_ids v w (inr (inl p)) (inl q) e =
    absurd (ids_differ (sym (ap (λ r. r.rule_id) q) ∙ sym e ∙ ap (λ r. r.rule_id) p))
unique_ids v w (inr (inr p)) j e = absurd p
unique_ids v w i (inr (inr q)) e = absurd q

apply_congr_example :
    (apply fact (remap ∷ suppress ∷ []) true).0
    ≡ (apply fact (suppress ∷ remap ∷ suppress ∷ []) false).0
apply_congr_example =
    apply_congr fact (remap ∷ suppress ∷ []) (suppress ∷ remap ∷ suppress ∷ []) true false
      same_rules unique_ids

abbrev draft : OverrideRuleDraft
draft = record {
  scope = industry;
  source_concept = codes "Revenues";
  source_taxonomy = none;
  match_cik = none;
  match_industry_code = some (codes "3571");
  match_analyst_id = none;
  match_dimensions = (codes "segment", codes "cloud") ∷ [];
  target_metric = some net_income;
  is_suppression = false;
  priority = pos 3;
}

draft_ok : validate_for_create draft ≡ ok tt
unfolding validate_for_create strip
draft_ok = refl

priority_refused :
    validate_for_create (record draft { priority = negsuc 0 }) ≡ err negative_priority
unfolding validate_for_create strip
priority_refused = refl

code_missing :
    validate_for_create (record draft { match_industry_code = some [] }) ≡ err industry_code_missing
unfolding validate_for_create strip
code_missing = refl

validate_for_create_iff_example : (validate_for_create draft ≡ ok tt) ↔ IsValidDraft draft
validate_for_create_iff_example = validate_for_create_iff draft

rule_matches-valid_example : (rule_matches fact (rule_of (codes "i1") draft)).0 ≡ (
    entity_fits draft.scope fact draft
    && dimensions_match draft.match_dimensions fact.fact_dimensions)
rule_matches-valid_example = rule_matches-valid (codes "i1") draft fact draft_ok
