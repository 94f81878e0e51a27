-- ===== src/Taxonomy/Concepts.antt =====
-- `GAAPConcept` and `GAAPTaxonomy`, with what they read of domain/entities/xbrl_document.py.
use arche_api.Base.{Bool, true, not, ◌&&◌, ◌||◌, Option, none, some, List, [], ◌∷◌}
use arche_api.Base.Text.{Text, codes, text_eq, text_beq, is_empty}
use arche_api.Base.Dict.{Dict, lookup, insert}
use arche_api.Base.Results.{Result, ok, ◌>>◌, raise_if}
use arche_api.Entities.{
  CanonicalStatementMetric, revenue, net_income, operating_income, total_assets, total_liabilities,
  net_cash_from_operating_activities,
}
use arche_api.Normalization.Parse.{map_text, upper_case}

pub record GaapConcept : Type 0 where
  pub concept_qname : Text
  pub canonical_metric : Option CanonicalStatementMetric
  pub period_type : Text
  pub default_unit_suffix : Option Text
  pub allowed_dimensions : List Text

-- `EdgarMappingError` by its message.
pub data TaxonomyError : Type 0 where
  expected_instant expected_duration unit_mismatch : TaxonomyError

abbrev pub GaapTaxonomy : Type 0
GaapTaxonomy = Dict Text GaapConcept

-- `get`
abbrev pub get_concept : GaapTaxonomy → Text → Option GaapConcept
get_concept concepts qname = lookup qname concepts

-- `resolve_metric`
abbrev pub resolve_concept_metric : GaapTaxonomy → Text → Option CanonicalStatementMetric
resolve_concept_metric concepts qname = elim (lookup qname concepts) [
  | none ↦ none
  | some concept ↦ concept.canonical_metric
]

-- `text.endswith(suffix)`
abbrev pub ends_with : Text → Text → Bool
ends_with suffix [] = text_beq suffix []
ends_with suffix (c ∷ cs) = text_beq suffix (c ∷ cs) || ends_with suffix cs

abbrev pub has_unit_of : Option Text → Option Text → Bool
has_unit_of (some suffix) (some measure) =
    is_empty suffix || ends_with (map_text upper_case suffix) (map_text upper_case measure)
has_unit_of _ _ = true

abbrev pub validate_concept :
    Option GaapConcept → Bool → Option Text → Result TaxonomyError (Unit {0})
validate_concept none is_instant measure = ok tt
validate_concept (some concept) is_instant measure = do
  raise_if (text_beq concept.period_type (codes "instant") && not is_instant) expected_instant
  raise_if (text_beq concept.period_type (codes "duration") && is_instant) expected_duration
  raise_if (not (has_unit_of concept.default_unit_suffix measure)) unit_mismatch

-- `validate_fact`: of the fact its concept, of the context whether its period is an instant, and of
-- the unit, if there is one, its measure.
unfoldable pub validate_fact :
    GaapTaxonomy → Text → Bool → Option Text → Result TaxonomyError (Unit {0})
validate_fact concepts concept_qname is_instant measure =
    validate_concept (lookup concept_qname concepts) is_instant measure

-- `add`
abbrev pub add_concept : Text → CanonicalStatementMetric → Text → GaapTaxonomy → GaapTaxonomy
add_concept concept_qname metric period_type = insert concept_qname (record {
  concept_qname = concept_qname;
  canonical_metric = some metric;
  period_type = period_type;
  default_unit_suffix = some (codes "USD");
  allowed_dimensions = [];
})

unfoldable pub build_minimal_gaap_taxonomy : GaapTaxonomy
build_minimal_gaap_taxonomy =
    add_concept (codes "us-gaap:NetCashProvidedByUsedInOperatingActivities")
      net_cash_from_operating_activities (codes "duration")
      (add_concept (codes "us-gaap:Liabilities") total_liabilities (codes "instant") (
        add_concept (codes "us-gaap:Assets") total_assets (codes "instant") (
          add_concept (codes "us-gaap:OperatingIncomeLoss") operating_income (codes "duration") (
            add_concept (codes "us-gaap:NetIncomeLoss") net_income (codes "duration")
              (add_concept (codes "us-gaap:Revenues") revenue (codes "duration") [])))))
