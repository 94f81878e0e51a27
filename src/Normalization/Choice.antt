-- ===== src/Normalization/Choice.antt =====
-- The choice of a fact among the candidates of a concept, in `_resolve_metric`.
use arche_api.Base.{
  Bool, true, false, not, ◌&&◌, Option, none, some, List, [], ◌∷◌, ◌++◌, filter, any, get_last?,
  option_eq,
}
use arche_api.Base.Text.{Text, text_beq, text_eq, text_leb, strip}
use arche_api.Base.Dict.{Dict, lookup, insert}
use arche_api.Base.Sort.{sort, lex}
use arche_api.Base.Results.{Result, ok, ◌>>◌, raise_if}
use arche_api.Entities.{Date, date_leb, date_eq}
use arche_api.Normalization.Types.{EdgarFact, NormalizationError, type_error}
use arche_api.Normalization.Parse.{map_text, upper_case}

-- `text.upper().strip()`, for the letters of ASCII.
abbrev pub upper_stripped : Text → Text
upper_stripped text = strip (map_text upper_case text)

-- `fact.period_end or fact.instant_date`
abbrev pub or_date : Option Date → Option Date → Option Date
or_date none other = other
or_date (some day) other = some day

abbrev pub ref_date : EdgarFact → Option Date
ref_date fact = or_date fact.period_end fact.instant_date

-- The order of the dates of two facts, where they are both dates or both None.
abbrev pub ref_date_leb : Option Date → Option Date → Bool
ref_date_leb none other = true
ref_date_leb (some a) none = false
ref_date_leb (some a) (some b) = date_leb a b

-- The tuples of `_sort_key`.
abbrev pub sort_key_leb : EdgarFact → EdgarFact → Bool
sort_key_leb = lex ref_date ref_date_leb (λ a b. text_leb a.fact_id b.fact_id)

abbrev pub is_dated : EdgarFact → Bool
is_dated fact = elim (ref_date fact) [ none ↦ false | some day ↦ true ]

-- Some facts have a date and some have None: a sort by comparisons compares two such facts, however
-- it goes about it, and that raises.
abbrev pub is_mixed : List EdgarFact → Bool
is_mixed facts = any is_dated facts && any (λ f. not (is_dated f)) facts

abbrev pub or_empty : Option (List EdgarFact) → List EdgarFact
or_empty none = []
or_empty (some facts) = facts

-- `facts_by_concept[fact.concept].append(fact)`
abbrev pub add_fact : EdgarFact → Dict Text (List EdgarFact) → Dict Text (List EdgarFact)
add_fact fact index =
    insert fact.concept (or_empty (lookup fact.concept index) ++ (fact ∷ [])) index

abbrev pub index_by_concept :
    List EdgarFact → Dict Text (List EdgarFact) → Dict Text (List EdgarFact)
index_by_concept [] index = index
index_by_concept (fact ∷ facts) index = index_by_concept facts (add_fact fact index)

abbrev pub candidates_of : Text → Dict Text (List EdgarFact) → List EdgarFact
candidates_of concept index = or_empty (lookup concept index)

abbrev pub is_in_currency : Text → EdgarFact → Bool
is_in_currency currency fact = text_beq (upper_stripped fact.unit) (upper_stripped currency)

abbrev pub or_all : List EdgarFact → List EdgarFact → List EdgarFact
or_all [] candidates = candidates
or_all (m ∷ matches) candidates = m ∷ matches

-- The facts in the reporting currency, if there are any.
abbrev pub preferred : Text → List EdgarFact → List EdgarFact
preferred currency candidates = or_all (filter (is_in_currency currency) candidates) candidates

-- The last of the sorted candidates, none where there is no candidate.
unfoldable pub choose_fact : Text → List EdgarFact → Result NormalizationError (Option EdgarFact)
choose_fact currency candidates =
    raise_if (is_mixed (preferred currency candidates)) type_error
    >> ok (get_last? (sort sort_key_leb (preferred currency candidates)))
