-- ===== src/Entities/FactOrder.antt =====
-- The order of normalized facts that the reconciliation and the data-quality engine sort by.
use arche_api.Base.{Bool}
use arche_api.Base.Int.{leb_ℤ, int_eq}
use arche_api.Base.Text.{text_leb, text_eq}
use arche_api.Base.Sort.{lex}
use arche_api.Entities.Dates.{date_leb, date_eq}
use arche_api.Entities.Payload.{EdgarNormalizedFact}

-- The sort key `(statement_date, version_sequence, dimension_key, metric_code)`.
abbrev pub fact_leb : EdgarNormalizedFact → EdgarNormalizedFact → Bool
fact_leb =
    lex (λ f. f.statement_date) date_leb
      (lex (λ f. f.version_sequence) leb_ℤ
        (lex (λ f. f.dimension_key) text_leb (λ a b. text_leb a.metric_code b.metric_code)))
