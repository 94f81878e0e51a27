-- ===== src/DerivedMetrics/Prior.antt =====
-- `_select_prior_payload`, and the windows of the trailing twelve months.
use arche_api.Base.{
  ℕ, ◌-◌, Bool, not, ◌&&◌, Option, none, some, List, [], ◌∷◌, ◌++◌, if◌then◌else◌, ◌==◌, filter,
  length, zero, suc,
}
use mathlib.Core.List.{reverse}
use arche_api.Base.Int.{pos, ◌-ℤ◌, int_eq}
use arche_api.Base.Sort.{sort}
use arche_api.Entities.{
  CanonicalStatementPayload, statement_type_eq, fiscal_period_eq, date_leb, Date,
}
use arche_api.DerivedMetrics.Types.{MetricContext}

-- `a < b` on dates.
abbrev pub date_ltb : Date → Date → Bool
date_ltb a b = not (date_leb b a)

module _ {ℓ} {A : Type ℓ} where
  -- `for x in xs: if test(x): return x`, and `return None` after it.
  abbrev pub find : (A → Bool) → List A → Option A
  find test [] = none
  find test (x ∷ xs) = if test x then some x else find test xs

  abbrev pub take : ℕ → List A → List A
  take zero xs = []
  take (suc n) [] = []
  take (suc n) (x ∷ xs) = x ∷ take n xs

  abbrev pub drop : ℕ → List A → List A
  drop zero xs = xs
  drop (suc n) [] = []
  drop (suc n) (x ∷ xs) = drop n xs

  -- `xs[-n:]` for an n that is not 0.
  abbrev pub last_part : ℕ → List A → List A
  last_part n xs = drop (length xs - n) xs

abbrev pub is_year_back : CanonicalStatementPayload → ℕ → CanonicalStatementPayload → Bool
is_year_back payload years_back p =
    (p.statement_type == payload.statement_type)
    && (p.fiscal_year == (payload.fiscal_year -ℤ pos years_back))
    && (p.fiscal_period == payload.fiscal_period)

abbrev pub is_earlier : CanonicalStatementPayload → CanonicalStatementPayload → Bool
is_earlier payload p =
    (p.statement_type == payload.statement_type) && date_ltb p.statement_date payload.statement_date

-- The loop for quarters: a later match replaces `previous`.
abbrev pub last_earlier :
    CanonicalStatementPayload
    → Option CanonicalStatementPayload
    → List CanonicalStatementPayload
    → Option CanonicalStatementPayload
last_earlier payload previous [] = previous
last_earlier payload previous (p ∷ ps) =
    last_earlier payload (if is_earlier payload p then some p else previous) ps

-- `_select_prior_payload(ctx, years_back=years_back, quarters_back=quarters_back)`
unfoldable pub select_prior_payload :
    MetricContext → Option ℕ → Option ℕ → Option CanonicalStatementPayload
unfolding ◌-ℤ◌
select_prior_payload ctx (some years_back) quarters_back =
    find (is_year_back ctx.payload years_back) (reverse ctx.history)
select_prior_payload ctx none (some quarters_back) = last_earlier ctx.payload none ctx.history
select_prior_payload ctx none none = none

abbrev pub payload_leb : CanonicalStatementPayload → CanonicalStatementPayload → Bool
payload_leb p q = date_leb p.statement_date q.statement_date

-- The comparable periods with the current one, by date.
abbrev pub relevant_periods : MetricContext → List CanonicalStatementPayload
relevant_periods ctx =
    sort payload_leb (
      filter (λ p. p.statement_type == ctx.payload.statement_type) ctx.history
      ++ (ctx.payload ∷ []))

-- `relevant[-4:]` and `relevant[-8:-4]` of a list of at least eight.
abbrev pub last_four : List CanonicalStatementPayload → List CanonicalStatementPayload
last_four relevant = last_part 4 relevant

abbrev pub prior_four : List CanonicalStatementPayload → List CanonicalStatementPayload
prior_four relevant = take 4 (last_part 8 relevant)
