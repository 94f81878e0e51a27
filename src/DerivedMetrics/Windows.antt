-- ===== src/DerivedMetrics/Windows.antt =====
-- The prior periods that the growth metrics compare with.
use arche_api.Base.{
  ℕ, ◌≡◌, refl, sym, ap, ◌∙◌, true, false, Option, none, some, List, [], ◌∷◌, if◌then◌else◌, arith,
  All, All-map, All-In, In, Bool-cases, inl, inr,
}
use arche_api.Base.Sort.{IsSorted}
use arche_api.Entities.{CanonicalStatementPayload}
use arche_api.DerivedMetrics.Prior.{is_earlier, last_earlier, payload_leb, select_prior_payload}
use arche_api.DerivedMetrics.Types.{MetricContext}

-- What the loop has: the newest earlier payload of those it has passed.
abbrev pub IsNewest :
    CanonicalStatementPayload
    → List CanonicalStatementPayload
    → Option CanonicalStatementPayload
    → Type 0
IsNewest payload ps none = All (λ p. is_earlier payload p ≡ false) ps
IsNewest payload ps (some q) =
    In q ps
    × (is_earlier payload q ≡ true)
    × All (λ p. is_earlier payload p ≡ true → payload_leb p q ≡ true) ps

payload_leb_refl : (p : CanonicalStatementPayload) → payload_leb p p ≡ true
payload_leb_refl p = ground arith

-- The loop's result, with what stood before as the fallback.
abbrev or_else :
    Option CanonicalStatementPayload
    → Option CanonicalStatementPayload
    → Option CanonicalStatementPayload
or_else none previous = previous
or_else (some q) previous = some q

last_earlier-or_else :
    (payload : CanonicalStatementPayload) (previous : Option CanonicalStatementPayload)
    (ps : List CanonicalStatementPayload)
    → last_earlier payload previous ps ≡ or_else (last_earlier payload none ps) previous
last_earlier-or_else payload previous [] = refl
last_earlier-or_else payload previous (p ∷ ps) = elim (Bool-cases (is_earlier payload p)) [
  | inl e ↦ rw e (
      last_earlier-or_else payload (some p) ps
      ∙ or_else_some (last_earlier payload none ps) p previous
      ∙ ap (λ o. or_else o previous) (sym (last_earlier-or_else payload (some p) ps)))
  | inr e ↦ rw e (last_earlier-or_else payload previous ps)
]
  where
    or_else_some :
        (o : Option CanonicalStatementPayload) (p : CanonicalStatementPayload)
        (previous : Option CanonicalStatementPayload)
        → or_else o (some p) ≡ or_else (or_else o (some p)) previous
    or_else_some none p previous = refl
    or_else_some (some q) p previous = refl

IsNewest-cons :
    (payload p : CanonicalStatementPayload) (ps : List CanonicalStatementPayload)
    (found : Option CanonicalStatementPayload)
    → All (λ q. payload_leb p q ≡ true) ps
    → IsNewest payload ps found
    → IsNewest payload (p ∷ ps) (or_else found (if is_earlier payload p then some p else none))
IsNewest-cons payload p ps none le h = elim (Bool-cases (is_earlier payload p)) [
  | inl e ↦ rw e (inl refl, e, (λ _. payload_leb_refl p, All-map ps (λ q n m. cc) h))
  | inr e ↦ rw e (e, h)
]
IsNewest-cons payload p ps (some q) le (i, e, all) =
    (inr i, e, (λ _. All-In (λ r. payload_leb p r ≡ true) q ps i le, all))

last_earlier-IsNewest :
    (payload : CanonicalStatementPayload) (ps : List CanonicalStatementPayload)
    → IsSorted payload_leb ps
    → IsNewest payload ps (last_earlier payload none ps)
last_earlier-IsNewest payload [] s = tt
last_earlier-IsNewest payload (p ∷ ps) s =
    rw (last_earlier-or_else payload (if is_earlier payload p then some p else none) ps) (
      IsNewest-cons payload p ps (last_earlier payload none ps) s.0
        (last_earlier-IsNewest payload ps s.1))

-- In a history ordered by date, the payload selected for a quarterly comparison is an earlier payload
-- of the same statement type than which no such payload of the history is later; and where none is
-- selected, the history has none.
pub select_prior_payload-IsNewest :
    (ctx : MetricContext) (quarters : ℕ)
    → IsSorted payload_leb ctx.history
    → IsNewest ctx.payload ctx.history (select_prior_payload ctx none (some quarters))
unfolding select_prior_payload
select_prior_payload-IsNewest ctx quarters s = last_earlier-IsNewest ctx.payload ctx.history s
