-- ===== src/DerivedMetrics/Trailing.antt =====
-- The growth over the trailing twelve months.
use arche_api.Base.{
  ℕ, zero, suc, ◌+◌, ◌-◌, ◌≤◌, ◌≡◌, refl, sym, ap, ◌∙◌, Option, none, some, List, [], ◌∷◌, ◌++◌,
  map, ltb, length, filter, arith, ◌==◌,
}
use mathlib.Core.List.{Perm, foldl}
use arche_api.Base.Sort.{sort-perm, IsSorted, IsOrder, sort-IsSorted}
use arche_api.Base.Results.{ok, bind-ok, raise_if}
use arche_api.Decimal.{Decimal, decimal_zero, add, sub}
use arche_api.Entities.{CanonicalStatementPayload, metric_eq, statement_type_eq, revenue}
use arche_api.DerivedMetrics.Types.{MetricContext, insufficient_history_error}
use arche_api.DerivedMetrics.Division.{get_core_metric, require}
use arche_api.DerivedMetrics.Prior.{
  take, drop, last_part, payload_leb, relevant_periods, last_four, prior_four,
}
use arche_api.DerivedMetrics.Formulas.{sum_revenue, compute_revenue_growth_ttm}
use arche_api.DerivedMetrics.Ratios.{IsQuotient, quantized_iff}

module _ {A : Type 0} where
  take-drop : (n : ℕ) (xs : List A) → take n xs ++ drop n xs ≡ xs
  take-drop zero xs = refl
  take-drop (suc n) [] = refl
  take-drop (suc n) (x ∷ xs) = ap (λ ys. x ∷ ys) (take-drop n xs)

  length-take : (n : ℕ) (xs : List A) → n ≤ length xs → length (take n xs) ≡ n
  length-take zero xs h = refl
  length-take (suc n) [] h = absurd (omega (arith, h))
  length-take (suc n) (x ∷ xs) h = omega (arith, length-take n xs (omega (arith, h)))

  length-drop : (n : ℕ) (xs : List A) → length (drop n xs) ≡ length xs - n
  length-drop zero xs = omega arith
  length-drop (suc n) [] = omega arith
  length-drop (suc n) (x ∷ xs) = omega (arith, length-drop n xs)

  drop-nil : (n : ℕ) → ◌≡◌ {A = List A} (drop n []) []
  drop-nil zero = refl
  drop-nil (suc n) = refl

  drop-drop : (m n : ℕ) (xs : List A) → drop m (drop n xs) ≡ drop (n + m) xs
  drop-drop m zero xs = ap (λ k. drop k xs) (let e : m ≡ 0 + m = omega arith in e)
  drop-drop m (suc n) [] = drop-nil m ∙ sym (drop-nil (suc n + m))
  drop-drop m (suc n) (x ∷ xs) =
      drop-drop m n xs
      ∙ ap (λ k. drop k (x ∷ xs)) (let e : suc (n + m) ≡ suc n + m = omega arith in e)

  -- A list of at least eight ends with two windows of four.
  windows :
      (xs : List A)
      → 8 ≤ length xs
      → take (length xs - 8) xs ++ (take 4 (last_part 8 xs) ++ last_part 4 xs) ≡ xs
  windows xs h =
      let meets : last_part 4 xs ≡ drop 4 (last_part 8 xs) =
        ap (λ k. drop k xs) (let e : length xs - 4 ≡ length xs - 8 + 4 = omega (arith, h) in e)
        ∙ sym (drop-drop 4 (length xs - 8) xs) in
      rw (meets, take-drop 4 (last_part 8 xs)) (take-drop (length xs - 8) xs)

  length-last_part : (n : ℕ) (xs : List A) → n ≤ length xs → length (last_part n xs) ≡ n
  length-last_part n xs h = omega (arith, length-drop (length xs - n) xs, h)

payload_leb-IsOrder : IsOrder payload_leb
payload_leb-IsOrder = record { total = λ p q. ground arith; trans = λ p q r h k. ground arith }

raise_if-ok : (n : ℕ) → raise_if (ltb n 8) insufficient_history_error ≡ ok tt → 8 ≤ n
raise_if-ok n h = ground (arith, h)

require-ok : (o : Option Decimal) (v : Decimal) → require o ≡ ok v → o ≡ some v
require-ok none v h = cc
require-ok (some w) v h = cc

module _ (prec : ℕ) (ctx : MetricContext) where
  abbrev revenue_of : CanonicalStatementPayload → Option Decimal
  revenue_of p = get_core_metric p revenue

  -- The sum of the revenues of a window, none of which is missing.
  abbrev pub IsTotal : List CanonicalStatementPayload → Decimal → Type 0
  IsTotal ps total =
      (revenues : List Decimal) × (map revenue_of ps ≡ map some revenues)
      × (total ≡ foldl (add prec) decimal_zero revenues)

  sum_revenue-ok :
      (start total : Decimal) (ps : List CanonicalStatementPayload)
      → sum_revenue prec ctx start ps ≡ ok total
      → (revenues : List Decimal) × (map revenue_of ps ≡ map some revenues)
        × (total ≡ foldl (add prec) start revenues)
  sum_revenue-ok start total [] h = ([], refl, cc)
  sum_revenue-ok start total (p ∷ ps) h =
      let (v, rest, found) =
        bind-ok (require (revenue_of p)) (λ rev. sum_revenue prec ctx (add prec start rev) ps) total
          h in
      let (revenues, same, sum) = sum_revenue-ok (add prec start v) total ps rest in
      let e : revenue_of p ≡ some v = require-ok (revenue_of p) v found in
      (v ∷ revenues, cc (e, same), sum)

  -- The periods of the history with the statement type of the current one, and that one.
  abbrev pub comparable : List CanonicalStatementPayload
  comparable =
      filter (λ p. p.statement_type == ctx.payload.statement_type) ctx.history ++ (ctx.payload ∷ [])

  -- Whenever the growth is computed, the comparable periods, ordered by date, end with a prior and a
  -- last window of four periods each, all eight with a revenue, and the growth is the quantized
  -- quotient of the difference of the two totals by the prior total, which is not zero and not below
  -- the guard in magnitude.
  pub compute_revenue_growth_ttm-windows :
      (v : Decimal)
      → compute_revenue_growth_ttm prec ctx ≡ ok v
      → (older : List CanonicalStatementPayload) × (prior : List CanonicalStatementPayload)
        × (last : List CanonicalStatementPayload) × Perm (older ++ (prior ++ last)) comparable
        × IsSorted payload_leb (older ++ (prior ++ last))
        × (length prior ≡ 4)
        × (length last ≡ 4)
        × ((a : Decimal) × (b : Decimal) × IsTotal last a
            × IsTotal prior b
            × IsQuotient prec ctx (some (sub prec a b)) (some b) v)
  compute_revenue_growth_ttm-windows v h =
      let xs : List CanonicalStatementPayload = relevant_periods ctx in
      let (_, run, enough) =
        bind-ok (raise_if (ltb (length xs) 8) insufficient_history_error) _ v h in
      let (a, run_prior, last_total) =
        bind-ok (sum_revenue prec ctx decimal_zero (last_four xs)) _ v run in
      let (b, divided, prior_total) =
        bind-ok (sum_revenue prec ctx decimal_zero (prior_four xs)) _ v run_prior in
      let long : 8 ≤ length xs = raise_if-ok (length xs) enough in
      let all = windows xs long in
      (
        take (length xs - 8) xs,
        prior_four xs,
        last_four xs,
        rw all (sort-perm payload_leb comparable),
        rw all (sort-IsSorted payload_leb payload_leb-IsOrder comparable),
        length-take 4 (last_part 8 xs) (omega (arith, length-last_part 8 xs long)),
        length-last_part 4 xs (omega (arith, long)),
        (
          a,
          b,
          sum_revenue-ok decimal_zero a (last_four xs) last_total,
          sum_revenue-ok decimal_zero b (prior_four xs) prior_total,
          (quantized_iff prec ctx (some (sub prec a b)) (some b) v).0 divided,
        ),
      )
