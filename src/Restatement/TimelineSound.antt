-- ===== src/Restatement/TimelineSound.antt =====
-- The checks of a timeline's constructor pass for the series of a ledger.
use arche_api.Base.{
  ℕ, suc, ◌+◌, ◌≤◌, ◌≡◌, refl, sym, ap, ◌∙◌, inl, inr, Bool, true, false, Option, none, some, List,
  [], ◌∷◌, ◌++◌, if◌then◌else◌, length, All, In, arith, Option-cases, All-append,
}
use arche_api.Base.Text.{Text, text_eq}
use arche_api.Base.Dict.{
  Dict, lookup, insert, keys, IsDistinct, insert-IsDistinct, insert-All, lookup-All, In-keys-lookup,
}
use arche_api.Base.Results.{ok}
use arche_api.Decimal.{Decimal, decimal_zero, decimal_ltb, copy_abs, copy_abs_nonneg}
use arche_api.Entities.{CanonicalStatementMetric, metric_value}
use arche_api.Restatement.Delta.{RestatementMetricDelta, RestatementDelta}
use arche_api.Restatement.Timeline.{
  check_hops, check_by_metric, has_extra, Series, or_nil, exceeds, record_diff, record_metric,
  record_metrics, record_ledger,
}
use arche_api.Restatement.TimelineLaws.{listed, counted, count_changes, greatest_from, Tracks}

-- A pair that the value object accepts.
abbrev pub IsGoodHop : ℕ → ℕ × Decimal → Type 0
IsGoodHop total p = (1 ≤ p.0) × (p.0 ≤ total) × (decimal_ltb p.1 decimal_zero ≡ false)

abbrev AreGoodHops : ℕ → List (ℕ × Decimal) → Type 0
AreGoodHops total hops = All (IsGoodHop total) hops

pub record IsSound (total : ℕ) (s : Series) : Type 0 where
  pub good_hops : All (λ p. AreGoodHops total p.1) s.by_metric
  pub distinct : IsDistinct s.per_metric_max_delta

or_nil-good :
    (total : ℕ) (o : Option (List (ℕ × Decimal)))
    → ((hops : List (ℕ × Decimal)) → o ≡ some hops → AreGoodHops total hops)
    → AreGoodHops total (or_nil o)
or_nil-good total none h = tt
or_nil-good total (some hops) h = h hops refl

record_diff-IsSound :
    (total hop : ℕ) (code : Text) (x : Decimal) (s : Series)
    → IsGoodHop total (hop, x)
    → IsSound total s
    → IsSound total (record_diff hop code x s)
unfolding record_diff
record_diff-IsSound total hop code x s good h = record {
  good_hops =
      insert-All (AreGoodHops total) code (or_nil (lookup code s.by_metric) ++ ((hop, x) ∷ []))
        s.by_metric
        (All-append (IsGoodHop total) (or_nil (lookup code s.by_metric)) ((hop, x) ∷ [])
          (or_nil-good total (lookup code s.by_metric)
            (λ hops q. lookup-All (AreGoodHops total) code hops s.by_metric h.good_hops q))
          (good, tt))
        h.good_hops;
  distinct = kept (exceeds x (lookup code s.per_metric_max_delta));
}
  where
    kept :
        (b : Bool)
        → IsDistinct (if b then insert code x s.per_metric_max_delta else s.per_metric_max_delta)
    kept true = insert-IsDistinct code x s.per_metric_max_delta h.distinct
    kept false = h.distinct

record_metric-IsSound :
    (total hop : ℕ) (m : CanonicalStatementMetric) (o : Option Decimal) (s : Series)
    → 1 ≤ hop
    → hop ≤ total
    → IsSound total s
    → IsSound total (record_metric hop m o s)
record_metric-IsSound total hop m none s l u h = h
record_metric-IsSound total hop m (some diff) s l u h =
    record_diff-IsSound total hop (metric_value m) (copy_abs diff) s (l, u, copy_abs_nonneg diff) h

record_metrics-IsSound :
    (total hop : ℕ) (metrics : Dict CanonicalStatementMetric RestatementMetricDelta) (s : Series)
    → 1 ≤ hop
    → hop ≤ total
    → IsSound total s
    → IsSound total (record_metrics hop metrics s)
record_metrics-IsSound total hop [] s l u h = h
record_metrics-IsSound total hop ((m, d) ∷ rest) s l u h =
    record_metrics-IsSound total hop rest (record_metric hop m d.diff s) l u
      (record_metric-IsSound total hop m d.diff s l u h)

pub record_ledger-IsSound :
    (total hop : ℕ) (ds : List RestatementDelta) (s : Series)
    → 1 ≤ hop
    → hop + length ds ≤ suc total
    → IsSound total s
    → IsSound total (record_ledger hop ds s)
record_ledger-IsSound total hop [] s l u h = h
record_ledger-IsSound total hop (d ∷ ds) s l u h =
    record_ledger-IsSound total (suc hop) ds (record_metrics hop d.metrics s) (omega arith)
      (omega arith) (record_metrics-IsSound total hop d.metrics s l (omega arith) h)

check_hops_lem :
    (total : ℕ) (hops : List (ℕ × Decimal)) → AreGoodHops total hops → check_hops total hops ≡ ok tt
check_hops_lem total [] h = refl
check_hops_lem total ((hop, x) ∷ hops) h = ground (arith, check_hops_lem total hops)

pub check_by_metric_lem :
    (total : ℕ) (d : Dict Text (List (ℕ × Decimal)))
    → All (λ p. AreGoodHops total p.1) d
    → check_by_metric total d ≡ ok tt
check_by_metric_lem total [] h = refl
check_by_metric_lem total ((code, hops) ∷ d) h =
    rw (check_hops_lem total hops h.0) (check_by_metric_lem total d h.1)

has_extra-none :
    (by_metric : Dict Text (List (ℕ × Decimal))) (codes : List Text)
    → ((c : Text) → In c codes → ¬ (lookup c by_metric ≡ none))
    → has_extra by_metric codes ≡ false
has_extra-none by_metric [] h = refl
has_extra-none by_metric (c ∷ codes) h = elim (Option-cases (lookup c by_metric)) [
  | inl e ↦ absurd (h c (inl refl) e)
  | inr (v, e) ↦ let rest = has_extra-none by_metric codes (λ k i. h k (inr i)) in ground arith
]

not_seen : (xs : List (ℕ × Decimal)) → listed xs ≡ none → xs ≡ []
not_seen [] e = refl
not_seen (x ∷ xs) e = cc

module _ (s : Series) (seen : Text → List (ℕ × Decimal)) (t : Tracks s seen) where
  pub counts_known : has_extra s.by_metric (keys s.restatement_frequency) ≡ false
  counts_known = has_extra-none s.by_metric (keys s.restatement_frequency) (λ c i e.
      let (v, q) = In-keys-lookup c s.restatement_frequency i in
      let empty = not_seen (seen c) (sym (t.lists c) ∙ e) in
      let nothing : lookup c s.restatement_frequency ≡ none =
        t.counts c ∙ ap (λ xs. counted (count_changes xs)) empty in
      cc)

  pub maxima_known : has_extra s.by_metric (keys s.per_metric_max_delta) ≡ false
  maxima_known = has_extra-none s.by_metric (keys s.per_metric_max_delta) (λ c i e.
      let (v, q) = In-keys-lookup c s.per_metric_max_delta i in
      let empty = not_seen (seen c) (sym (t.lists c) ∙ e) in
      let nothing : lookup c s.per_metric_max_delta ≡ none =
        t.maxima c ∙ ap (greatest_from none) empty in
      cc)
