-- ===== src/Restatement/TimelineSeverity.antt =====
-- A timeline is built for every ledger, and its severity is that of the greatest difference.
use arche_api.Base.{
  ℕ, ◌≡◌, refl, sym, ap, subst, ◌∙◌, ◌⊎◌, inl, inr, true, false, Option, none, some, List, [], ◌∷◌,
  length, All, In, arith, Bool-cases, Option-cases, All-In, All-map,
}
use mathlib.Core.Option.{some-injective}
use arche_api.Base.Text.{Text, text_eq}
use arche_api.Base.Dict.{lookup, values, IsDistinct, lookup-In-values, In-values-lookup}
use arche_api.Base.Results.{ok}
use arche_api.Decimal.{
  Decimal, decimal_zero, decimal_leb, decimal_ltb, decimal_leb_total, decimal_leb_trans,
  decimal_leb_refl, decimal_ltb-eq-not-leb,
}
use arche_api.Restatement.Delta.{RestatementDelta}
use arche_api.Restatement.Timeline.{
  RestatementMetricTimeline, check_timeline, classify_timeline, Series, empty_series, record_ledger,
  larger, max_from, max_value, build_restatement_metric_timeline,
}
use arche_api.Restatement.TimelineLaws.{
  observations, listed, counted, count_changes, greatest_from, Tracks, series-Tracks,
}
use arche_api.Restatement.TimelineSound.{
  record_ledger-IsSound, counts_known, maxima_known, check_by_metric_lem,
}

leb_of_ltb : (a b : Decimal) → decimal_ltb a b ≡ true → decimal_leb a b ≡ true
leb_of_ltb a b h = ground (arith, decimal_ltb-eq-not-leb a b, decimal_leb_total a b)

leb_of_not_ltb : (a b : Decimal) → decimal_ltb a b ≡ false → decimal_leb b a ≡ true
leb_of_not_ltb a b h = ground (arith, decimal_ltb-eq-not-leb a b)

abbrev AtMost : Option Decimal → Decimal → Type 0
AtMost none w = Unit
AtMost (some y) w = decimal_leb y w ≡ true

-- The greatest of a code's differences bounds them all.
greatest-bound :
    (o : Option Decimal) (xs : List (ℕ × Decimal)) (w : Decimal)
    → greatest_from o xs ≡ some w
    → AtMost o w × All (λ p. decimal_leb p.1 w ≡ true) xs
greatest-bound none [] w e = cc
greatest-bound (some y) [] w e = (rw (some-injective _ _ e) (decimal_leb_refl w), tt)
greatest-bound none ((h, x) ∷ xs) w e = (tt, greatest-bound (some x) xs w e)
greatest-bound (some y) ((h, x) ∷ xs) w e = elim (Bool-cases (decimal_ltb y x)) [
  | inl q ↦
      let (above, rest) = greatest-bound (some x) xs w (rw q at e) in
      (decimal_leb_trans y x w (leb_of_ltb y x q) above, (above, rest))
  | inr q ↦
      let (above, rest) = greatest-bound (some y) xs w (rw q at e) in
      (above, (decimal_leb_trans x y w (leb_of_not_ltb y x q) above, rest))
]

greatest-exists :
    (y : Decimal) (xs : List (ℕ × Decimal)) → (w : Decimal) × (greatest_from (some y) xs ≡ some w)
greatest-exists y [] = (y, refl)
greatest-exists y ((h, x) ∷ xs) = elim (Bool-cases (decimal_ltb y x)) [
  | inl q ↦ rw q (greatest-exists x xs)
  | inr q ↦ rw q (greatest-exists y xs)
]

greatest-In :
    (o : Option Decimal) (xs : List (ℕ × Decimal)) (w : Decimal)
    → greatest_from o xs ≡ some w
    → (o ≡ some w) ⊎ ((h : ℕ) × In (h, w) xs)
greatest-In o [] w e = inl e
greatest-In none ((h, x) ∷ xs) w e = elim (greatest-In (some x) xs w e) [
  | inl q ↦ inr (h, inl (ap (λ v. (h, v)) (sym (some-injective _ _ q))))
  | inr (k, i) ↦ inr (k, inr i)
]
greatest-In (some y) ((h, x) ∷ xs) w e = elim (Bool-cases (decimal_ltb y x)) [
  | inl q ↦ elim (greatest-In (some x) xs w (rw q at e)) [
    | inl r ↦ inr (h, inl (ap (λ v. (h, v)) (sym (some-injective _ _ r))))
    | inr (k, i) ↦ inr (k, inr i)
  ]
  | inr q ↦ elim (greatest-In (some y) xs w (rw q at e)) [
    | inl r ↦ inl r
    | inr (k, i) ↦ inr (k, inr i)
  ]
]

larger-bound :
    (c x : Decimal) → (decimal_leb c (larger c x) ≡ true) × (decimal_leb x (larger c x) ≡ true)
larger-bound c x = elim (Bool-cases (decimal_ltb c x)) [
  | inl q ↦ rw q (leb_of_ltb c x q, decimal_leb_refl x)
  | inr q ↦ rw q (decimal_leb_refl c, leb_of_not_ltb c x q)
]

larger-cases : (c x : Decimal) → (larger c x ≡ c) ⊎ (larger c x ≡ x)
larger-cases c x = elim (Bool-cases (decimal_ltb c x)) [
  | inl q ↦ inr (rw q refl)
  | inr q ↦ inl (rw q refl)
]

max_from-bound :
    (c : Decimal) (xs : List Decimal)
    → (decimal_leb c (max_from c xs) ≡ true) × All (λ x. decimal_leb x (max_from c xs) ≡ true) xs
max_from-bound c [] = (decimal_leb_refl c, tt)
max_from-bound c (x ∷ xs) =
    let (of_c, of_x) = larger-bound c x in
    let (above, rest) = max_from-bound (larger c x) xs in
    (
      decimal_leb_trans c (larger c x) _ of_c above,
      (decimal_leb_trans x (larger c x) _ of_x above, rest),
    )

max_from-In : (c : Decimal) (xs : List Decimal) → In (max_from c xs) (c ∷ xs)
max_from-In c [] = inl refl
max_from-In c (x ∷ xs) = elim (max_from-In (larger c x) xs) [
  | inl q ↦ elim (larger-cases c x) [ inl r ↦ inl (q ∙ r) | inr r ↦ inr (inl (q ∙ r)) ]
  | inr i ↦ inr (inr i)
]

-- `g` bounds the absolute differences of every code, and it is one of them; without any it is 0.
pub record IsGreatest (ds : List RestatementDelta) (g : Decimal) : Type 0 where
  pub bound : (c : Text) → All (λ p. decimal_leb p.1 g ≡ true) (observations c 1 ds)
  pub attained :
      ((g ≡ decimal_zero) × ((c : Text) → observations c 1 ds ≡ []))
      ⊎ ((c : Text) × (h : ℕ) × In (h, g) (observations c 1 ds))

max_value-bound : (xs : List Decimal) → All (λ x. decimal_leb x (max_value xs) ≡ true) xs
max_value-bound [] = tt
max_value-bound (x ∷ xs) = max_from-bound x xs

max_value-In : (xs : List Decimal) → (xs ≡ []) ⊎ In (max_value xs) xs
max_value-In [] = inl refl
max_value-In (x ∷ xs) = inr (max_from-In x xs)

no_maximum : (xs : List (ℕ × Decimal)) → greatest_from none xs ≡ none → xs ≡ []
no_maximum [] e = refl
no_maximum ((h, x) ∷ xs) e = let (w, q) = greatest-exists x xs in cc

module _ (ds : List RestatementDelta) (s : Series) (t : Tracks s (λ c. observations c 1 ds))
    (distinct : IsDistinct s.per_metric_max_delta) where
  bound_of :
      (c : Text) (xs : List (ℕ × Decimal))
      → greatest_from none xs ≡ lookup c s.per_metric_max_delta
      → All (λ p. decimal_leb p.1 (max_value (values s.per_metric_max_delta)) ≡ true) xs
  bound_of c [] e = tt
  bound_of c ((h, x) ∷ xs) e =
      let (w, q) = greatest-exists x xs in
      let above =
        All-In (λ y. decimal_leb y (max_value (values s.per_metric_max_delta)) ≡ true) w
          (values s.per_metric_max_delta) (lookup-In-values c w s.per_metric_max_delta (sym e ∙ q))
          (max_value-bound (values s.per_metric_max_delta)) in
      All-map ((h, x) ∷ xs) (λ p k. decimal_leb_trans p.1 w _ k above)
        (greatest-bound none ((h, x) ∷ xs) w q).1

  no_lookup :
      (c : Text) {o : Option Decimal}
      → o ≡ lookup c s.per_metric_max_delta
      → values s.per_metric_max_delta ≡ []
      → o ≡ none
  no_lookup c {o} q e = elim (Option-cases (lookup c s.per_metric_max_delta)) [
    | inl n ↦ q ∙ n
    | inr (w, r) ↦ absurd (subst (In w) e (lookup-In-values c w s.per_metric_max_delta r))
  ]

  max_value-IsGreatest : IsGreatest ds (max_value (values s.per_metric_max_delta))
  max_value-IsGreatest = record {
    bound = λ c. bound_of c (observations c 1 ds) (sym (t.maxima c));
    attained = elim (max_value-In (values s.per_metric_max_delta)) [
      | inl e ↦
          inl (
            ap max_value e,
            λ c. no_maximum (observations c 1 ds) (no_lookup c (sym (t.maxima c)) e),
          )
      | inr i ↦
          let (c, q) =
            In-values-lookup (max_value (values s.per_metric_max_delta)) s.per_metric_max_delta
              distinct i in
          elim (greatest-In none (observations c 1 ds) _ (sym (t.maxima c) ∙ q)) [
            | inl r ↦ absurd cc
            | inr (h, j) ↦ inr (c, h, j)
          ]
    ];
  }

-- What a timeline says of its ledger.
pub record IsTimelineOf (ds : List RestatementDelta) (t : RestatementMetricTimeline) : Type 0 where
  pub hops : t.total_hops ≡ length ds
  pub lists : (c : Text) → lookup c t.by_metric ≡ listed (observations c 1 ds)
  pub counts :
      (c : Text) → lookup c t.restatement_frequency ≡ counted (count_changes (observations c 1 ds))
  pub maxima :
      (c : Text) → lookup c t.per_metric_max_delta ≡ greatest_from none (observations c 1 ds)
  pub severity : (g : Decimal) × IsGreatest ds g × (t.timeline_severity ≡ classify_timeline g)

-- Every ledger that is not empty has a timeline: its constructor's checks pass. It counts all hops,
-- and for each metric code it has the hops and absolute differences in their order, how many of them
-- are not zero, and their greatest; its severity is that of the greatest difference of all.
pub build_timeline_total :
    (d : RestatementDelta) (ds : List RestatementDelta)
    → (t : RestatementMetricTimeline) × (build_restatement_metric_timeline (d ∷ ds) ≡ ok t)
      × IsTimelineOf (d ∷ ds) t
build_timeline_total d ds =
    let s = record_ledger 1 (d ∷ ds) empty_series in
    let t = series-Tracks (d ∷ ds) in
    let sound =
      record_ledger-IsSound (length (d ∷ ds)) 1 (d ∷ ds) empty_series (omega arith) (omega arith)
        (record { good_hops = tt; distinct = tt }) in
    (
      record {
        cik = d.cik;
        statement_type = d.statement_type;
        fiscal_year = d.fiscal_year;
        fiscal_period = d.fiscal_period;
        by_metric = s.by_metric;
        total_hops = length (d ∷ ds);
        restatement_frequency = s.restatement_frequency;
        per_metric_max_delta = s.per_metric_max_delta;
        timeline_severity = classify_timeline (max_value (values s.per_metric_max_delta));
      },
      unfold build_restatement_metric_timeline check_timeline in
          rw
            (
              check_by_metric_lem (length (d ∷ ds)) s.by_metric sound.good_hops,
              counts_known s (λ c. observations c 1 (d ∷ ds)) t,
              maxima_known s (λ c. observations c 1 (d ∷ ds)) t,
            )
            (ground arith),
      record {
        hops = refl;
        lists = t.lists;
        counts = t.counts;
        maxima = t.maxima;
        severity = (
          max_value (values s.per_metric_max_delta),
          max_value-IsGreatest (d ∷ ds) s t sound.distinct,
          refl,
        );
      },
    )
