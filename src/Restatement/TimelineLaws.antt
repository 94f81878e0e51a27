-- ===== src/Restatement/TimelineLaws.antt =====
-- The three series of a timeline against the observations of each metric.
use arche_api.Base.{
  ℕ, zero, suc, ◌+◌, ◌≡◌, refl, sym, ap, ◌∙◌, inl, inr, Bool, true, false, not, Option, none, some,
  List, [], ◌∷◌, ◌++◌, if◌then◌else◌, arith, ◌==◌, Bool-cases, append-nil, append_assoc,
}
use arche_api.Base.Text.{Text, text_beq, text_beq_iff, text_eq}
use arche_api.Base.Dict.{Dict, lookup, insert, lookup-insert}
use arche_api.Decimal.{Decimal, is_zero, copy_abs}
use arche_api.Entities.{CanonicalStatementMetric, metric_value}
use arche_api.Restatement.Delta.{RestatementMetricDelta, RestatementDelta}
use arche_api.Restatement.Timeline.{
  Series, empty_series, or_nil, or_zero, exceeds, record_diff, record_metric, record_metrics,
  record_ledger,
}

-- The hops and absolute differences that a ledger has for a metric code, read off in order.
abbrev pub observed : Text → ℕ → CanonicalStatementMetric → Option Decimal → List (ℕ × Decimal)
observed c hop m none = []
observed c hop m (some diff) = if c == metric_value m then (hop, copy_abs diff) ∷ [] else []

abbrev pub observed_in_hop :
    Text → ℕ → Dict CanonicalStatementMetric RestatementMetricDelta → List (ℕ × Decimal)
observed_in_hop c hop [] = []
observed_in_hop c hop ((m, d) ∷ rest) = observed c hop m d.diff ++ observed_in_hop c hop rest

abbrev pub observations : Text → ℕ → List RestatementDelta → List (ℕ × Decimal)
observations c hop [] = []
observations c hop (d ∷ ds) = observed_in_hop c hop d.metrics ++ observations c (suc hop) ds

-- What the series should hold for the observations of one code.
abbrev pub listed : List (ℕ × Decimal) → Option (List (ℕ × Decimal))
listed [] = none
listed (x ∷ xs) = some (x ∷ xs)

abbrev pub count_changes : List (ℕ × Decimal) → ℕ
count_changes [] = 0
count_changes ((h, x) ∷ xs) = if is_zero x then count_changes xs else suc (count_changes xs)

abbrev pub counted : ℕ → Option ℕ
counted zero = none
counted (suc n) = some (suc n)

abbrev pub greatest_from : Option Decimal → List (ℕ × Decimal) → Option Decimal
greatest_from o [] = o
greatest_from o ((h, x) ∷ xs) = greatest_from (if exceeds x o then some x else o) xs

pub record Tracks (s : Series) (seen : Text → List (ℕ × Decimal)) : Type 0 where
  pub lists : (c : Text) → lookup c s.by_metric ≡ listed (seen c)
  pub counts : (c : Text) → lookup c s.restatement_frequency ≡ counted (count_changes (seen c))
  pub maxima : (c : Text) → lookup c s.per_metric_max_delta ≡ greatest_from none (seen c)

listed-snoc :
    (xs : List (ℕ × Decimal)) (x : ℕ × Decimal)
    → some (or_nil (listed xs) ++ (x ∷ [])) ≡ listed (xs ++ (x ∷ []))
listed-snoc [] x = refl
listed-snoc (y ∷ xs) x = refl

count_changes-snoc :
    (xs : List (ℕ × Decimal)) (h : ℕ) (x : Decimal)
    → count_changes (xs ++ ((h, x) ∷ []))
      ≡ (if is_zero x then count_changes xs else suc (count_changes xs))
count_changes-snoc [] h x = refl
count_changes-snoc ((k, y) ∷ xs) h x = ground (arith, count_changes-snoc xs h x)

counted-succ : (n : ℕ) → some (or_zero (counted n) + 1) ≡ counted (suc n)
counted-succ zero = refl
counted-succ (suc n) = ap some (omega arith)

greatest-snoc :
    (o : Option Decimal) (xs : List (ℕ × Decimal)) (h : ℕ) (x : Decimal)
    → greatest_from o (xs ++ ((h, x) ∷ []))
      ≡ (if exceeds x (greatest_from o xs) then some x else greatest_from o xs)
greatest-snoc o [] h x = refl
greatest-snoc o ((k, y) ∷ xs) h x = greatest-snoc (if exceeds y o then some y else o) xs h x

-- One more observation of one code.
abbrev pub see : (Text → List (ℕ × Decimal)) → Text → ℕ × Decimal → Text → List (ℕ × Decimal)
see seen code x c = if c == code then seen c ++ (x ∷ []) else seen c

-- A series that is written at the code, and one that is left alone.
module _ {V : Type 0} (F : List (ℕ × Decimal) → Option V) (seen : Text → List (ℕ × Decimal))
    (code : Text) (x : ℕ × Decimal) (d : Dict Text V)
    (tracks : (c : Text) → lookup c d ≡ F (seen c)) where
  written :
      (v : V)
      → some v ≡ F (seen code ++ (x ∷ []))
      → (c : Text) → lookup c (insert code v d) ≡ F (see seen code x c)
  written v e c = elim (Bool-cases (text_beq c code)) [
    | inl q ↦ rw (lookup-insert c code v d, q, (text_beq_iff c code).0 q) e
    | inr q ↦ rw (lookup-insert c code v d, q) (tracks c)
  ]

  left_alone :
      F (seen code) ≡ F (seen code ++ (x ∷ [])) → (c : Text) → lookup c d ≡ F (see seen code x c)
  left_alone e c = elim (Bool-cases (text_beq c code)) [
    | inl q ↦ rw (q, (text_beq_iff c code).0 q) (tracks code ∙ e)
    | inr q ↦ rw q (tracks c)
  ]

record_diff-Tracks :
    (hop : ℕ) (code : Text) (x : Decimal) (s : Series) (seen : Text → List (ℕ × Decimal))
    → Tracks s seen
    → Tracks (record_diff hop code x s) (see seen code (hop, x))
unfolding record_diff
record_diff-Tracks hop code x s seen t = record {
  lists =
      written listed seen code (hop, x) s.by_metric t.lists
        (or_nil (lookup code s.by_metric) ++ ((hop, x) ∷ []))
        (rw (t.lists code) (listed-snoc (seen code) (hop, x)));
  counts = add_count (is_zero x) refl;
  maxima = add_maximum (exceeds x (greatest_from none (seen code))) refl;
}
  where
    add_count :
        (b : Bool)
        → is_zero x ≡ b
        → (c : Text)
        → lookup c (
            if not b
            then insert code
                (or_zero (lookup code s.restatement_frequency) + 1)
                s.restatement_frequency
            else s.restatement_frequency)
          ≡ counted (count_changes (see seen code (hop, x) c))
    add_count true z =
        left_alone (λ xs. counted (count_changes xs)) seen code (hop, x) s.restatement_frequency
          t.counts (rw (count_changes-snoc (seen code) hop x, z) refl)
    add_count false z =
        written (λ xs. counted (count_changes xs)) seen code (hop, x) s.restatement_frequency
          t.counts (or_zero (lookup code s.restatement_frequency) + 1)
          (rw (t.counts code, count_changes-snoc (seen code) hop x, z)
            (counted-succ (count_changes (seen code))))

    add_maximum :
        (b : Bool)
        → exceeds x (greatest_from none (seen code)) ≡ b
        → (c : Text)
        → lookup c (
            if exceeds x (lookup code s.per_metric_max_delta)
            then insert code x s.per_metric_max_delta
            else s.per_metric_max_delta)
          ≡ greatest_from none (see seen code (hop, x) c)
    add_maximum true z =
        rw (t.maxima code, z)
          (written (greatest_from none) seen code (hop, x) s.per_metric_max_delta t.maxima x
            (rw (greatest-snoc none (seen code) hop x, z) refl))
    add_maximum false z =
        rw (t.maxima code, z)
          (left_alone (greatest_from none) seen code (hop, x) s.per_metric_max_delta t.maxima
            (rw (greatest-snoc none (seen code) hop x, z) refl))

Tracks-congr :
    (s : Series) (seen seen' : Text → List (ℕ × Decimal))
    → ((c : Text) → seen c ≡ seen' c)
    → Tracks s seen
    → Tracks s seen'
Tracks-congr s seen seen' e t = record {
  lists = λ c. rw (← e c) (t.lists c);
  counts = λ c. rw (← e c) (t.counts c);
  maxima = λ c. rw (← e c) (t.maxima c);
}

record_metric-Tracks :
    (hop : ℕ) (m : CanonicalStatementMetric) (o : Option Decimal) (s : Series)
    (seen : Text → List (ℕ × Decimal))
    → Tracks s seen
    → Tracks (record_metric hop m o s) (λ c. seen c ++ observed c hop m o)
record_metric-Tracks hop m none s seen t =
    Tracks-congr s seen (λ c. seen c ++ []) (λ c. sym (append-nil (seen c))) t
record_metric-Tracks hop m (some diff) s seen t =
    Tracks-congr (record_diff hop (metric_value m) (copy_abs diff) s)
      (see seen (metric_value m) (hop, copy_abs diff)) (λ c. seen c ++ observed c hop m (some diff))
      (λ c. see_lem (c == metric_value m) (seen c) (hop, copy_abs diff))
      (record_diff-Tracks hop (metric_value m) (copy_abs diff) s seen t)
  where
    see_lem :
        (b : Bool) (xs : List (ℕ × Decimal)) (x : ℕ × Decimal)
        → (if b then xs ++ (x ∷ []) else xs) ≡ xs ++ (if b then x ∷ [] else [])
    see_lem true xs x = refl
    see_lem false xs x = sym (append-nil xs)

record_metrics-Tracks :
    (hop : ℕ) (metrics : Dict CanonicalStatementMetric RestatementMetricDelta) (s : Series)
    (seen : Text → List (ℕ × Decimal))
    → Tracks s seen
    → Tracks (record_metrics hop metrics s) (λ c. seen c ++ observed_in_hop c hop metrics)
record_metrics-Tracks hop [] s seen t =
    Tracks-congr s seen (λ c. seen c ++ []) (λ c. sym (append-nil (seen c))) t
record_metrics-Tracks hop ((m, d) ∷ rest) s seen t =
    Tracks-congr (record_metrics hop rest (record_metric hop m d.diff s))
      (λ c. (seen c ++ observed c hop m d.diff) ++ observed_in_hop c hop rest)
      (λ c. seen c ++ observed_in_hop c hop ((m, d) ∷ rest))
      (λ c. append_assoc (seen c) (observed c hop m d.diff) (observed_in_hop c hop rest))
      (record_metrics-Tracks hop rest (record_metric hop m d.diff s)
        (λ c. seen c ++ observed c hop m d.diff) (record_metric-Tracks hop m d.diff s seen t))

record_ledger-Tracks :
    (hop : ℕ) (ds : List RestatementDelta) (s : Series) (seen : Text → List (ℕ × Decimal))
    → Tracks s seen
    → Tracks (record_ledger hop ds s) (λ c. seen c ++ observations c hop ds)
record_ledger-Tracks hop [] s seen t =
    Tracks-congr s seen (λ c. seen c ++ []) (λ c. sym (append-nil (seen c))) t
record_ledger-Tracks hop (d ∷ ds) s seen t =
    Tracks-congr (record_ledger (suc hop) ds (record_metrics hop d.metrics s))
      (λ c. (seen c ++ observed_in_hop c hop d.metrics) ++ observations c (suc hop) ds)
      (λ c. seen c ++ observations c hop (d ∷ ds))
      (λ c. append_assoc (seen c) (observed_in_hop c hop d.metrics) (observations c (suc hop) ds))
      (record_ledger-Tracks (suc hop) ds (record_metrics hop d.metrics s)
        (λ c. seen c ++ observed_in_hop c hop d.metrics)
        (record_metrics-Tracks hop d.metrics s seen t))

-- The series of a whole ledger hold the observations of each code.
pub series-Tracks :
    (ds : List RestatementDelta)
    → Tracks (record_ledger 1 ds empty_series) (λ c. observations c 1 ds)
series-Tracks ds =
    record_ledger-Tracks 1 ds empty_series (λ c. [])
      (record { lists = λ c. refl; counts = λ c. refl; maxima = λ c. refl })
