-- ===== src/Reconciliation/CalendarLaws.antt =====
-- The periods, the alignment of statements across types, and the classification of a calendar.
use arche_api.Base.{
  ℕ, zero, suc, ◌-◌, ◌≤◌, ◌<◌, ◌≡◌, refl, sym, ap, ◌∙◌, inl, inr, ◌↔◌, Bool, true, false, ◌&&◌,
  ◌||◌, Option, none, some, List, [], ◌∷◌, if◌then◌else◌, All, Bool-cases, arith, head?, get_last?,
  get_elem?, ◌/◌, filter, eqb, ltb, leb, length,
}
use mathlib.Core.Option.{some-injective}
use arche_api.Base.Int.{ℤ, pos, negsuc, ◌≤ℤ◌}
use arche_api.Base.Dict.{lookup, insert, values, lookup-insert, insert-All}
use arche_api.Base.Sort.{sort, sort-All}
use arche_api.Base.Results.{ok}
use arche_api.Entities.{
  StatementType, statement_type_beq, statement_type_eq, FiscalPeriod, fy, q1, q2, q3, q4, h1,
  other_period, CanonicalStatementPayload, Date, date, days_between,
}
use arche_api.Reconciliation.Calendar.{
  StatementPeriod, first_of, period_start_of, period_of, infer_statement_period, BucketKey,
  bucket_key_beq, bucket_key_eq, bucket_key_beq_iff, Bucket, Alignment, key_of, or_empty, align_one,
  align_from, align_statements_across_types, add_gap, positive_gaps, is_spread, classification_of,
  classify_fiscal_calendar, FiscalCalendarClassification, infer_fye_month, period_leb,
}

-- Every bucket has a first period.
abbrev pub AreFilled : Alignment → Type 0
AreFilled = All (λ e. (p : StatementPeriod) × (head? (values e.1) ≡ some p))

insert-filled :
    (t : StatementType) (p : StatementPeriod) (b : Bucket)
    → (q : StatementPeriod) × (head? (values (insert t p b)) ≡ some q)
insert-filled t p [] = (p, refl)
insert-filled t p ((s, q) ∷ b) = elim (Bool-cases (statement_type_beq t s)) [
  | inl e ↦ (p, rw e refl)
  | inr e ↦ (q, rw e refl)
]

align_from-AreFilled :
    (ps : List StatementPeriod) (a : Alignment) → AreFilled a → AreFilled (align_from ps a)
align_from-AreFilled [] a h = h
align_from-AreFilled (p ∷ ps) a h = align_from-AreFilled ps (align_one p a) (
    insert-All (λ b. (q : StatementPeriod) × (head? (values b) ≡ some q)) (key_of p) _ a
      (insert-filled p.statement_type p (or_empty (lookup (key_of p) a))) h)

pub align-AreFilled : (ps : List StatementPeriod) → AreFilled (align_statements_across_types ps)
unfolding align_statements_across_types
align-AreFilled ps = align_from-AreFilled ps [] tt

-- The period of the bucket and the statement type, if the alignment has one.
abbrev pub aligned : BucketKey → StatementType → Alignment → Option StatementPeriod
aligned k t a = lookup t (or_empty (lookup k a))

abbrev pub is_at : BucketKey → StatementType → StatementPeriod → Bool
is_at k t p = bucket_key_beq k (key_of p) && statement_type_beq t p.statement_type

abbrev or_else : Option StatementPeriod → Option StatementPeriod → Option StatementPeriod
or_else none o = o
or_else (some p) o = some p

aligned-align_one :
    (k : BucketKey) (t : StatementType) (p : StatementPeriod) (a : Alignment)
    → aligned k t (align_one p a) ≡ (if is_at k t p then some p else aligned k t a)
aligned-align_one k t p a =
    let bucket = insert p.statement_type p (or_empty (lookup (key_of p) a)) in
    elim (Bool-cases (bucket_key_beq k (key_of p))) [
      | inl e ↦
          let same = (bucket_key_beq_iff k (key_of p)).0 e in
          rw
            (
              lookup-insert k (key_of p) bucket a,
              e,
              lookup-insert t p.statement_type p (or_empty (lookup (key_of p) a)),
              same,
            )
            refl
      | inr e ↦ rw (lookup-insert k (key_of p) bucket a, e) refl
    ]

get_last?-some : {A : Type 0} (q : A) (qs : List A) → (r : A) × (get_last? (q ∷ qs) ≡ some r)
get_last?-some q [] = (q, refl)
get_last?-some q (r ∷ qs) = get_last?-some r qs

-- The last of the list, after what was there before.
last_after :
    (k : BucketKey) (t : StatementType) (p : StatementPeriod) (ps : List StatementPeriod)
    (o : Option StatementPeriod)
    → or_else (get_last? (filter (is_at k t) ps)) (if is_at k t p then some p else o)
      ≡ or_else (get_last? (filter (is_at k t) (p ∷ ps))) o
last_after k t p ps o = elim (Bool-cases (is_at k t p)) [
  | inl e ↦ rw e (last_cons (filter (is_at k t) ps))
  | inr e ↦ rw e refl
]
  where
    last_cons :
        (qs : List StatementPeriod)
        → or_else (get_last? qs) (some p) ≡ or_else (get_last? (p ∷ qs)) o
    last_cons [] = refl
    last_cons (q ∷ qs) = let (r, e) = get_last?-some q qs in rw e refl

aligned-align_from :
    (k : BucketKey) (t : StatementType) (ps : List StatementPeriod) (a : Alignment)
    → aligned k t (align_from ps a) ≡ or_else (get_last? (filter (is_at k t) ps)) (aligned k t a)
aligned-align_from k t [] a = refl
aligned-align_from k t (p ∷ ps) a =
    aligned-align_from k t ps (align_one p a)
    ∙ ap (or_else (get_last? (filter (is_at k t) ps))) (aligned-align_one k t p a)
    ∙ last_after k t p ps (aligned k t a)

-- Of several statements of one company, fiscal year, fiscal period and type, the alignment keeps the
-- last that was given, and it has no other.
pub align-last :
    (k : BucketKey) (t : StatementType) (ps : List StatementPeriod)
    → aligned k t (align_statements_across_types ps) ≡ get_last? (filter (is_at k t) ps)
unfolding align_statements_across_types
align-last k t ps = aligned-align_from k t ps [] ∙ or_else_none (get_last? (filter (is_at k t) ps))
  where
    or_else_none : (o : Option StatementPeriod) → or_else o none ≡ o
    or_else_none none = refl
    or_else_none (some p) = refl

-- The fiscal year is one that `datetime.date` takes.
abbrev pub IsYear : ℤ → Type 0
IsYear y = (pos 1 ≤ℤ y) × (y ≤ℤ pos 9999)

first_of-ok : (y : ℤ) (m : ℕ) → IsYear y → (d : Option Date) × (first_of y m ≡ ok d)
first_of-ok (pos y) m h = (some (date y m 1), ground arith)
first_of-ok (negsuc n) m h = absurd (ground (arith, h))

period_start_of-ok :
    (fp : FiscalPeriod) (y : ℤ) → IsYear y → (d : Option Date) × (period_start_of fp y ≡ ok d)
period_start_of-ok fy y h = first_of-ok y 1 h
period_start_of-ok q1 y h = first_of-ok y 1 h
period_start_of-ok q2 y h = first_of-ok y 4 h
period_start_of-ok q3 y h = first_of-ok y 7 h
period_start_of-ok q4 y h = first_of-ok y 10 h
period_start_of-ok h1 y h = (none, refl)
period_start_of-ok other_period y h = (none, refl)

-- A payload of such a year has a period.
pub infer_statement_period-ok :
    (p : CanonicalStatementPayload)
    → IsYear p.fiscal_year
    → (d : Option Date) × (infer_statement_period p ≡ ok (period_of p d))
unfolding infer_statement_period
infer_statement_period-ok p h =
    let (d, e) = period_start_of-ok p.fiscal_period p.fiscal_year h in (d, rw e refl)

add_gap-positive :
    (z : ℤ) (gaps : List ℕ) → All (λ n. 1 ≤ n) gaps → All (λ n. 1 ≤ n) (add_gap z gaps)
add_gap-positive (pos zero) gaps h = h
add_gap-positive (pos (suc n)) gaps h = (omega arith, h)
add_gap-positive (negsuc n) gaps h = h

positive_gaps-cons :
    (p q : StatementPeriod) (ps : List StatementPeriod)
    → positive_gaps (p ∷ q ∷ ps)
      ≡ add_gap (days_between q.statement_date p.statement_date) (positive_gaps (q ∷ ps))
unfolding positive_gaps
positive_gaps-cons p q ps = refl

positive_gaps-positive : (ps : List StatementPeriod) → All (λ n. 1 ≤ n) (positive_gaps ps)
positive_gaps-positive [] = unfold positive_gaps in tt
positive_gaps-positive (p ∷ []) = unfold positive_gaps in tt
positive_gaps-positive (p ∷ q ∷ ps) = rw (positive_gaps-cons p q ps) (
    add_gap-positive (days_between q.statement_date p.statement_date) (positive_gaps (q ∷ ps))
      (positive_gaps-positive (q ∷ ps)))

-- The longest gap is more than 40 days longer than the shortest.
abbrev pub IsSpread : List ℕ → Type 0
IsSpread gaps =
    (least most : ℕ) × (head? gaps ≡ some least)
    × (get_last? gaps ≡ some most)
    × (40 < most - least)

module _ (d : ℕ) (ds : List ℕ) (last : ℕ) (e : get_last? (d ∷ ds) ≡ some last) where
  exceeded : 1 ≤ d → is_spread (d ∷ ds) ≡ true → 40 < last - d
  exceeded h t = let t' : (eqb d 0 || ltb 40 (last - d)) ≡ true = rw e at t in ground arith

  exceeding : 40 < last - d → is_spread (d ∷ ds) ≡ true
  exceeding far = rw e (ground arith)

IsSpread-iff : (gaps : List ℕ) → All (λ n. 1 ≤ n) gaps → (is_spread gaps ≡ true) ↔ IsSpread gaps
IsSpread-iff [] h = ((λ e. cc), (λ (l, m, p, q, f). cc))
IsSpread-iff (d ∷ ds) h =
    let (last, e) = get_last?-some d ds in
    (
      λ t. (d, last, refl, e, exceeded d ds last e h.0 t),
      λ (least, most, p, q, far).
          let first : d ≡ least = some-injective _ _ p in
          let end : last ≡ most = some-injective _ _ (sym e ∙ q) in
          exceeding d ds last e (omega arith),
    )

-- One gap is not longer than itself.
few-not-IsSpread : (gaps : List ℕ) → length gaps ≤ 1 → ¬ IsSpread gaps
few-not-IsSpread [] few (least, most, p, q, far) = cc p
few-not-IsSpread (g ∷ []) few (least, most, p, q, far) =
    let first : g ≡ least = some-injective _ _ p in
    let end : g ≡ most = some-injective _ _ q in absurd (omega arith)
few-not-IsSpread (g ∷ h ∷ gaps) few spread = absurd (omega arith)

-- Of the two tests for an irregular calendar the first never holds: what is left is that the longest
-- gap between two statements is more than 40 days longer than the shortest. So a single gap, however
-- large, is regular, and the months in which the fiscal years end play no part.
pub classify-irregular_iff :
    (first_month : List ℕ → Option ℕ) (ps : List StatementPeriod) (c : FiscalCalendarClassification)
    → classify_fiscal_calendar first_month ps ≡ some c
    → ((c.is_irregular ≡ true) ↔ IsSpread (sort leb (positive_gaps (sort period_leb ps))))
      × (length (sort leb (positive_gaps (sort period_leb ps))) ≤ 1 → c.is_irregular ≡ false)
unfolding classify_fiscal_calendar
classify-irregular_iff first_month ps c e =
    let gaps = sort leb (positive_gaps (sort period_leb ps)) in
    let same : c.is_irregular ≡ is_spread gaps =
      irregular_of gaps (get_elem? gaps (length gaps / 2))
        (infer_fye_month first_month (sort period_leb ps)) e in
    let spread = IsSpread-iff gaps (
      sort-All leb (λ n. 1 ≤ n) (positive_gaps (sort period_leb ps))
        (positive_gaps-positive (sort period_leb ps))) in
    rw same (
      spread,
      λ few. elim (Bool-cases (is_spread gaps)) [
        | inl t ↦ absurd (few-not-IsSpread gaps few (spread.0 t))
        | inr f ↦ f
      ],
    )
  where
    irregular_of :
        (gaps : List ℕ) (median month : Option ℕ)
        → classification_of gaps median month ≡ some c
        → c.is_irregular ≡ is_spread gaps
    irregular_of gaps median none q = cc
    irregular_of gaps median (some m) q = ap (λ k. k.is_irregular) (sym (some-injective _ _ q))
