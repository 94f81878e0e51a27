-- ===== src/Normalization/Latest.antt =====
-- The fact chosen is a latest one, and depends only on which facts there are.
use arche_api.Base.{
  ◌≡◌, refl, sym, ap, ◌∙◌, ◌⊎◌, inl, inr, Bool, true, false, not, Option, none, some, List, [], ◌∷◌,
  filter, In-filter, filter-In, get_last?, In, All, All-In, arith, Option-cases, option_eq,
  option_beq_iff,
}
use arche_api.Base.Text.{Text, text_eq, text_leb_total, text_leb_trans, text_leb_antisym}
use arche_api.Base.Sort.{sort, lex-IsOrder, IsOrder, IsSorted, sort-IsSorted, In-sort}
use arche_api.Base.Results.{ok, ◌>>◌, raise_if}
use arche_api.Entities.{Date, date_eq}
use arche_api.Normalization.Types.{EdgarFact, type_error}
use arche_api.Normalization.Choice.{
  ref_date, ref_date_leb, sort_key_leb, is_dated, is_mixed, is_in_currency, or_all, preferred,
  choose_fact,
}
use arche_api.Normalization.Members.{
  SameMembers, any-congr, In-or_all, SameMembers-sym, preferred-In,
}

module _ {A : Type 0} (le : A → A → Bool) (o : IsOrder le) where
  -- The last of a sorted list is one of its greatest elements.
  get_last?-sorted :
      (xs : List A) (x : A)
      → IsSorted le xs
      → get_last? xs ≡ some x
      → In x xs × All (λ y. le y x ≡ true) xs
  get_last?-sorted [] x s e = cc
  get_last?-sorted (y ∷ []) x s e =
      let q : x ≡ y = cc in (inl q, (rw q (elim (o.total y y) [ inl h ↦ h | inr h ↦ h ]), tt))
  get_last?-sorted (y ∷ z ∷ zs) x s e =
      let (i, all) = get_last?-sorted (z ∷ zs) x s.1 e in
      (inr i, (All-In (λ w. le y w ≡ true) x (z ∷ zs) i s.0, all))

  get_last?-none : (xs : List A) → get_last? xs ≡ none → xs ≡ []
  get_last?-none [] e = refl
  get_last?-none (y ∷ []) e = cc
  get_last?-none (y ∷ z ∷ zs) e = cc (get_last?-none (z ∷ zs) e)

ref_date_leb-IsOrder : IsOrder ref_date_leb
ref_date_leb-IsOrder = record { total = λ a b. total a b; trans = λ a b c. trans a b c }
  where
    total : (a b : Option Date) → (ref_date_leb a b ≡ true) ⊎ (ref_date_leb b a ≡ true)
    total none b = inl refl
    total (some a) none = inr refl
    total (some a) (some b) = ground arith

    trans :
        (a b c : Option Date)
        → ref_date_leb a b ≡ true
        → ref_date_leb b c ≡ true
        → ref_date_leb a c ≡ true
    trans none b c h k = refl
    trans (some a) none c h k = cc
    trans (some a) (some b) none h k = cc
    trans (some a) (some b) (some c) h k = ground arith

ref_date_leb-antisym :
    (a b : Option Date) → ref_date_leb a b ≡ true → ref_date_leb b a ≡ true → a ≡ b
ref_date_leb-antisym none none h k = refl
ref_date_leb-antisym none (some b) h k = cc
ref_date_leb-antisym (some a) none h k = cc
ref_date_leb-antisym (some a) (some b) h k = ground arith

sort_key_leb-IsOrder : IsOrder sort_key_leb
sort_key_leb-IsOrder =
    lex-IsOrder ref_date ref_date_leb _ ref_date_leb-IsOrder ref_date_leb-antisym (record {
      total = λ x y. text_leb_total x.fact_id y.fact_id;
      trans = λ x y z. text_leb_trans x.fact_id y.fact_id z.fact_id;
    })

sort_key_leb-id :
    (a b : EdgarFact) → sort_key_leb a b ≡ true → sort_key_leb b a ≡ true → a.fact_id ≡ b.fact_id
sort_key_leb-id a b h k = ground (
  arith,
  option_beq_iff (ref_date a) (ref_date b),
  option_beq_iff (ref_date b) (ref_date a),
  ref_date_leb-antisym (ref_date a) (ref_date b),
  text_leb_antisym a.fact_id b.fact_id,
)

last : List EdgarFact → Option EdgarFact
last xs = get_last? (sort sort_key_leb xs)

last-some :
    (xs : List EdgarFact) (f : EdgarFact)
    → last xs ≡ some f
    → In f xs × ((g : EdgarFact) → In g xs → sort_key_leb g f ≡ true)
unfolding last
last-some xs f e =
    let (i, all) =
      get_last?-sorted sort_key_leb sort_key_leb-IsOrder (sort sort_key_leb xs) f
        (sort-IsSorted sort_key_leb sort_key_leb-IsOrder xs) e in
    (
      (In-sort sort_key_leb f xs).0 i,
      λ g j.
          All-In (λ h. sort_key_leb h f ≡ true) g (sort sort_key_leb xs)
            ((In-sort sort_key_leb g xs).1 j) all,
    )

last-none : (xs : List EdgarFact) → last xs ≡ none → (f : EdgarFact) → ¬ In f xs
unfolding last
last-none xs e f i = absurd (
    rw (get_last?-none sort_key_leb sort_key_leb-IsOrder (sort sort_key_leb xs) e) at
      ((In-sort sort_key_leb f xs).1 i))

-- Identifiers tell the facts of a list apart.
abbrev pub HasDistinctIds : List EdgarFact → Type 0
HasDistinctIds xs = (a b : EdgarFact) → In a xs → In b xs → a.fact_id ≡ b.fact_id → a ≡ b

last-congr : (xs ys : List EdgarFact) → SameMembers xs ys → HasDistinctIds xs → last xs ≡ last ys
last-congr xs ys same ids = elim (Option-cases (last xs)) [
  | inl e ↦ elim (Option-cases (last ys)) [
    | inl k ↦ e ∙ sym k
    | inr (g, k) ↦ absurd (last-none xs e g ((same g).1 (last-some ys g k).0))
  ]
  | inr (f, e) ↦ elim (Option-cases (last ys)) [
    | inl k ↦ absurd (last-none ys k f ((same f).0 (last-some xs f e).0))
    | inr (g, k) ↦
        let (i, above) = last-some xs f e in
        let (j, above_too) = last-some ys g k in
        let mine = (same g).1 j in
        e
        ∙ ap some (ids f g i mine (sort_key_leb-id f g (above_too f ((same f).0 i)) (above g mine)))
        ∙ sym k
  ]
]

preferred-sub :
    (currency : Text) (xs : List EdgarFact) (f : EdgarFact) → In f (preferred currency xs) → In f xs
preferred-sub currency xs f i = elim ((In-or_all f (filter (is_in_currency currency) xs) xs).0 i) [
  | inl j ↦ (In-filter (is_in_currency currency) f xs j).0
  | inr (e, j) ↦ j
]

pub choose_fact-congr :
    (currency : Text) (xs ys : List EdgarFact)
    → SameMembers xs ys
    → HasDistinctIds xs
    → choose_fact currency xs ≡ choose_fact currency ys
unfolding choose_fact
choose_fact-congr currency xs ys same ids =
    let ps = preferred currency xs in
    let qs = preferred currency ys in
    let alike : SameMembers ps qs = λ f. (
      preferred-In currency xs ys same f,
      preferred-In currency ys xs (SameMembers-sym xs ys same) f,
    ) in
    let mixed : is_mixed ps ≡ is_mixed qs = cc (
      any-congr is_dated ps qs alike,
      any-congr (λ (f : EdgarFact). not (is_dated f)) ps qs alike,
    ) in
    let latest : last ps ≡ last qs =
      last-congr ps qs alike
        (λ a b i j. ids a b (preferred-sub currency xs a i) (preferred-sub currency xs b j)) in
    unfold last in cc (mixed, latest)

guarded-ok :
    (test : Bool) (o o' : Option EdgarFact) → (raise_if test type_error >> ok o) ≡ ok o' → o ≡ o'
guarded-ok true o o' h = cc
guarded-ok false o o' h = cc

choose_fact-last :
    (currency : Text) (xs : List EdgarFact) (o : Option EdgarFact)
    → choose_fact currency xs ≡ ok o
    → last (preferred currency xs) ≡ o
unfolding choose_fact last
choose_fact-last currency xs o h =
    guarded-ok (is_mixed (preferred currency xs))
      (get_last? (sort sort_key_leb (preferred currency xs))) o h

preferred_some :
    (currency : Text) (f : EdgarFact) (xs : List EdgarFact)
    → In f xs
    → (g : EdgarFact) × In g (preferred currency xs)
preferred_some currency f xs i = some_of (filter (is_in_currency currency) xs)
  where
    some_of : (ms : List EdgarFact) → (g : EdgarFact) × In g (or_all ms xs)
    some_of [] = (f, i)
    some_of (m ∷ ms) = (m, inl refl)

-- The fact chosen is in the reporting currency if some candidate is, and none of its kind is later.
pub choose_fact-some :
    (currency : Text) (xs : List EdgarFact) (f : EdgarFact)
    → choose_fact currency xs ≡ ok (some f)
    → In f xs
      × ((g : EdgarFact)
          → In g xs
          → is_in_currency currency g ≡ true
          → is_in_currency currency f ≡ true)
      × ((g : EdgarFact)
          → In g xs
          → is_in_currency currency g ≡ is_in_currency currency f
          → sort_key_leb g f ≡ true)
choose_fact-some currency xs f h =
    let ps = preferred currency xs in
    let (i, above) = last-some ps f (choose_fact-last currency xs (some f) h) in
    (
      preferred-sub currency xs f i,
      λ g j t. elim ((In-or_all f (filter (is_in_currency currency) xs) xs).0 i) [
        | inl m ↦ (In-filter (is_in_currency currency) f xs m).1
        | inr (e, m) ↦ absurd (rw e at (filter-In (is_in_currency currency) g xs j t))
      ],
      λ g j same. above g (elim ((In-or_all f (filter (is_in_currency currency) xs) xs).0 i) [
        | inl m ↦ (In-or_all g (filter (is_in_currency currency) xs) xs).1 (
            inl (
              filter-In (is_in_currency currency) g xs j
                (same ∙ (In-filter (is_in_currency currency) f xs m).1)))
        | inr (e, m) ↦ (In-or_all g (filter (is_in_currency currency) xs) xs).1 (inr (e, j))
      ]),
    )

pub choose_fact-none :
    (currency : Text) (xs : List EdgarFact)
    → choose_fact currency xs ≡ ok none
    → (f : EdgarFact) → ¬ In f xs
choose_fact-none currency xs h f i =
    let (g, j) = preferred_some currency f xs i in
    last-none (preferred currency xs) (choose_fact-last currency xs none h) g j
