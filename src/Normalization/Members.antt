-- ===== src/Normalization/Members.antt =====
-- Lists with the same members, and what is preferred among them.
use arche_api.Base.{
  ◌≡◌, refl, sym, ◌∙◌, ◌↔◌, ◌⊎◌, inl, inr, Bool, true, List, [], ◌∷◌, filter, In-filter, filter-In,
  any, In, Bool-cases, option_eq,
}
use arche_api.Base.Text.{Text, text_eq}
use arche_api.Entities.{date_eq}
use arche_api.Normalization.Types.{EdgarFact}
use arche_api.Normalization.Choice.{is_in_currency, or_all, preferred}

-- Two lists with the same members.
abbrev pub SameMembers : {A : Type 0} → List A → List A → Type 0
SameMembers {A} xs ys = (a : A) → In a xs ↔ In a ys

any-In :
    {A : Type 0} (test : A → Bool) (xs : List A)
    → any test xs ≡ true
    → (a : A) × In a xs × (test a ≡ true)
any-In test [] h = cc
any-In test (x ∷ xs) h = elim (Bool-cases (test x)) [
  | inl e ↦ (x, inl refl, e)
  | inr e ↦ let (a, i, t) = any-In test xs (rw e at h) in (a, inr i, t)
]

In-any :
    {A : Type 0} (test : A → Bool) (a : A) (xs : List A)
    → In a xs
    → test a ≡ true
    → any test xs ≡ true
In-any test a [] i t = absurd i
In-any test a (x ∷ xs) (inl q) t = rw (rw q at t) refl
In-any test a (x ∷ xs) (inr i) t = elim (Bool-cases (test x)) [
  | inl e ↦ rw e refl
  | inr e ↦ rw e (In-any test a xs i t)
]

pub any-congr :
    {A : Type 0} (test : A → Bool) (xs ys : List A) → SameMembers xs ys → any test xs ≡ any test ys
any-congr test xs ys same = elim (Bool-cases (any test xs)) [
  | inl h ↦ let (a, i, t) = any-In test xs h in h ∙ sym (In-any test a ys ((same a).0 i) t)
  | inr h ↦ elim (Bool-cases (any test ys)) [
    | inl k ↦ let (a, i, t) = any-In test ys k in cc (In-any test a xs ((same a).1 i) t)
    | inr k ↦ h ∙ sym k
  ]
]

pub In-or_all :
    (f : EdgarFact) (ms cs : List EdgarFact)
    → In f (or_all ms cs) ↔ (In f ms ⊎ ((ms ≡ []) × In f cs))
In-or_all f [] cs = (λ i. inr (refl, i), λ h. elim h [ inl i ↦ absurd i | inr (_, i) ↦ i ])
In-or_all f (m ∷ ms) cs = (λ i. inl i, λ h. elim h [ inl i ↦ i | inr (e, i) ↦ cc ])

pub filter-SameMembers :
    (test : EdgarFact → Bool) (xs ys : List EdgarFact)
    → SameMembers xs ys
    → (f : EdgarFact) → In f (filter test xs)
    → In f (filter test ys)
filter-SameMembers test xs ys same f i =
    let (m, t) = In-filter test f xs i in filter-In test f ys ((same f).0 m) t

pub no_members : (xs ys : List EdgarFact) → SameMembers xs ys → xs ≡ [] → ys ≡ []
no_members xs [] same e = refl
no_members xs (y ∷ ys) same e = absurd (rw e at ((same y).1 (inl refl)))

pub SameMembers-sym : {A : Type 0} (xs ys : List A) → SameMembers xs ys → SameMembers ys xs
SameMembers-sym xs ys same a = ((same a).1, (same a).0)

pub preferred-In :
    (currency : Text) (xs ys : List EdgarFact)
    → SameMembers xs ys
    → (f : EdgarFact) → In f (preferred currency xs)
    → In f (preferred currency ys)
preferred-In currency xs ys same f i =
    let test = is_in_currency currency in
    let forth = filter-SameMembers test xs ys same in
    let back = filter-SameMembers test ys xs (SameMembers-sym xs ys same) in
    elim ((In-or_all f (filter test xs) xs).0 i) [
      | inl j ↦ (In-or_all f (filter test ys) ys).1 (inl (forth f j))
      | inr (e, j) ↦ (In-or_all f (filter test ys) ys).1 (
          inr
            (no_members (filter test xs) (filter test ys) (λ g. (forth g, back g)) e, (same f).0 j))
    ]
