-- ===== src/FactStore/DimensionKey.antt =====
-- The key of a slice does not depend on the order of the dimensions.
use arche_api.Base.{◌≡◌, refl, ap, ◌∙◌, inl, inr, true, List, [], ◌∷◌, map, Bool-cases, arith}
use mathlib.Core.List.{Perm}
use mathlib.Core.Logic.{∥∥₁_elim}
use mathlib.Core.Path.{sym}
use arche_api.Base.Text.{
  Text, text_beq_iff, text_eq, text_leb, text_leb_total, text_leb_trans, text_leb_antisym, codes,
}
use arche_api.Base.Dict.{Dict}
use arche_api.Base.Sort.{sort, insert_sorted, IsOrder, lex-IsOrder, sort-congr}
use arche_api.FactStore.Derivation.{item_leb, show_item, join_bars, build_dimension_key}

item_leb-IsOrder : IsOrder item_leb
item_leb-IsOrder =
    lex-IsOrder (λ p. p.0) text_leb _ (record { total = text_leb_total; trans = text_leb_trans })
      text_leb_antisym
      (record {
        total = λ x y. text_leb_total x.1 y.1;
        trans = λ x y z. text_leb_trans x.1 y.1 z.1;
      })

item_leb-antisym : (p q : Text × Text) → item_leb p q ≡ true → item_leb q p ≡ true → p ≡ q
item_leb-antisym (a, b) (c, d) h k =
    ground (arith, text_beq_iff a c, text_beq_iff c a, text_leb_antisym a c, text_leb_antisym b d)

abbrev key_of_sorted : List (Text × Text) → Text
key_of_sorted [] = codes "default"
key_of_sorted (p ∷ ps) = join_bars (map show_item (p ∷ ps))

key_of_sorted-insert_sorted :
    (p : Text × Text) (ps : List (Text × Text))
    → key_of_sorted (insert_sorted item_leb p ps)
      ≡ join_bars (map show_item (insert_sorted item_leb p ps))
key_of_sorted-insert_sorted p [] = refl
key_of_sorted-insert_sorted p (q ∷ ps) = elim (Bool-cases (item_leb p q)) [
  | inl h ↦ rw h refl
  | inr h ↦ rw h refl
]

key_of_sorted-sort : (d : Dict Text Text) → build_dimension_key d ≡ key_of_sorted (sort item_leb d)
unfolding build_dimension_key
key_of_sorted-sort [] = refl
key_of_sorted-sort (p ∷ ps) = sym (key_of_sorted-insert_sorted p (sort item_leb ps))

-- Two dictionaries with the same items, in whatever order, have the same key.
pub build_dimension_key-congr :
    (d e : Dict Text Text) → Perm d e → build_dimension_key d ≡ build_dimension_key e
build_dimension_key-congr d e p =
    key_of_sorted-sort d
    ∙ (∥∥₁_elim p (hlevel)
          (λ q. ap key_of_sorted (sort-congr item_leb item_leb-IsOrder item_leb-antisym q))
        ∙ sym (key_of_sorted-sort e))
