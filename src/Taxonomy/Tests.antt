-- ===== src/Taxonomy/Tests.antt =====
-- A presentation network of four concepts, and one with a cycle below its root.
use arche_api.Base.{ℕ, ◌≡◌, ◌<◌, refl, false, none, some, List, [], ◌∷◌, In, inl, inr, ◌⊎◌, arith}
use arche_api.Base.Int.{pos}
use arche_api.Base.Text.{Text, codes}
use arche_api.Base.Results.{err}
use arche_api.Decimal.{decimal_beq, decimal_leb, scale}
use arche_api.Taxonomy.Concepts.{validate_fact, build_minimal_gaap_taxonomy, expected_instant}
use arche_api.Taxonomy.View.{
  XbrlPresentationArc, XbrlLinkbaseNetworks, PresentationNode, presentation_node, Children,
  no_child, child_and, arcs_of_role, roots, child_names, build_node, build_presentation_tree,
  get_best_label,
}
use arche_api.Taxonomy.Trees.{AreNodesOf, build_presentation_tree-total, build_node-endless}

abbrev arc : Text → Text → ℕ → XbrlPresentationArc
arc parent child order = record {
  role = codes "r";
  parent_qname = parent;
  child_qname = child;
  order = record { digits = pos order; exponent = pos 0 };
}

abbrev networks : XbrlLinkbaseNetworks
networks = record {
  labels_by_concept =
      (codes "d", record { concept_qname = codes "d"; role = codes "terse"; text = codes "D" } ∷ [])
      ∷ [];
  presentation_arcs =
      arc (codes "d") (codes "b") 2
      ∷ arc (codes "d") (codes "c") 1
      ∷ arc (codes "c") (codes "a") 1
      ∷ [];
}

-- The letters are their own ranks.
abbrev rank : Text → ℕ
rank [] = 0
rank (c ∷ cs) = c

validate_fact_test :
    validate_fact build_minimal_gaap_taxonomy (codes "us-gaap:Assets") false (some (codes "usd"))
    ≡ err expected_instant
unfolding validate_fact build_minimal_gaap_taxonomy
validate_fact_test = refl

get_best_label_test : get_best_label networks (codes "d") (codes "verbose" ∷ []) ≡ some (codes "D")
unfolding get_best_label
get_best_label_test = refl

abbrev leaf : Text → PresentationNode
leaf name = presentation_node name no_child

build_presentation_tree_test :
    build_presentation_tree networks 101 (codes "r")
    ≡ some (
        child_and
          (presentation_node (codes "d") (
            child_and
              (presentation_node (codes "c") (child_and (leaf (codes "a")) no_child))
              (child_and (leaf (codes "b")) no_child)))
          no_child)
unfolding build_presentation_tree build_node decimal_beq decimal_leb scale
build_presentation_tree_test = refl

networks_ranked :
    (a : XbrlPresentationArc)
    → In a networks.presentation_arcs
    → a.role ≡ codes "r"
    → (rank a.child_qname < rank a.parent_qname) × (rank a.parent_qname < 101)
networks_ranked a (inl e) same = rw e (omega arith, omega arith)
networks_ranked a (inr (inl e)) same = rw e (omega arith, omega arith)
networks_ranked a (inr (inr (inl e))) same = rw e (omega arith, omega arith)
networks_ranked a (inr (inr (inr i))) same = absurd i

build_presentation_tree-total_example :
    (children : Children) × (build_presentation_tree networks 101 (codes "r") ≡ some children)
    × AreNodesOf
        (arcs_of_role networks (codes "r"))
        (roots (arcs_of_role networks (codes "r")))
        children
build_presentation_tree-total_example =
    build_presentation_tree-total networks (codes "r") rank 101 networks_ranked

abbrev cyclic : List XbrlPresentationArc
cyclic =
    arc (codes "r") (codes "a") 1
    ∷ arc (codes "a") (codes "b") 1
    ∷ arc (codes "b") (codes "a") 1
    ∷ []

abbrev IsReached : Text → Type 0
IsReached c = (c ≡ codes "r") ⊎ ((c ≡ codes "a") ⊎ (c ≡ codes "b"))

cyclic_next : (c : Text) → IsReached c → (d : Text) × In d (child_names cyclic c) × IsReached d
cyclic_next c (inl e) = rw e (codes "a", inl refl, inr (inl refl))
cyclic_next c (inr (inl e)) = rw e (codes "b", inl refl, inr (inr refl))
cyclic_next c (inr (inr e)) = rw e (codes "a", inl refl, inr (inl refl))

build_node-endless_example : build_node cyclic 1000 (codes "r") ≡ none
build_node-endless_example =
    build_node-endless cyclic IsReached cyclic_next 1000 (codes "r") (inl refl)
