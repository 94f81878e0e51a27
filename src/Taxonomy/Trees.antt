-- ===== src/Taxonomy/Trees.antt =====
-- Presentation trees: what a tree has, when there is one, and the cycles below which there is none.
use mathlib.Core.Option.{some-injective}
use arche_api.Base.{
  All-map, map-All, filter-All, Bool-cases, ℕ, zero, suc, ◌<◌, ◌≡◌, refl, sym, subst, Option, none,
  some, List, [], ◌∷◌, map, In, All, All-of-In, In-filter, filter, arith, inl, inr, Option-cases,
  any,
}
use arche_api.Base.Text.{Text, text_beq, text_beq_iff, text_leb}
use arche_api.Base.Sort.{In-sort, sort-All}
use arche_api.Taxonomy.View.{
  XbrlPresentationArc, XbrlLinkbaseNetworks, PresentationNode, presentation_node, Children,
  no_child, child_and, arcs_of_role, child_arcs, roots, distinct_names, node_of, cons_child,
  build_all, child_names, build_node, build_presentation_tree,
}

node_of-some :
    (concept : Text) (built : Option Children) (node : PresentationNode)
    → node_of concept built ≡ some node
    → (children : Children) × (built ≡ some children) × (node ≡ presentation_node concept children)
node_of-some concept none node h = absurd (ground arith)
node_of-some concept (some children) node h = (children, refl, sym (some-injective _ _ h))

cons_child-some :
    (first : Option PresentationNode) (rest : Option Children) (children : Children)
    → cons_child first rest ≡ some children
    → (node : PresentationNode) × (others : Children) × (first ≡ some node)
      × (rest ≡ some others)
      × (children ≡ child_and node others)
cons_child-some none rest children h = absurd (ground arith)
cons_child-some (some node) none children h = absurd (ground arith)
cons_child-some (some node) (some others) children h =
    (node, others, refl, refl, sym (some-injective _ _ h))

module _ (arcs : List XbrlPresentationArc) where
  abbrev mutual
    -- The node of a concept, with the nodes of its children in order.
    pub IsNodeOf : Text → PresentationNode → Type 0
    IsNodeOf concept (presentation_node name children) =
        (name ≡ concept) × AreNodesOf (child_names arcs concept) children

    pub AreNodesOf : List Text → Children → Type 0
    AreNodesOf [] no_child = Unit
    AreNodesOf (c ∷ cs) (child_and node children) = IsNodeOf c node × AreNodesOf cs children
    AreNodesOf _ _ = ⊥

  build_all-AreNodesOf :
      (build : Text → Option PresentationNode)
      → ((c : Text) (node : PresentationNode) → build c ≡ some node → IsNodeOf c node)
      → (cs : List Text) (children : Children) → build_all build cs ≡ some children
      → AreNodesOf cs children
  build_all-AreNodesOf build good [] children h = subst (AreNodesOf []) (some-injective _ _ h) tt
  build_all-AreNodesOf build good (c ∷ cs) children h =
      let (node, others, first, rest, same) =
        cons_child-some (build c) (build_all build cs) children h in
      subst (AreNodesOf (c ∷ cs)) (sym same)
        (good c node first, build_all-AreNodesOf build good cs others rest)

  build_all-none :
      (build : Text → Option PresentationNode) (c : Text) (cs : List Text)
      → In c cs
      → build c ≡ none
      → build_all build cs ≡ none
  build_all-none build c [] i h = absurd i
  build_all-none build c (d ∷ ds) (inl same) h = rw (← same, h) refl
  build_all-none build c (d ∷ ds) (inr i) h = elim (Option-cases (build d)) [
    | inl e ↦ rw e refl
    | inr (node, e) ↦ rw (e, build_all-none build c ds i h) refl
  ]

  build_all-some :
      (build : Text → Option PresentationNode) (cs : List Text)
      → All (λ c. (node : PresentationNode) × (build c ≡ some node)) cs
      → (children : Children) × (build_all build cs ≡ some children)
  build_all-some build [] h = (no_child, refl)
  build_all-some build (c ∷ cs) ((node, e), h) =
      let (children, k) = build_all-some build cs h in (child_and node children, rw (e, k) refl)

  -- Where each concept of a kind has a child of the kind, none of them has a tree, whatever the fuel: the
  -- recursion has no end.
  pub build_node-endless {ℓ} :
      (P : Text → Type ℓ)
      → ((c : Text) → P c → (d : Text) × In d (child_names arcs c) × P d)
      → (fuel : ℕ) (concept : Text) → P concept
      → build_node arcs fuel concept ≡ none
  unfolding build_node
  build_node-endless P next zero concept p = refl
  build_node-endless P next (suc fuel) concept p =
      let (d, i, q) = next concept p in
      rw
        (build_all-none (build_node arcs fuel) d (child_names arcs concept) i
          (build_node-endless P next fuel d q))
        refl

  build_node-IsNodeOf :
      (fuel : ℕ) (concept : Text) (node : PresentationNode)
      → build_node arcs fuel concept ≡ some node
      → IsNodeOf concept node
  unfolding build_node
  build_node-IsNodeOf zero concept node h = absurd (ground arith)
  build_node-IsNodeOf (suc fuel) concept node h =
      let (children, built, same) =
        node_of-some concept (build_all (build_node arcs fuel) (child_names arcs concept)) node h in
      subst (IsNodeOf concept) (sym same) (
        refl,
        build_all-AreNodesOf (build_node arcs fuel) (build_node-IsNodeOf fuel)
            (child_names arcs concept) children built,
      )

  module _ (rank : Text → ℕ)
      (down : (a : XbrlPresentationArc)
        → In a arcs
        → rank a.child_qname < rank a.parent_qname) where
    child_arcs-All :
        (concept : Text) → All (λ a. rank a.child_qname < rank concept) (child_arcs arcs concept)
    child_arcs-All concept = All-of-In _ (child_arcs arcs concept) (λ a i.
        let (j, t) =
          In-filter (λ a. text_beq a.parent_qname concept) a arcs
            ((In-sort _ a (filter (λ a. text_beq a.parent_qname concept) arcs)).0 i) in
        subst (λ p. rank a.child_qname < rank p) ((text_beq_iff a.parent_qname concept).0 t)
          (down a j))

    build_node-total :
        (fuel : ℕ) (concept : Text)
        → rank concept < fuel
        → (node : PresentationNode) × (build_node arcs fuel concept ≡ some node)
    unfolding build_node
    build_node-total zero concept h = absurd (ground arith)
    build_node-total (suc fuel) concept h =
        let (children, built) = build_all-some (build_node arcs fuel) (child_names arcs concept) (
          map-All _ (λ a. a.child_qname) (child_arcs arcs concept)
            (All-map (child_arcs arcs concept)
              (λ a lower. build_node-total fuel a.child_qname (omega arith))
              (child_arcs-All concept))) in
        (presentation_node concept children, rw built refl)

distinct_names-All : (P : Text → Type 0) (ts : List Text) → All P ts → All P (distinct_names ts)
distinct_names-All P [] h = tt
distinct_names-All P (t ∷ ts) h = elim (Bool-cases (any (text_beq t) ts)) [
  | inl e ↦ rw e (distinct_names-All P ts h.1)
  | inr e ↦ rw e (h.0, distinct_names-All P ts h.1)
]

module _ (linkbases : XbrlLinkbaseNetworks) (role : Text) where
  arcs_of_role-In :
      (a : XbrlPresentationArc)
      → In a (arcs_of_role linkbases role)
      → In a linkbases.presentation_arcs × (a.role ≡ role)
  arcs_of_role-In a i =
      let (j, t) =
        In-filter (λ a. text_beq a.role role) a linkbases.presentation_arcs
          ((In-sort _ a (filter (λ a. text_beq a.role role) linkbases.presentation_arcs)).0 i) in
      (j, (text_beq_iff a.role role).0 t)

  -- Where each arc of the role goes from a concept to one of a lower rank, and the ranks of the parents
  -- are below `fuel`, this much fuel gives the trees of the role: one for each root, in the order of
  -- the names, and each node has the children of its concept's arcs, in their order.
  pub build_presentation_tree-total :
      (rank : Text → ℕ) (fuel : ℕ)
      → ((a : XbrlPresentationArc)
          → In a linkbases.presentation_arcs
          → a.role ≡ role
          → (rank a.child_qname < rank a.parent_qname) × (rank a.parent_qname < fuel))
      → (children : Children) × (build_presentation_tree linkbases fuel role ≡ some children)
        × AreNodesOf (arcs_of_role linkbases role) (roots (arcs_of_role linkbases role)) children
  unfolding build_presentation_tree
  build_presentation_tree-total rank fuel ranked =
      let arcs = arcs_of_role linkbases role in
      let of_role : (a : XbrlPresentationArc)
          → In a arcs
          → (rank a.child_qname < rank a.parent_qname) × (rank a.parent_qname < fuel) =
        λ a i. let (j, same) = arcs_of_role-In a i in ranked a j same in
      let parents : All (λ p. rank p < fuel) (map (λ a. a.parent_qname) arcs) =
        map-All _ (λ a. a.parent_qname) arcs (All-of-In _ arcs (λ a i. (of_role a i).1)) in
      let low : All (λ p. rank p < fuel) (roots arcs) =
        sort-All text_leb _ _ (distinct_names-All _ _ (filter-All _ _ _ parents)) in
      let (children, built) = build_all-some arcs (build_node arcs fuel) (roots arcs) (
        All-map (roots arcs)
          (λ c below. build_node-total arcs rank (λ a i. (of_role a i).0) fuel c below) low) in
      (
        children,
        built,
        build_all-AreNodesOf arcs (build_node arcs fuel) (build_node-IsNodeOf arcs fuel)
            (roots arcs) children built,
      )
