-- ===== src/Taxonomy/View.antt =====
-- `GaapTaxonomyView` with the linkbase entities of domain/entities/xbrl_document.py. An order is a finite
-- float, which is a decimal. The recursion of `build_node` takes fuel: the depth of the tree.
use arche_api.Base.{
  ℕ, zero, suc, Bool, not, ◌||◌, Option, none, some, List, [], ◌∷◌, ◌++◌, map, filter, any,
  if◌then◌else◌,
}
use arche_api.Base.Text.{Text, text_eq, text_beq, text_leb, is_empty}
use arche_api.Base.Dict.{Dict, lookup}
use arche_api.Base.Sort.{sort}
use arche_api.Decimal.{Decimal, decimal_leb, decimal_beq}

pub record XbrlLabel : Type 0 where
  pub concept_qname : Text
  pub role : Text
  pub text : Text

pub record XbrlPresentationArc : Type 0 where
  pub role : Text
  pub parent_qname : Text
  pub child_qname : Text
  pub order : Decimal

pub record XbrlLinkbaseNetworks : Type 0 where
  pub labels_by_concept : Dict Text (List XbrlLabel)
  pub presentation_arcs : List XbrlPresentationArc

mutual
  -- `PresentationNode` and its children.
  pub data PresentationNode : Type 0 where
    presentation_node : Text → Children → PresentationNode

  pub data Children : Type 0 where
    no_child : Children
    child_and : PresentationNode → Children → Children

-- The first label of a role, of any role if the role is empty.
abbrev pub label_of_role : Text → List XbrlLabel → Option Text
label_of_role role [] = none
label_of_role role (label ∷ labels) =
    if is_empty role || text_beq label.role role then some label.text else label_of_role role labels

abbrev pub label_of_roles : List Text → List XbrlLabel → Option Text
label_of_roles [] [] = none
label_of_roles [] (label ∷ labels) = some label.text
label_of_roles (role ∷ roles) labels = elim (label_of_role role labels) [
  | none ↦ label_of_roles roles labels
  | some text ↦ some text
]

-- `get_best_label`
unfoldable pub get_best_label : XbrlLinkbaseNetworks → Text → List Text → Option Text
get_best_label linkbases concept_qname preferred_roles =
    elim (lookup concept_qname linkbases.labels_by_concept) [
      | none ↦ none
      | some labels ↦ elim labels [
        | [] ↦ none
        | l ∷ ls ↦ label_of_roles (preferred_roles ++ ([] ∷ [])) (l ∷ ls)
      ]
    ]

-- The order of the tuples `(parent_qname, order, child_qname)`.
abbrev pub arc_leb : XbrlPresentationArc → XbrlPresentationArc → Bool
arc_leb a b =
    if text_beq a.parent_qname b.parent_qname
    then if decimal_beq a.order b.order
      then text_leb a.child_qname b.child_qname
      else decimal_leb a.order b.order
    else text_leb a.parent_qname b.parent_qname

-- `_build_presentation_index`, at a role.
abbrev pub arcs_of_role : XbrlLinkbaseNetworks → Text → List XbrlPresentationArc
arcs_of_role linkbases role =
    sort arc_leb (filter (λ a. text_beq a.role role) linkbases.presentation_arcs)

-- `children_by_parent`, at a parent.
abbrev pub child_arcs : List XbrlPresentationArc → Text → List XbrlPresentationArc
child_arcs arcs parent =
    sort (λ a b. decimal_leb a.order b.order) (filter (λ a. text_beq a.parent_qname parent) arcs)

abbrev pub is_arc_child : List XbrlPresentationArc → Text → Bool
is_arc_child arcs concept = any (λ a. text_beq a.child_qname concept) arcs

-- A list as a set, and the parents that are no children.
abbrev pub distinct_names : List Text → List Text
distinct_names [] = []
distinct_names (t ∷ ts) =
    let rest = distinct_names ts in if any (text_beq t) ts then rest else t ∷ rest

abbrev pub roots : List XbrlPresentationArc → List Text
roots arcs =
    sort text_leb
      (distinct_names (filter (λ p. not (is_arc_child arcs p)) (map (λ a. a.parent_qname) arcs)))

abbrev pub node_of : Text → Option Children → Option PresentationNode
node_of concept none = none
node_of concept (some children) = some (presentation_node concept children)

abbrev pub cons_child : Option PresentationNode → Option Children → Option Children
cons_child (some node) (some children) = some (child_and node children)
cons_child _ _ = none

-- `tuple(build(concept) for concept in concepts)`
abbrev pub build_all : (Text → Option PresentationNode) → List Text → Option Children
build_all build [] = some no_child
build_all build (c ∷ cs) = cons_child (build c) (build_all build cs)

abbrev pub child_names : List XbrlPresentationArc → Text → List Text
child_names arcs concept = map (λ a. a.child_qname) (child_arcs arcs concept)

unfoldable pub build_node : List XbrlPresentationArc → ℕ → Text → Option PresentationNode
build_node arcs zero concept = none
build_node arcs (suc fuel) concept =
    node_of concept (build_all (build_node arcs fuel) (child_names arcs concept))

-- `build_presentation_tree`
unfoldable pub build_presentation_tree : XbrlLinkbaseNetworks → ℕ → Text → Option Children
build_presentation_tree linkbases fuel role =
    let arcs = arcs_of_role linkbases role in build_all (build_node arcs fuel) (roots arcs)
