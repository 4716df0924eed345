-- ===== src/Store/Visit.antt =====
-- company_ref_variant_valuestore_visitor.cpp, and `VariantValueStore::visitValues`. A visit is the list
-- of the values that the function is called with, in order; the functions that the program passes do
-- not change the links that a visit follows.
pub mod Finite
use refer.Base.{ℕ, zero, suc, Option, none, some, List, [], ◌∷◌, ◌++◌, list_eq, nat_eq}
use refer.Base.Table.{Table, find}
use refer.ValueId.{ValueId}
use refer.Variant
use refer.Store.{Node, Store}

module _ {ℓ} {N : Type ℓ} (heap : Table ℕ (Node N)) where
  -- `visitChildren` of a value with these children; each level below takes one unit of fuel.
  unfoldable pub visit_children : ℕ → Table ValueId ℕ → Option (List ℕ)
  visit_children zero children = none
  visit_children (suc n) [] = some []
  visit_children (suc n) ((key, p) ∷ children) = elim (find p heap) [
    | none ↦ none
    | some node ↦ elim (visit_children n node.children) [
      | none ↦ none
      | some below ↦ elim (visit_children (suc n) children) [
        | none ↦ none
        | some rest ↦ some (p ∷ (below ++ rest))
      ]
    ]
  ]

  -- `visitParent`: from the parent of a value up to the root, which has no id.
  visit_parent : ℕ → Node N → Option (List ℕ)
  visit_parent zero node = none
  visit_parent (suc n) node = elim node.parent [
    | none ↦ some []
    | some q ↦ elim (find q heap) [
      | none ↦ none
      | some above ↦ elim (Variant.id above.variant) [
        | [] ↦ some []
        | c ∷ name ↦ elim (visit_parent n above) [ none ↦ none | some rest ↦ some (q ∷ rest) ]
      ]
    ]
  ]

-- `visitValues`: the children of the root, each followed by what is below it.
unfoldable pub visit_values {ℓ} : {N : Type ℓ} → ℕ → Store N → Option (List ℕ)
visit_values n s = elim (find 0 s.heap) [
  | none ↦ none
  | some root ↦ visit_children s.heap n root.children
]
