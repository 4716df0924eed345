-- ===== src/Dmo/Edit/Removal.antt =====
-- `removeValue` of a value at the root of the tree.
use refer.Base.{Bool, true, false, ◌≡◌, refl, ◌∙◌, none, some, List, [], ◌∷◌}
use refer.Base.Call.{Call, returned}
use refer.Text.{Text}
use refer.ValueId.{is_empty, parent, leaf}
use refer.ValueId.Segments.{IsSegment}
use refer.ValueId.Segments.Parts.{parent-leaf-join, is_empty-head_ok}
use refer.ValueId.Segments.Walk.{elements-join}
use refer.ValueData.{Value}
use refer.Dmo.{PropertyTree, has, has_loop}
use refer.Dmo.Edit.{above_of, is_leafless, erase_leaf, remove_value}

-- What the removal relies on: a key that is absent erases nothing, a branch that is written back to its
-- path changes nothing, and a path of one part is a key.
pub record TreeLaws {ℓ} {T V : Type ℓ} (pt : PropertyTree T V) : Type ℓ where
  pub erase_absent : (t : T) (key : Text) → pt.find t key ≡ none → pt.erase t key ≡ (t, 0)
  pub put_child_same :
      (root t : T) (path : Text)
      → pt.get_child_optional root path ≡ some t
      → pt.put_child root path t ≡ root
  pub path_of_key :
      (root : T) (key : Text) → IsSegment key → pt.get_child_optional root key ≡ pt.find root key

module _ {ℓ} {T N : Type ℓ} (pt : PropertyTree T (Value N)) (laws : TreeLaws pt) (root : T) where
  has-part :
      (s : Text) (t : T) → IsSegment s → pt.find root s ≡ some t → has pt 2 root s ≡ returned true
  unfolding has has_loop
  has-part s t w f = rw (has, is_empty-head_ok s w.1, elements-join s [] (w, tt), has_loop, f) refl

  -- The path of one part is its own leaf, and the branch that its leaf is erased from is its own.
  erase_leaf-absent :
      (up : T → Call (Bool × T)) (s : Text) (t : T) (x : Text × T) (xs : List (Text × T))
      → leaf s ≡ s
      → pt.get_child_optional root (above_of pt s) ≡ some t
      → pt.children t ≡ x ∷ xs
      → pt.find t s ≡ none
      → erase_leaf pt up root s t ≡ returned (false, root)
  unfolding erase_leaf
  erase_leaf-absent up s t x xs own_leaf at_path some_children absent =
      let erased = laws.erase_absent t s absent in
      let leafy : is_leafless pt t ≡ false = rw (some_children, is_leafless) refl in
      let same = laws.put_child_same root t (above_of pt s) at_path in
      rw (erase_leaf, own_leaf, erased, leafy, same) refl

  -- In a tree with these laws, `removeValue` of a known value at the root that has children, none of
  -- which has its name, returns false and leaves the tree as it was.
  pub remove_value-kept :
      (s : Text) (t : T) (x : Text × T) (xs : List (Text × T))
      → IsSegment s
      → pt.find root s ≡ some t
      → pt.children t ≡ x ∷ xs
      → pt.find t s ≡ none
      → remove_value pt 3 root s ≡ returned (false, root)
  unfolding remove_value is_empty
  remove_value-kept s t x xs w f some_children absent =
      let no_parent : parent s ≡ [] = (parent-leaf-join [] s tt w).0 in
      let own_leaf : leaf s ≡ s = (parent-leaf-join [] s tt w).1 in
      let at_path = laws.path_of_key root s w ∙ f in
      let above : above_of pt s ≡ s = rw no_parent refl in
      let at_above : pt.get_child_optional root (above_of pt s) ≡ some t = rw above at_path in
      rw (remove_value, is_empty-head_ok s w.1, has-part s t w f, at_above)
        (erase_leaf-absent (λ r. remove_value pt 2 r (parent s)) s t x xs own_leaf at_above
          some_children absent)
