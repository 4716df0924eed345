-- ===== src/Dmo/Edit/Refused.antt =====
-- `insertValue` of a value that stands in a container.
use refer.Base.{
  suc, true, false, ◌≡◌, refl, ap, ◌∙◌, arith, Bool-cases, inl, inr, some, List, [], ◌∷◌, length,
}
use refer.Base.Call.{returned}
use refer.Text.{Text}
use refer.ValueId.{ValueId, value_id, add_assign, id_eq}
use refer.ValueId.Segments.{IsSegments, join}
use refer.ValueId.Segments.Names.{trim_name-join}
use refer.ValueId.Segments.Walk.{elements-join}
use refer.ValueData.{Value}
use refer.Dmo.{PropertyTree, Definitions, is_container}
use refer.Dmo.Edit.{insert_loop, insert_element, insert_value}

module _ {ℓ} {T N : Type ℓ} (pt : PropertyTree T (Value N)) (defs : Definitions N) (root : T) where
  -- From the path `above` on, the parts of `path` lead through known branches, none of them at `path`
  -- itself, to a container.
  pub data Enters (path : ValueId) : ValueId → List ValueId → Type ℓ where
    meets :
        {above e : ValueId} {es : List ValueId} (child : T)
        → pt.get_child_optional root (add_assign above e) ≡ some child
        → is_container pt child ≡ true
        → Enters path above (e ∷ es)
    passes :
        {above e : ValueId} {es : List ValueId} (child : T)
        → pt.get_child_optional root (add_assign above e) ≡ some child
        → id_eq path (add_assign above e) ≡ false
        → Enters path (add_assign above e) es
        → Enters path above (e ∷ es)

  insert_loop-Enters :
      (value : Value N) (path above : ValueId) (es : List ValueId)
      → Enters path above es
      → insert_loop pt defs root value path true above es ≡ (false, root)
  unfolding insert_loop
  insert_loop-Enters value path above es (meets child k c) = rw (insert_loop, k, c) refl
  insert_loop-Enters value path above (e ∷ es) (passes child k apart rest) =
      let tail = insert_loop-Enters value path (add_assign above e) es rest in
      elim (Bool-cases (is_container pt child)) [
        | inl c ↦ rw (insert_loop, k, c) refl
        | inr c ↦ rw (insert_loop, k, c, apart, tail) (ground arith)
      ]

  -- `insertValue`, with its check, of a value whose name leads through known branches to a container
  -- returns false and leaves the tree as it was.
  pub insert_value-Enters :
      (value : Value N) (s : Text) (ss : List Text)
      → IsSegments (s ∷ ss)
      → value.id ≡ join (s ∷ ss)
      → Enters (join (s ∷ ss)) [] (s ∷ ss)
      → insert_value pt defs (suc (length (s ∷ ss))) root value true ≡ returned (false, root)
  unfolding insert_value insert_element
  insert_value-Enters value s ss w named h =
      let path : value_id value.id ≡ join (s ∷ ss) =
        ap value_id named ∙ trim_name-join (s ∷ ss) w in
      rw
        (
          insert_value,
          insert_element,
          path,
          elements-join s ss w,
          insert_loop-Enters value (join (s ∷ ss)) [] (s ∷ ss) h,
        )
        refl
