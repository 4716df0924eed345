-- ===== src/Store/Fuel.antt =====
-- `VariantValueStore::add`: the fuel of `add`, and the lengths of the ids of the parents that it makes.
use refer.Base.{
  ℕ, zero, suc, ◌<◌, ◌≡◌, refl, arith, false, Option, some, list_eq, nat_eq, eqb_iff, length,
  Bool-cases, Option-cases, inl, inr,
}
use refer.Base.Table.{find, find-put}
use refer.ValueId.{ValueId, value_id, parent, is_empty}
use refer.ValueId.Length.{length-trim_name, parent-shorter}
use refer.ValueData.{Value}
use refer.Variant
use refer.Variant.{Variant, of_value}
use refer.Store.{
  Node, Store, new_node, connect, place, alloc, get, placeholder, get_parent, add_at, add,
}

module _ {ℓ} {N : Type ℓ} (blank : Value N) where
  -- The id of a placeholder is shorter than the id of its child.
  placeholder-shorter :
      (child : Variant N)
      → is_empty (parent (Variant.id child)) ≡ false
      → length (Variant.id (placeholder blank child)) < length (Variant.id child)
  unfolding of_value Variant.id
  placeholder-shorter child n =
      omega
        (arith, length-trim_name (parent (Variant.id child)), parent-shorter (Variant.id child) n)

  -- `getParent` asks of `add` only what the new parent needs.
  get_parent-same :
      (f g : Store N → ℕ → Option (Option ℕ × Store N)) (s : Store N) (child : Variant N)
      → (is_empty (parent (Variant.id child)) ≡ false
          → f (alloc s (placeholder blank child)) s.fresh
            ≡ g (alloc s (placeholder blank child)) s.fresh)
      → get_parent blank f s child ≡ get_parent blank g s child
  unfolding get_parent
  get_parent-same f g s child same = elim (Bool-cases (is_empty (parent (Variant.id child)))) [
    | inl y ↦ rw (get_parent, y) refl
    | inr n ↦ elim (Option-cases (get s (value_id (parent (Variant.id child))))) [
      | inl e ↦ rw (get_parent, n, e) (same n)
      | inr (q, e) ↦ rw (get_parent, n, e) refl
    ]
  ]

  found_fresh : (s : Store N) (v : Variant N) → find s.fresh (alloc s v).heap ≡ some (new_node v)
  found_fresh s v =
      ground (arith, find-put s.fresh s.fresh (new_node v) s.heap, eqb_iff s.fresh s.fresh)

module _ {ℓ} {N : Type ℓ} (hf : ValueId → ℕ) (blank : Value N) where
  -- With more fuel than the id is long, the fuel does not matter.
  add_at-fuel :
      (n m : ℕ) (s : Store N) (p : ℕ) (node : Node N)
      → find p s.heap ≡ some node
      → length (Variant.id node.variant) < n
      → length (Variant.id node.variant) < m
      → add_at hf blank n s p ≡ add_at hf blank m s p
  unfolding add_at
  add_at-fuel zero m s p node e l k = absurd (omega arith)
  add_at-fuel (suc n) zero s p node e l k = absurd (omega arith)
  add_at-fuel (suc n) (suc m) s p node e l k =
      let connected = connect node in
      let same =
        get_parent-same blank (add_at hf blank n) (add_at hf blank m) (place s p connected)
          node.variant
          (λ filled.
            let shorter = placeholder-shorter blank node.variant filled in
            add_at-fuel n m (alloc (place s p connected) (placeholder blank node.variant)) s.fresh
              (new_node (placeholder blank node.variant))
              (found_fresh blank (place s p connected) (placeholder blank node.variant))
              (omega arith) (omega arith)) in
      rw (e, add_at, same) refl

  -- `add` gives the result of any larger fuel: the placeholders end before the fuel does.
  pub add-fuel :
      (n : ℕ) (s : Store N) (p : ℕ) (node : Node N)
      → find p s.heap ≡ some node
      → length (Variant.id node.variant) < n
      → add hf blank s p ≡ add_at hf blank n s p
  unfolding add
  add-fuel n s p node e l =
      rw (e, add)
        (add_at-fuel (suc (length (Variant.id node.variant))) n s p node e (omega arith) l)
