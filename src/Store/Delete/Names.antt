-- ===== src/Store/Delete/Names.antt =====
-- The ids of the values that a visit of the store finds, and that they stay where ids and children do.
use refer.Base.{
  ℕ, zero, suc, ◌≡◌, refl, arith, Bool, false, ◌||◌, none, some, List, [], ◌∷◌, ◌++◌, list_eq,
  nat_eq, ◌==◌, Option-cases, inl, inr,
}
use mathlib.Core.Option.{none-ne-some, some-injective}
use refer.Base.Table.{Table, find}
use refer.ValueId.{ValueId}
use refer.Variant
use refer.Variant.{UpdateType}
use refer.Store.{Node}
use refer.Store.Visit.{visit_children}
use refer.Store.Delete.Frame.{Kept, Same}

module _ {ℓ} {N : Type ℓ} where
  -- Is this the id of a value of the list?
  unfoldable pub names : Table ℕ (Node N) → List ℕ → ValueId → Bool
  names heap [] k = false
  names heap (p ∷ l) k =
      elim (find p heap) [ none ↦ false | some node ↦ Variant.id node.variant == k ]
      || names heap l k

  pub names-append :
      (heap : Table ℕ (Node N)) (l r : List ℕ) (k : ValueId)
      → names heap (l ++ r) k ≡ (names heap l k || names heap r k)
  unfolding names
  names-append heap [] r k = refl
  names-append heap (p ∷ l) r k = ground (arith, names-append heap l r k)

  -- What a visit of some children found, in the heap before and in one after.
  abbrev Carried : Table ℕ (Node N) → ℕ → Table ValueId ℕ → List ℕ → Table ℕ (Node N) → Type 0
  Carried heap n children l heap' =
      (visit_children heap' n children ≡ some l)
      × ((k : ValueId) → names heap' l k ≡ names heap l k)

  pub names-found :
      (heap : Table ℕ (Node N)) (p : ℕ) (node : Node N) (l : List ℕ) (k : ValueId)
      → find p heap ≡ some node
      → names heap (p ∷ l) k ≡ ((Variant.id node.variant == k) || names heap l k)
  unfolding names
  names-found heap p node l k f = rw (names, f) refl

  pub id-Same :
      (node node' : Node N) → Same node node' → Variant.id node'.variant ≡ Variant.id node.variant
  unfolding Variant.id
  id-Same node node' (c, i) = rw (Variant.id, i) refl

  Carried-child :
      (heap heap' : Table ℕ (Node N)) (n : ℕ) (key : ValueId) (p : ℕ) (node node' : Node N)
      (children : Table ValueId ℕ) (below rest : List ℕ)
      → find p heap ≡ some node
      → find p heap' ≡ some node'
      → Same node node'
      → Carried heap n node.children below heap'
      → Carried heap (suc n) children rest heap'
      → Carried heap (suc n) ((key, p) ∷ children) (p ∷ (below ++ rest)) heap'
  unfolding visit_children
  Carried-child heap heap' n key p node node' children below rest f f' (c, i) (b, nb) (r, nr) = (
    rw (visit_children, f', c, b, r) refl,
    λ k.
        rw
          (
            names-found heap' p node' (below ++ rest) k f',
            names-found heap p node (below ++ rest) k f,
            id-Same node node' (c, i),
            names-append heap' below rest k,
            names-append heap below rest k,
            nb k,
            nr k,
          )
          refl,
  )

  pub carry :
      (heap heap' : Table ℕ (Node N)) (n : ℕ) (children : Table ValueId ℕ) (l : List ℕ)
      → Kept heap heap'
      → visit_children heap n children ≡ some l
      → Carried heap n children l heap'
  unfolding visit_children names
  carry heap heap' zero children l kept e = absurd (none-ne-some l e)
  carry heap heap' (suc n) [] l kept e = rw (← some-injective [] l e) (refl, λ k. refl)
  carry heap heap' (suc n) ((key, p) ∷ children) l kept e = elim (Option-cases (find p heap)) [
    | inl z ↦ absurd (none-ne-some l (rw (visit_children, z) at e))
    | inr (node, f) ↦ elim (Option-cases (visit_children heap n node.children)) [
      | inl z ↦ absurd (none-ne-some l (rw (visit_children, f, z) at e))
      | inr (below, b) ↦ elim (Option-cases (visit_children heap (suc n) children)) [
        | inl z ↦ absurd (none-ne-some l (rw (visit_children, f, b, z) at e))
        | inr (rest, r) ↦
            let (node', f', same) = kept p node f in
            rw (← some-injective (p ∷ (below ++ rest)) l (rw (visit_children, f, b, r) at e)) (
              Carried-child heap heap' n key p node node' children below rest f f' same
                (carry heap heap' n node.children below kept b)
                (carry heap heap' (suc n) children rest kept r))
      ]
    ]
  ]
