-- ===== src/Store/Visit/Finite.antt =====
-- `VariantValueVisitor::visitChildren`: the visits of the values below a value whose descendants are
-- finitely many.
use refer.Base.{
  ℕ, zero, suc, ◌+◌, ◌≡◌, ◌↔◌, refl, arith, some, List, [], ◌∷◌, ◌++◌, list_eq, nat_eq,
  Option-cases, inl, inr,
}
use mathlib.Core.Option.{none-ne-some, some-injective}
use refer.Base.Table.{Table, find}
use refer.ValueId.{ValueId}
use refer.Store.{Node}
use refer.Store.Visit.{visit_children}

module _ {ℓ} {N : Type ℓ} (heap : Table ℕ (Node N)) where
  -- The values below these children, in the order that each comes before those below it and a child
  -- with all that is below it before the next.
  pub data Below : Table ValueId ℕ → List ℕ → Type ℓ where
    nothing : Below [] []
    child :
        {children : Table ValueId ℕ} (key : ValueId) (p : ℕ) (node : Node N) (below rest : List ℕ)
        → find p heap ≡ some node
        → Below node.children below
        → Below children rest
        → Below ((key, p) ∷ children) (p ∷ (below ++ rest))

  -- One round of the loop.
  visit_step :
      (n : ℕ) (key : ValueId) (p : ℕ) (node : Node N) (children : Table ValueId ℕ)
      (below rest : List ℕ)
      → find p heap ≡ some node
      → visit_children heap n node.children ≡ some below
      → visit_children heap (suc n) children ≡ some rest
      → visit_children heap (suc n) ((key, p) ∷ children) ≡ some (p ∷ (below ++ rest))
  unfolding visit_children
  visit_step n key p node children below rest f b r = rw (visit_children, f, b, r) refl

  visit_more :
      {children : Table ValueId ℕ} {l : List ℕ}
      → Below children l
      → (n : ℕ) × ((k : ℕ) → visit_children heap (suc (n + k)) children ≡ some l)
  unfolding visit_children
  visit_more nothing = (0, λ k. refl)
  visit_more (child {children} key p node below rest f b r) =
      let (x, hx) = visit_more b in
      let (y, hy) = visit_more r in
      (
        suc (x + y),
        λ k.
            let ex : suc (x + (y + k)) ≡ suc (x + y) + k = omega arith in
            let ey : suc (y + (suc x + k)) ≡ suc (suc (x + y) + k) = omega arith in
            visit_step (suc (x + y) + k) key p node children below rest f (rw ex at (hx (y + k)))
              (rw ey at (hy (suc x + k))),
      )

  visit-Below :
      (n : ℕ) (children : Table ValueId ℕ) (l : List ℕ)
      → visit_children heap n children ≡ some l
      → Below children l
  unfolding visit_children
  visit-Below zero children l e = absurd (none-ne-some l e)
  visit-Below (suc n) [] l e = rw (← some-injective [] l e) nothing
  visit-Below (suc n) ((key, p) ∷ children) l e = elim (Option-cases (find p heap)) [
    | inl z ↦ absurd (none-ne-some l (rw (visit_children, z) at e))
    | inr (node, f) ↦ elim (Option-cases (visit_children heap n node.children)) [
      | inl z ↦ absurd (none-ne-some l (rw (visit_children, f, z) at e))
      | inr (below, b) ↦ elim (Option-cases (visit_children heap (suc n) children)) [
        | inl z ↦ absurd (none-ne-some l (rw (visit_children, f, b, z) at e))
        | inr (rest, r) ↦
            rw (← some-injective (p ∷ (below ++ rest)) l (rw (visit_children, f, b, r) at e)) (
              child key p node below rest f (visit-Below n node.children below b)
                (visit-Below (suc n) children rest r))
      ]
    ]
  ]

  -- With any fuel from some number on, a visit calls its function with the values of a list in order,
  -- exactly if these are the values below in finitely many levels, each before those below it.
  pub visit_children-Below :
      (children : Table ValueId ℕ) (l : List ℕ)
      → ((n : ℕ) × ((k : ℕ) → visit_children heap (suc (n + k)) children ≡ some l))
        ↔ Below children l
  visit_children-Below children l =
      (λ v. visit-Below (suc (v.0 + 0)) children l (v.1 0), λ b. visit_more b)
