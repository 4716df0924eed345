-- ===== src/Store/Delete/Subtree.antt =====
-- `VariantValueStore::del`: which ids are gone after it.
use refer.Base.{
  ℕ, zero, suc, ◌≡◌, refl, ap, ◌∙◌, arith, true, none, some, List, [], ◌∷◌, ◌++◌, if◌then◌else◌,
  list_eq, nat_eq, Option-cases, inl, inr,
}
use mathlib.Core.Option.{none-ne-some, some-injective}
use refer.Base.Table.{Table, find, find-erase}
use refer.ValueId.{ValueId, leaf}
use refer.Variant
use refer.Variant.{UpdateType}
use refer.MapValue.{Requests}
use refer.Store.{Node, Store, get}
use refer.Store.Visit.{visit_children}
use refer.Store.Delete.{unhook, announce, unlink, cut, del_container, del_value, del_children, del}
use refer.Store.Delete.Frame.{
  IsBounded, Kept, Same, Kept-trans, announce-Quiet, cut-ws_map, del_container-Quiet, unlink-ws_map,
}
use refer.Store.Delete.Names.{names, names-append, names-found, id-Same, carry}
use refer.Store.Delete.Round.{Without, del_value-Without}

module _ {ℓ} {N : Type ℓ} (requests : Requests N) (update : UpdateType) where
  -- What `del_children` reaches from a store whose values below these children are `l`.
  abbrev Done : ℕ → Store N → Table ValueId ℕ → List ℕ → Type ℓ
  Done n s children l =
      (s' : Store N) × (del_children requests n s children update ≡ some s')
      × IsBounded s'
      × Kept s.heap s'.heap
      × Without s l s'

  -- One round of the loop, from the values below the child and from the other children.
  Done-child :
      (n : ℕ) (s s1 : Store N) (key : ValueId) (p : ℕ) (node node1 : Node N)
      (children : Table ValueId ℕ) (below rest : List ℕ)
      → find p s.heap ≡ some node
      → del_children requests n s node.children update ≡ some s1
      → Kept s.heap s1.heap
      → Without s below s1
      → find p s1.heap ≡ some node1
      → Same node node1
      → IsBounded s1
      → visit_children s.heap (suc n) children ≡ some rest
      → (visit_children (del_value requests s1 p node1 update).heap (suc n) children ≡ some rest
          → Done (suc n) (del_value requests s1 p node1 update) children rest)
      → Done (suc n) s ((key, p) ∷ children) (p ∷ (below ++ rest))
  unfolding del_children names
  Done-child n s s1 key p node node1 children below rest f d k1 w1 f1 same b1 r ih =
      let s2 = del_value requests s1 p node1 update in
      let (b2, k2, w2) = del_value-Without requests update s1 p node1 b1 f1 in
      let k12 = Kept-trans s.heap s1.heap s2.heap k1 k2 in
      let (r2, n2) = carry s.heap s2.heap (suc n) children rest k12 r in
      let (s3, d3, b3, k3, w3) = ih r2 in
      (
        s3,
        rw (del_children, f, d, f1) d3,
        b3,
        Kept-trans s.heap s2.heap s3.heap k12 k3,
        λ k.
            rw
              (
                w3 k,
                n2 k,
                w2 k,
                names-found s1.heap p node1 [] k f1,
                id-Same node node1 same,
                w1 k,
                names-found s.heap p node (below ++ rest) k f,
                names-append s.heap below rest k,
              )
              (ground arith),
      )

  -- A loop over children whose values are finitely many ends, and takes away the ids of all of them.
  del_children-Done :
      (n : ℕ) (s : Store N) (children : Table ValueId ℕ) (l : List ℕ)
      → IsBounded s
      → visit_children s.heap n children ≡ some l
      → Done n s children l
  unfolding del_children visit_children names
  del_children-Done zero s children l b e = absurd (none-ne-some l e)
  del_children-Done (suc n) s [] l b e =
      rw (← some-injective [] l e) (s, refl, b, (λ p node f. (node, f, (refl, refl))), λ k. refl)
  del_children-Done (suc n) s ((key, p) ∷ children) l b e = elim (Option-cases (find p s.heap)) [
    | inl z ↦ absurd (none-ne-some l (rw (visit_children, z) at e))
    | inr (node, f) ↦ elim (Option-cases (visit_children s.heap n node.children)) [
      | inl z ↦ absurd (none-ne-some l (rw (visit_children, f, z) at e))
      | inr (below, v) ↦ elim (Option-cases (visit_children s.heap (suc n) children)) [
        | inl z ↦ absurd (none-ne-some l (rw (visit_children, f, v, z) at e))
        | inr (rest, r) ↦
            let (s1, d, b1, k1, w1) = del_children-Done n s node.children below b v in
            let (node1, f1, same) = k1 p node f in
            rw (← some-injective (p ∷ (below ++ rest)) l (rw (visit_children, f, v, r) at e)) (
              Done-child n s s1 key p node node1 children below rest f d k1 w1 f1 same b1 r (λ r2.
                del_children-Done (suc n) (del_value requests s1 p node1 update) children rest
                  (del_value-Without requests update s1 p node1 b1 f1).0 r2))
      ]
    ]
  ]

  -- In a store whose addresses are below the next one, `del` of a known id, where the visit of the
  -- values below its value ends, ends and returns true, and the ids that it takes out of the store are
  -- those of the value and of all values below it.
  pub del-get :
      (n : ℕ) (s : Store N) (name : ValueId) (p : ℕ) (node : Node N) (l : List ℕ)
      → IsBounded s
      → get s name ≡ some p
      → find p s.heap ≡ some node
      → visit_children s.heap n node.children ≡ some l
      → (s' : Store N) × (del requests n s name update ≡ some (true, s'))
        × ((k : ValueId) → get s' k ≡ (if names s.heap (p ∷ l) k then none else get s k))
  unfolding del get unhook
  del-get n s name p node l b g f v =
      let (s1, d, b1, k1, w1) = del_children-Done n (unhook s node) node.children l b v in
      let (node1, f1, same) = k1 p node f in
      let s2 = announce s1 p node1 update in
      let q2 = announce-Quiet s1 p node1 update b1 f1 in
      let q3 = del_container-Quiet requests s2 node1 update true q2.bounded in
      let s3 = del_container requests s2 node1 update true in
      (
        cut (unlink s3 node1.parent (leaf name)) p,
        rw (del, g, f, d, f1) refl,
        λ k.
            ap (find k) (cut-ws_map (unlink s3 node1.parent (leaf name)) p)
            ∙ ap (find k) (unlink-ws_map s3 node1.parent (leaf name))
            ∙ ap (find k) q3.map
            ∙ ap (find k) q2.map
            ∙ w1 k
            ∙ rw (find-erase (Variant.id node.variant) k s.ws_map, names-found s.heap p node l k f)
                (ground arith),
      )
