-- ===== src/Store/Delete/Round.antt =====
-- `VariantValueStore::delChildren`: one value, and what the loop over the children leaves alone.
use refer.Base.{
  ℕ, zero, suc, ◌≡◌, refl, ap, ◌∙◌, arith, false, none, some, List, [], ◌∷◌, if◌then◌else◌, list_eq,
  nat_eq, Option-cases, inl, inr,
}
use mathlib.Core.Option.{none-ne-some, some-injective}
use refer.Base.Table.{Table, find, find-erase}
use refer.ValueId.{ValueId}
use refer.Variant
use refer.Variant.{UpdateType}
use refer.MapValue.{Requests}
use refer.Store.{Node, Store}
use refer.Store.Delete.{unhook, announce, cut, del_container, del_value, del_children}
use refer.Store.Delete.Frame.{
  IsBounded, Kept, Kept-trans, Quiet-trans, announce-Quiet, cut-Quiet, del_container-Quiet,
}
use refer.Store.Delete.Names.{names}

-- The store without the ids of the values of a list.
abbrev pub Without {ℓ} : {N : Type ℓ} → Store N → List ℕ → Store N → Type 0
Without s l s' =
    (k : ValueId) → find k s'.ws_map ≡ (if names s.heap l k then none else find k s.ws_map)

module _ {ℓ} {N : Type ℓ} (requests : Requests N) (update : UpdateType) where
  pub del_value-Without :
      (s : Store N) (p : ℕ) (node : Node N)
      → IsBounded s
      → find p s.heap ≡ some node
      → let s' = del_value requests s p node update in
        IsBounded s' × Kept s.heap s'.heap × Without s (p ∷ []) s'
  unfolding del_value unhook names
  del_value-Without s p node b f =
      let s1 = announce (unhook s node) p node update in
      let s2 = del_container requests s1 node update false in
      let q1 = announce-Quiet (unhook s node) p node update b f in
      let q2 = del_container-Quiet requests s1 node update false q1.bounded in
      let q3 = cut-Quiet s2 p q2.bounded in
      let q =
        Quiet-trans (unhook s node) s2 (cut s2 p) (Quiet-trans (unhook s node) s1 s2 q1 q2) q3 in
      (
        q.bounded,
        q.kept,
        λ k.
            ap (find k) q.map
            ∙ find-erase (Variant.id node.variant) k s.ws_map
            ∙ rw (names, f) (ground arith),
      )

  -- Deleting values moves none of them and keeps their ids and children, whatever it takes away.
  pub del_children-Kept :
      (n : ℕ) (s s' : Store N) (children : Table ValueId ℕ)
      → IsBounded s
      → del_children requests n s children update ≡ some s'
      → IsBounded s' × Kept s.heap s'.heap
  unfolding del_children
  del_children-Kept zero s s' children b e = absurd (none-ne-some s' e)
  del_children-Kept (suc n) s s' [] b e =
      rw (← some-injective s s' e) (b, λ p node f. (node, f, (refl, refl)))
  del_children-Kept (suc n) s s' ((key, p) ∷ children) b e = elim (Option-cases (find p s.heap)) [
    | inl z ↦ absurd (none-ne-some s' (rw (del_children, z) at e))
    | inr (node, f) ↦ elim (Option-cases (del_children requests n s node.children update)) [
      | inl z ↦ absurd (none-ne-some s' (rw (del_children, f, z) at e))
      | inr (s1, d) ↦
          let (b1, k1) = del_children-Kept n s s1 node.children b d in
          let (node1, f1, same) = k1 p node f in
          let s2 = del_value requests s1 p node1 update in
          let (b2, k2, w2) = del_value-Without s1 p node1 b1 f1 in
          let (b3, k3) =
            del_children-Kept (suc n) s2 s' children b2 (rw (del_children, f, d, f1) at e) in
          (b3, Kept-trans s.heap s2.heap s'.heap (Kept-trans s.heap s1.heap s2.heap k1 k2) k3)
    ]
  ]
