-- ===== src/Store/Destroy/Endless.antt =====
-- The destructor of the store, when a child of the root has no id.
use refer.Base.{
  ℕ, zero, suc, ◌≡◌, refl, ap, ◌∙◌, none, some, [], list_eq, nat_eq, Option-cases, inl, inr,
}
use refer.Base.Table.{find}
use refer.ValueId.{leaf}
use refer.Variant
use refer.Variant.{UpdateType, local, del_child, get_first}
use refer.MapValue.{Requests}
use refer.Store.{Node, Store}
use refer.Store.Delete.{unlink, del_value, del_children}
use refer.Store.Delete.Frame.{IsBounded, Kept, Kept-trans, unlink-absent}
use refer.Store.Delete.Names.{id-Same}
use refer.Store.Delete.Round.{del_value-Without, del_children-Kept}
use refer.Store.Destroy.{tear_down, destroy}

-- The first child of the root has an empty id, and the root has no child under an empty name.
pub record IsStuck {ℓ} {N : Type ℓ} (s : Store N) : Type ℓ where
  pub root : Node N
  pub first : ℕ
  pub child : Node N
  pub bounded : IsBounded s
  pub at_root : find 0 s.heap ≡ some root
  pub at_first : get_first root.children ≡ some first
  pub at_child : find first s.heap ≡ some child
  pub nameless : Variant.id child.variant ≡ []
  pub not_linked : find (leaf []) root.children ≡ none

module _ {ℓ} {N : Type ℓ} (requests : Requests N) where
  -- A round of the loop keeps the store stuck.
  Kept-IsStuck : (s s' : Store N) → IsStuck s → IsBounded s' → Kept s.heap s'.heap → IsStuck s'
  Kept-IsStuck s s' h b k =
      let (root, at_root, (same_children, i)) = k 0 h.root h.at_root in
      let (child, at_child, same) = k h.first h.child h.at_child in
      record {
        root = root;
        first = h.first;
        child = child;
        bounded = b;
        at_root = at_root;
        at_first = ap get_first same_children ∙ h.at_first;
        at_child = at_child;
        nameless = id-Same h.child child same ∙ h.nameless;
        not_linked = ap (find (leaf [])) same_children ∙ h.not_linked;
      }

  tear_down-IsStuck : (n : ℕ) (s : Store N) → IsStuck s → tear_down requests n s ≡ none
  unfolding tear_down
  tear_down-IsStuck zero s h = refl
  tear_down-IsStuck (suc n) s h =
      elim (Option-cases (del_children requests n s h.child.children local)) [
        | inl z ↦ rw (tear_down, h.at_root, h.at_first, h.at_child, z) refl
        | inr (s1, d) ↦
            let (b1, k1) = del_children-Kept requests local n s s1 h.child.children h.bounded d in
            let (child1, f1, same) = k1 h.first h.child h.at_child in
            let s2 = del_value requests s1 h.first child1 local in
            let (b2, k2, w2) = del_value-Without requests local s1 h.first child1 b1 f1 in
            let k = Kept-trans s.heap s1.heap s2.heap k1 k2 in
            let (root2, at_root, (same_children, i)) = k 0 h.root h.at_root in
            let q =
              unlink-absent s2 0 root2 [] b2 at_root
                (ap (find (leaf [])) same_children ∙ h.not_linked) in
            rw (tear_down, h.at_root, h.at_first, h.at_child, d, f1, h.nameless)
              (tear_down-IsStuck n (unlink s2 (some 0) []) (
                Kept-IsStuck s (unlink s2 (some 0) []) h q.bounded
                  (Kept-trans s.heap s2.heap (unlink s2 (some 0) []).heap k q.kept)))
      ]

  -- The destructor of a store whose first child of the root has an empty id, with no child of the root
  -- under the empty name, does not end: `delChild` finds nothing to delete, and the loop meets the same
  -- child again.
  pub destroy_endless : (n : ℕ) (s : Store N) → IsStuck s → destroy requests n s ≡ none
  unfolding destroy
  destroy_endless n s h = rw (destroy, tear_down-IsStuck n s h) refl
