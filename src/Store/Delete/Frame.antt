-- ===== src/Store/Delete/Frame.antt =====
-- What the calls below `VariantValueStore::del` leave alone: the ids and the children of the values on
-- the heap, and the map of the store.
use refer.Base.{
  ℕ, suc, ◌<◌, ◌≡◌, refl, sym, ap, ◌∙◌, arith, Bool, Option, none, some, List, [], ◌∷◌, list_eq,
  nat_eq, eqb_iff, ◌==◌, Bool-cases, Option-cases, inl, inr,
}
use mathlib.Core.Option.{some-injective}
use refer.Base.Table.{Table, find, put, find-put}
use refer.ValueId.{ValueId, leaf}
use refer.ValueData.{type_eq, container_type}
use refer.Variant
use refer.Variant.{Variant, UpdateType, del_child}
use refer.Variant.Children.{del_child-missing}
use refer.MapValue.{Requests}
use refer.Store.{Node, Store, Event, removed, new_node, place, alloc}
use refer.Store.Delete.{
  signal_event, emit, disconnect, announce, drop_child, ask, drop_child, unlink, cut,
  request_removal, del_container,
}

module _ {ℓ} {N : Type ℓ} where
  -- Every value is below the next address.
  abbrev pub IsBounded : Store N → Type ℓ
  IsBounded s = (p : ℕ) (node : Node N) → find p s.heap ≡ some node → p < s.fresh

  -- A value with the same id and the same children.
  abbrev pub Same : Node N → Node N → Type 0
  Same node node' =
      (node'.children ≡ node.children) × (node'.variant.value_id ≡ node.variant.value_id)

  abbrev pub Kept : Table ℕ (Node N) → Table ℕ (Node N) → Type ℓ
  Kept heap heap' =
      (p : ℕ) (node : Node N)
      → find p heap ≡ some node
      → (node' : Node N) × (find p heap' ≡ some node') × Same node node'

  pub record Quiet (s s' : Store N) : Type ℓ where
    pub bounded : IsBounded s'
    pub kept : Kept s.heap s'.heap
    pub map : s'.ws_map ≡ s.ws_map

  pub Kept-trans : (h h1 h2 : Table ℕ (Node N)) → Kept h h1 → Kept h1 h2 → Kept h h2
  Kept-trans h h1 h2 k k' p node f =
      let (n1, f1, (c1, i1)) = k p node f in
      let (n2, f2, (c2, i2)) = k' p n1 f1 in (n2, f2, (c2 ∙ c1, i2 ∙ i1))

  Quiet-refl : (s : Store N) → IsBounded s → Quiet s s
  Quiet-refl s b = record { bounded = b; kept = λ p node f. (node, f, (refl, refl)); map = refl }

  pub Quiet-trans : (s s1 s2 : Store N) → Quiet s s1 → Quiet s1 s2 → Quiet s s2
  Quiet-trans s s1 s2 q q' = record {
    bounded = q'.bounded;
    kept = Kept-trans s.heap s1.heap s2.heap q.kept q'.kept;
    map = q'.map ∙ q.map;
  }

  put-Kept :
      (heap : Table ℕ (Node N)) (p : ℕ) (old new : Node N)
      → find p heap ≡ some old
      → Same old new
      → Kept heap (put p new heap)
  put-Kept heap p old new f same q node g = elim (Bool-cases (p == q)) [
    | inl e ↦
        let at_q = ap (λ (i : ℕ). find i heap) ((eqb_iff p q).0 e) in
        let is_old = some-injective old node (sym f ∙ at_q ∙ g) in
        (new, find-put p q new heap ∙ rw e refl, rw is_old at same)
    | inr e ↦ (node, find-put p q new heap ∙ rw e g, (refl, refl))
  ]

  put-bounded :
      (heap : Table ℕ (Node N)) (p n : ℕ) (new : Node N)
      → p < n
      → ((q : ℕ) (node : Node N) → find q heap ≡ some node → q < n)
      → (q : ℕ) (node : Node N) → find q (put p new heap) ≡ some node
      → q < n
  put-bounded heap p n new l b q node g = elim (Bool-cases (p == q)) [
    | inl e ↦ let same : p ≡ q = (eqb_iff p q).0 e in omega arith
    | inr e ↦ b q node (rw (find-put p q new heap, e) at g)
  ]

  place-Quiet :
      (s : Store N) (p : ℕ) (old new : Node N)
      → IsBounded s
      → find p s.heap ≡ some old
      → Same old new
      → Quiet s (place s p new)
  place-Quiet s p old new b f same = record {
    bounded = put-bounded s.heap p s.fresh new (b p old f) b;
    kept = put-Kept s.heap p old new f same;
    map = refl;
  }

  alloc-Quiet : (s : Store N) (v : Variant N) → IsBounded s → Quiet s (alloc s v)
  alloc-Quiet s v b = record {
    bounded =
        put-bounded s.heap s.fresh (suc s.fresh) (new_node v) (omega arith)
          (λ q node g. let l = b q node g in omega arith);
    kept = λ q node g.
        let l = b q node g in
        (
          node,
          find-put s.fresh q (new_node v) s.heap ∙ ground (arith, eqb_iff s.fresh q),
          (refl, refl),
        );
    map = refl;
  }

  emit-Quiet : (s : Store N) (es : List Event) → IsBounded s → Quiet s (emit s es)
  emit-Quiet s [] b = Quiet-refl s b
  emit-Quiet s (e ∷ es) b = record {
    bounded = b;
    kept = λ p node f. (node, f, (refl, refl));
    map = refl;
  }

  pub announce-Quiet :
      (s : Store N) (p : ℕ) (node : Node N) (update : UpdateType)
      → IsBounded s
      → find p s.heap ≡ some node
      → Quiet s (announce s p node update)
  unfolding announce
  announce-Quiet s p node update b f =
      let marked = record node { variant = record node.variant { update_type = update } } in
      let q = place-Quiet s p node marked b f (refl, refl) in
      Quiet-trans s (place s p marked) _ q
        (emit-Quiet (place s p marked) (removed p ∷ []) q.bounded)

  pub cut-Quiet : (s : Store N) (p : ℕ) → IsBounded s → Quiet s (cut s p)
  unfolding cut
  cut-Quiet s p b = elim (Option-cases (find p s.heap)) [
    | inl z ↦ rw (cut, z) (Quiet-refl s b)
    | inr (node, f) ↦ rw (cut, f) (place-Quiet s p node (disconnect node) b f (refl, refl))
  ]

  ask-Quiet :
      (s : Store N) (q : ℕ) (above : Node N) (request : Variant N) (notify : Bool)
      → IsBounded s
      → Quiet s (ask s q above request notify)
  unfolding ask
  ask-Quiet s q above request notify b =
      let es = signal_event above s.fresh (new_node request) in
      let made = alloc-Quiet s request b in
      let sent = emit-Quiet (alloc s request) es made.bounded in
      let one = Quiet-trans s (alloc s request) (emit (alloc s request) es) made sent in
      elim (Bool-cases notify) [
        | inl y ↦
            rw (ask, y)
              (Quiet-trans s (emit (alloc s request) es) _ one
                (emit-Quiet (emit (alloc s request) es) (signal_event above q above) one.bounded))
        | inr n ↦ rw (ask, n) one
      ]

  pub cut-ws_map : (s : Store N) (p : ℕ) → (cut s p).ws_map ≡ s.ws_map
  unfolding cut
  cut-ws_map s p = ground arith

  -- `unlink` changes the heap only.
  pub unlink-ws_map :
      (s : Store N) (above : Option ℕ) (name : ValueId) → (unlink s above name).ws_map ≡ s.ws_map
  unfolding unlink drop_child
  unlink-ws_map s none name = refl
  unlink-ws_map s (some q) name = ground arith

  unlink_found :
      (s : Store N) (q : ℕ) (above : Node N) (name : ValueId)
      → find q s.heap ≡ some above
      → unlink s (some q) name ≡ drop_child s q above (del_child above.children name)
  unfolding unlink
  unlink_found s q above name f = rw (unlink, f) refl

  unlink_absent_at :
      (s : Store N) (q : ℕ) (above : Node N) (name : ValueId)
      → find q s.heap ≡ some above
      → find (leaf name) above.children ≡ none
      → unlink s (some q) name ≡ place s q above
  unfolding drop_child
  unlink_absent_at s q above name f z =
      unlink_found s q above name f
      ∙ ap (drop_child s q above) (del_child-missing above.children name z)

  -- Without a child under the leaf of the name, `unlink` changes nothing.
  pub unlink-absent :
      (s : Store N) (q : ℕ) (above : Node N) (name : ValueId)
      → IsBounded s
      → find q s.heap ≡ some above
      → find (leaf name) above.children ≡ none
      → Quiet s (unlink s (some q) name)
  unlink-absent s q above name b f z =
      rw (unlink_absent_at s q above name f z) (place-Quiet s q above above b f (refl, refl))

module _ {ℓ} {N : Type ℓ} (requests : Requests N) where
  request_removal-Quiet :
      (s : Store N) (q : ℕ) (above : Node N) (child : Variant N) (update : UpdateType)
      (notify : Bool)
      → IsBounded s
      → Quiet s (request_removal requests s q above child update notify)
  unfolding request_removal
  request_removal-Quiet s q above child update notify b =
      elim (Option-cases
        (requests.make_remove_from above.variant (leaf (Variant.id child)) update)) [
          | inl z ↦ rw (request_removal, z) (Quiet-refl s b)
          | inr (request, z) ↦ rw (request_removal, z) (ask-Quiet s q above request notify b)
        ]

  pub del_container-Quiet :
      (s : Store N) (node : Node N) (update : UpdateType) (notify : Bool)
      → IsBounded s
      → Quiet s (del_container requests s node update notify)
  unfolding del_container
  del_container-Quiet s node update notify b = elim (Option-cases node.parent) [
    | inl z ↦ rw (del_container, z) (Quiet-refl s b)
    | inr (q, e) ↦ elim (Option-cases (find q s.heap)) [
      | inl z ↦ rw (del_container, e, z) (Quiet-refl s b)
      | inr (above, f) ↦ elim (Bool-cases (type_eq above.variant.value.type container_type)) [
        | inl y ↦
            rw (del_container, e, f, y)
              (request_removal-Quiet s q above node.variant update notify b)
        | inr y ↦ rw (del_container, e, f, y) (Quiet-refl s b)
      ]
    ]
  ]
