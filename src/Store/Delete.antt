-- ===== src/Store/Delete.antt =====
-- `VariantValueStore::del` and what it calls. The children of a value are copied before the loop over
-- them, and a value that is deleted leaves the children of its parent only by the call of `delChild`.
pub mod Frame
pub mod Names
pub mod Round
pub mod Subtree
use refer.Base.{
  ℕ, zero, suc, Bool, true, false, ◌&&◌, Option, none, some, List, [], ◌∷◌, if◌then◌else◌, list_eq,
  nat_eq,
}
use refer.Base.Table.{Table, find, put, erase}
use refer.HashToken.{from_transport}
use refer.ValueId.{ValueId, leaf}
use refer.Bucketizer
use refer.ValueData.{type_eq, container_type, add_to_type, remove_from_type}
use refer.Variant
use refer.Variant.{Variant, UpdateType, del_child}
use refer.MapValue.{Requests}
use refer.Store.{
  Node, Store, Event, added, changed, removed, asked_to_add, asked_to_remove, new_node, place,
  alloc, get,
}

module _ {ℓ} {N : Type ℓ} where
  -- `signal` of the value `node` with the value at `p`, `VariantMapValue::signal` included.
  abbrev pub signal_event : Node N → ℕ → Node N → List Event
  signal_event node p sent =
      let asks_to_add = node.is_map && type_eq sent.variant.value.type add_to_type in
      let asks_to_remove = node.is_map && type_eq sent.variant.value.type remove_from_type in
      if asks_to_add
      then (if node.notifies_requests then asked_to_add p ∷ [] else [])
      else (if asks_to_remove
          then (if node.notifies_requests then asked_to_remove p ∷ [] else [])
          else (if node.notifies then changed p ∷ [] else []))

  abbrev pub emit : Store N → List Event → Store N
  emit s [] = s
  emit s (e ∷ es) = record s { events = e ∷ s.events }

  -- `disconnect`: the dispatcher and the listeners are not part of the model.
  abbrev pub disconnect : Node N → Node N
  disconnect node = record node { parent = none }

  -- The lines of `del` and `delChildren` that take a value out of the maps of the store.
  pub unhook : Store N → Node N → Store N
  unhook s node = record s {
    bucketizer = Bucketizer.remove s.bucketizer (from_transport node.variant.value.hash_token);
    ws_map = erase (Variant.id node.variant) s.ws_map;
  }

  -- `setUpdateType`, and the signal that the value at `p` is removed.
  pub announce : Store N → ℕ → Node N → UpdateType → Store N
  announce s p node update =
      let marked = record node { variant = record node.variant { update_type = update } } in
      emit (place s p marked) (removed p ∷ [])

  -- `delChild` of the value at `q`, once the child is looked up.
  pub drop_child : Store N → ℕ → Node N → Table ValueId ℕ × Option ℕ → Store N
  drop_child s q above (children, none) = place s q (record above { children = children })
  drop_child s q above (children, some c) =
      let s' = place s q (record above { children = children }) in
      elim (find c s'.heap) [ none ↦ s' | some node ↦ place s' c (disconnect node) ]

  -- The call of `delChild` of the parent at `q`.
  pub unlink : Store N → Option ℕ → ValueId → Store N
  unlink s none name = s
  unlink s (some q) name = elim (find q s.heap) [
    | none ↦ s
    | some above ↦ drop_child s q above (del_child above.children name)
  ]

  -- The call of `disconnect` at the end of `del` and `delChildren`.
  pub cut : Store N → ℕ → Store N
  cut s p = elim (find p s.heap) [ none ↦ s | some node ↦ place s p (disconnect node) ]

  -- The signals of the container at `q` with a request in a shared pointer.
  pub ask : Store N → ℕ → Node N → Variant N → Bool → Store N
  ask s q above request notify =
      let s' = emit (alloc s request) (signal_event above s.fresh (new_node request)) in
      if notify then emit s' (signal_event above q above) else s'

module _ {ℓ} {N : Type ℓ} (requests : Requests N) where
  -- The part of `delContainer` for a parent that is the container at `q`.
  pub request_removal : Store N → ℕ → Node N → Variant N → UpdateType → Bool → Store N
  request_removal s q above child update notify =
      elim (requests.make_remove_from above.variant (leaf (Variant.id child)) update) [
        | none ↦ s
        | some request ↦ ask s q above request notify
      ]

  -- `delContainer` of a value with this parent.
  pub del_container : Store N → Node N → UpdateType → Bool → Store N
  del_container s node update notify = elim node.parent [
    | none ↦ s
    | some q ↦ elim (find q s.heap) [
      | none ↦ s
      | some above ↦
          if type_eq above.variant.value.type container_type
          then request_removal s q above node.variant update notify
          else s
    ]
  ]

  -- `delChildren` behind the loop over the children.
  pub del_value : Store N → ℕ → Node N → UpdateType → Store N
  del_value s p node update =
      let announced = announce (unhook s node) p node update in
      cut (del_container announced node update false) p

  -- The loop over the children of a value, with `delChildren` of each.
  pub del_children : ℕ → Store N → Table ValueId ℕ → UpdateType → Option (Store N)
  del_children zero s children update = none
  del_children (suc n) s [] update = some s
  del_children (suc n) s ((key, p) ∷ children) update = elim (find p s.heap) [
    | none ↦ none
    | some node ↦ elim (del_children n s node.children update) [
      | none ↦ none
      | some s1 ↦ elim (find p s1.heap) [
        | none ↦ none
        | some node1 ↦ del_children (suc n) (del_value s1 p node1 update) children update
      ]
    ]
  ]

  -- `del`, whose call of `delChild` takes the leaf of the leaf of the id.
  pub del : ℕ → Store N → ValueId → UpdateType → Option (Bool × Store N)
  del n s name update = elim (get s name) [
    | none ↦ some (false, s)
    | some p ↦ elim (find p s.heap) [
      | none ↦ none
      | some node ↦ elim (del_children n (unhook s node) node.children update) [
        | none ↦ none
        | some s1 ↦ elim (find p s1.heap) [
          | none ↦ none
          | some node1 ↦
              let asked = del_container (announce s1 p node1 update) node1 update true in
              some (true, cut (unlink asked node1.parent (leaf name)) p)
        ]
      ]
    ]
  ]
