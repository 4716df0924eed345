-- ===== src/Protocol/Notices/Lost.antt =====
-- `ServerProtocolHandler`: subscriptions to single values beside a subscription to everything.
use refer.Base.{
  ℕ, ◌<◌, ◌≡◌, refl, ap, true, false, ◌⊎◌, inl, inr, Option, some, [], ◌∷◌, length, nat_eq,
}
use refer.Base.Call.{Call, returned}
use refer.Base.Table.{find}
use refer.TokenMap
use refer.ValueId.{ValueId}
use refer.Variant
use refer.Variant.{is_local}
use refer.Store.{Node}
use refer.Protocol.{Handler, is_empty, token_of, copy_store, connect_all, disconnect_listeners}
use refer.Protocol.Message.{ClientMessage}
use refer.Protocol.Filters.{bind-returned, returned-injective}
use refer.Protocol.Subscribe.{vs_sync}
use refer.Protocol.Notices.{
  is_parent_subscribed, changed_message, removed_message, on_value_added, end_subscription,
  on_value_removed,
}
use refer.Protocol.Notices.Parents.{
  IsClosed, IsUnder, child_of, below, IsCovered, everything, itself, parents,
  on_value_added-IsCovered,
}

module _ {ℓ} {N : Type ℓ} where
  -- Without subscriptions to single values every local addition is sent.
  on_value_added-open :
      (n : ℕ) (h : Handler N) (p : ℕ) (node : Node N)
      → is_empty h.subscriptions ≡ true
      → find p h.store.heap ≡ some node
      → is_local node.variant.update_type ≡ true
      → (h' : Handler N) × (on_value_added n h p ≡ returned h')
        × (h'.sent ≡ some (changed_message (Variant.get node.variant ∷ [])) ∷ h.sent)
  unfolding on_value_added is_parent_subscribed
  on_value_added-open n h p node e f here = (
    record h { sent = some (changed_message (Variant.get node.variant ∷ [])) ∷ h.sent },
    rw (on_value_added, f, is_parent_subscribed, e, here) refl,
    refl,
  )

  -- A client with a subscription to one value alone, whose value is removed, is told of every value that
  -- is then added by a local change, whatever its id: no subscription is left, which counts as a
  -- subscription to everything, and the listener of additions stays as it was.
  pub on_value_removed-opens :
      (n : ℕ) (h : Handler N) (p q : ℕ) (gone new : Node N)
      → find p h.store.heap ≡ some gone
      → is_empty h.subscriptions ≡ false
      → TokenMap.has h.subscriptions (token_of gone) ≡ true
      → TokenMap.remove h.subscriptions (token_of gone) ≡ []
      → find q h.store.heap ≡ some new
      → is_local new.variant.update_type ≡ true
      → (h1 : Handler N) × (h2 : Handler N) × (on_value_removed h p ≡ returned h1)
        × (h1.listeners.added ≡ h.listeners.added)
        × (on_value_added n h1 q ≡ returned h2)
        × (h2.sent ≡ some (changed_message (Variant.get new.variant ∷ [])) ∷ h1.sent)
  unfolding on_value_removed end_subscription
  on_value_removed-opens n h p q gone new f some_left t last g here =
      let h1 = record h {
        subscriptions = TokenMap.remove h.subscriptions (token_of gone);
        listeners = record h.listeners { removed = false };
        sent = some (removed_message gone) ∷ h.sent;
      } in
      let (h2, e, s) = on_value_added-open n h1 q new (rw last refl) g here in
      (h1, h2, rw (on_value_removed, f, end_subscription, some_left, t, last) refl, refl, e, s)

  under-listeners :
      (h : Handler N) {path : ValueId}
      → IsUnder (connect_all (disconnect_listeners h)) path
      → IsUnder h path
  under-listeners h (child_of q above n g f t) = child_of q above n g f t
  under-listeners h (below q n g u) = below q n g (under-listeners h u)

  IsCovered-listeners :
      (h : Handler N) (node : Node N)
      → IsCovered (connect_all (disconnect_listeners h)) node
      → IsCovered h node
  IsCovered-listeners h node (everything e) = everything e
  IsCovered-listeners h node (itself t) = itself t
  IsCovered-listeners h node (parents u) = parents (under-listeners h u)

  quiet :
      (h : Handler N) (node : Node N) {c : Call (Handler N)} {notice : Option (ClientMessage N)}
      → (h' : Handler N) × (c ≡ returned h')
        × ((IsCovered (connect_all (disconnect_listeners h)) node × (h'.sent ≡ notice ∷ h.sent))
            ⊎ ((¬ IsCovered (connect_all (disconnect_listeners h)) node) × (h'.sent ≡ h.sent)))
      → ¬ IsCovered h node
      → (h' : Handler N) × (c ≡ returned h') × (h'.sent ≡ h.sent)
  quiet h node (h', e, inl (covered, s)) apart = absurd (apart (IsCovered-listeners h node covered))
  quiet h node (h', e, inr (uncovered, s)) apart = (h', e, s)

  -- In a store where every id leads to a value, a client that asks to sync everything after it had
  -- subscribed to single values is not told of a new value, added by a local change, that those
  -- subscriptions do not cover.
  pub vs_sync-misses :
      (n : ℕ) (h h' : Handler N) (answer : Option (ClientMessage N)) (p : ℕ) (node : Node N)
      → vs_sync n h [] ≡ returned (answer, h')
      → IsClosed h.store
      → find p h.store.heap ≡ some node
      → length (Variant.id node.variant) < n
      → is_local node.variant.update_type ≡ true
      → ¬ IsCovered h node
      → (h'.listeners.added ≡ true)
        × ((h'' : Handler N) × (on_value_added n h' p ≡ returned h'') × (h''.sent ≡ h'.sent))
  unfolding vs_sync
  vs_sync-misses n h h' answer p node e closed f l here apart =
      let (values, c, e1) = bind-returned (copy_store n h.store) _ (answer, h') e in
      let z =
        ap (λ (x : Option (ClientMessage N) × Handler N). x.1)
          (returned-injective _ (answer, h') e1) in
      rw (← z) (
        refl,
        quiet h node
            (on_value_added-IsCovered n (connect_all (disconnect_listeners h)) p node closed f l
              here)
            apart,
      )
