-- ===== src/Protocol/Notices.antt =====
-- The slots of `ServerProtocolHandler` for the signals of the store and of single values.
pub mod Parents
pub mod Lost
use refer.Base.{
  ℕ, zero, suc, Bool, true, false, not, ◌&&◌, ◌||◌, Option, none, some, List, [], ◌∷◌, ◌++◌,
  if◌then◌else◌, list_eq, nat_eq,
}
use refer.Base.Call.{Call, returned, running, ◌>>=◌}
use refer.Text.{Text}
use refer.HashToken.{HashToken}
use refer.TokenMap
use refer.ValueId
use refer.ValueId.{ValueId, value_id, parent, concat}
use refer.ValueData.{Value, type_eq, add_to_type, remove_from_type}
use refer.Variant
use refer.Variant.{Variant, is_local}
use refer.Store
use refer.Store.{Node, Store}
use refer.Protocol.{Handler, Outside, is_empty, send, node_at, token_of, values_at, below}
use refer.Protocol.Message.{ClientMessage, ValueRemoved, new_message}

-- The key of a request; a message without one gives the empty text.
abbrev request_key : Option (Text × Text) → Text
request_key none = []
request_key (some (key, value)) = key

module _ {ℓ} {N : Type ℓ} where
  -- The loop of `isParentSubscribed` from the id `path`, for the value at `p` with this token; each
  -- level takes one unit of fuel.
  pub parent_loop : ℕ → Handler N → ℕ → HashToken → ValueId → Call (Bool × Handler N)
  parent_loop zero h p token path = running
  parent_loop (suc n) h p token path =
      let rest = parent_loop n h p token (parent path) in
      if ValueId.is_empty path
      then returned (false, h)
      else elim (Store.get h.store (value_id (parent path))) [
        | none ↦ returned (false, h)
        | some q ↦ do
          above ← node_at h.store q
          if TokenMap.has h.subscriptions (token_of above)
              then returned
                  (true, record h { subscriptions = (TokenMap.insert h.subscriptions token p).1 })
              else rest
      ]

  -- `isParentSubscribed`
  pub is_parent_subscribed : ℕ → Handler N → ℕ → Call (Bool × Handler N)
  is_parent_subscribed n h p = do
    node ← node_at h.store p
    if is_empty h.subscriptions || TokenMap.has h.subscriptions (token_of node)
        then returned (true, h)
        else parent_loop n h p (token_of node) (Variant.id node.variant)

  abbrev pub changed_message : List (Value N) → ClientMessage N
  changed_message values = record new_message { value_changed = some values }

  -- `onValueAdded`
  pub on_value_added : ℕ → Handler N → ℕ → Call (Handler N)
  on_value_added n h p = do
    node ← node_at h.store p
    (subscribed, h') ← is_parent_subscribed n h p
    returned (
        if not subscribed || not (is_local node.variant.update_type)
        then h'
        else send (some (changed_message (Variant.get node.variant ∷ []))) h')

  -- `onValueChanged`
  on_value_changed : Handler N → ℕ → Call (Handler N)
  on_value_changed h p = do
    node ← node_at h.store p
    let type = node.variant.value.type
    returned (
        if type_eq type add_to_type || type_eq type remove_from_type
        then h
        else send (some (changed_message (Variant.get node.variant ∷ []))) h)

  -- The first block of `onValueRemoved` and `onValueRemoveFromContainer`: the subscription of a removed
  -- value ends, and none says that the value is not subscribed to.
  pub end_subscription : Handler N → HashToken → Option (Handler N)
  end_subscription h token =
      let left = TokenMap.remove h.subscriptions token in
      if is_empty h.subscriptions
      then some h
      else (if not (TokenMap.has h.subscriptions token)
          then none
          else some (record h {
            subscriptions = left;
            listeners =
                if is_empty left then record h.listeners { removed = false } else h.listeners;
          }))

  abbrev pub removed_message : Node N → ClientMessage N
  removed_message node = record new_message {
    value_removed = some (record {
      ids = Variant.id node.variant ∷ [];
      hash_tokens = node.variant.value.hash_token ∷ [];
    });
  }

  -- `onValueRemoved`
  pub on_value_removed : Handler N → ℕ → Call (Handler N)
  on_value_removed h p = do
    node ← node_at h.store p
    returned (elim (end_subscription h (token_of node)) [
      | none ↦ h
      | some h' ↦ send (some (removed_message node)) h'
    ])

  -- `onValueRemoveFromContainer`
  on_remove_from_container : Handler N → ℕ → Call (Handler N)
  on_remove_from_container h p = do
    node ← node_at h.store p
    returned (elim (end_subscription h (token_of node)) [
      | none ↦ h
      | some h' ↦ send (some (changed_message (Variant.get node.variant ∷ []))) h'
    ])

  -- The part of `onValueAddToContainer` behind the test of the subscription.
  announce_added : ℕ → Handler N → ℕ → Call (Handler N)
  announce_added n h p = do
    node ← node_at h.store p
    let name = Variant.id node.variant
    let key = request_key node.variant.value.add_to_container
    elim (Store.get h.store (concat name key)) [
      | none ↦ returned h
      | some c ↦ do
        ps ← below n h.store c
        values ← values_at h.store (c ∷ ps)
        elim (Store.get h.store name) [
          | none ↦ returned h
          | some q ↦ do
            self ← node_at h.store q
            let request = Variant.get node.variant ∷ Variant.get self.variant ∷ []
            returned (send (some (changed_message (values ++ request))) h)
        ]
    ]

  -- `onValueAddToContainer`
  pub on_add_to_container : ℕ → Handler N → ℕ → Call (Handler N)
  on_add_to_container n h p = do
    node ← node_at h.store p
    if not (type_eq node.variant.value.type add_to_type) then returned h else (do
      (subscribed, h') ← is_parent_subscribed n h p
      if subscribed then announce_added n h' p else returned h')
