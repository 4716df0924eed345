-- ===== src/Protocol.antt =====
-- company_ref_asio_server_protocol_handler.{h,cpp}: `ServerProtocolHandler`, which answers the requests
-- of a client on the store and notifies it of changes. A request is handled in one thread of the store;
-- the signals of the store come later, by the calls of `Notices`. A subscription is the address of the
-- value whose signal it is connected to.
pub mod Message
pub mod Subscribe
pub mod Answers
pub mod Object
pub mod Notices
pub mod Changes
pub mod Dispatch
pub mod Filters
use refer.Base.{
  ℕ, Bool, true, false, not, ◌&&◌, ◌||◌, Option, none, some, List, [], ◌∷◌, if◌then◌else◌, list_eq,
  nat_eq,
}
use refer.Base.Call.{Call, returned, thrown, running, ◌>>=◌, or_running, or_thrown}
use refer.Base.Table.{find}
use refer.Text.{Text}
use refer.HashToken.{HashToken, from_transport}
use refer.TokenMap
use refer.TokenMap.{TokenMap}
use refer.ValueId.{ValueId, value_id}
use refer.ValueData.{Value, Messages}
use refer.Variant
use refer.Variant.{Variant, UpdateType}
use refer.Variant.FromText.{Texts}
use refer.MapValue.{Requests}
use refer.Store
use refer.Store.{Node, Store}
use refer.Store.Visit.{visit_children, visit_values}
use refer.Protocol.Message.{ClientMessage, VsResult, Status, new_message}

-- The connections to the five signals of the store.
pub record Listeners : Type 0 where
  pub changed : Bool
  pub added : Bool
  pub removed : Bool
  pub add_to_container : Bool
  pub remove_from_container : Bool

-- `sent` are the calls of the send callback, the last one first; it is called with a null pointer too.
pub record Handler {ℓ} (N : Type ℓ) : Type ℓ where
  pub store : Store N
  pub subscriptions : TokenMap ℕ
  pub listeners : Listeners
  pub sent : List (Option (ClientMessage N))

-- What the handler takes from outside the repository, with `insertChild` of `DmoValueStoreHelper`.
-- `matches` is the match with the regular expression of `makeWildCardRegex`.
pub record Outside {ℓ} (N : Type ℓ) : Type ℓ where
  pub messages : Messages N
  pub texts : Texts N
  pub requests : Requests N
  pub blank : Value N
  pub matches : Text → Text → Bool
  pub insert_child : Store N → ValueId → Text → Text → UpdateType → Call (Bool × Store N)

abbrev pub all_off : Listeners
all_off = record {
  changed = false;
  added = false;
  removed = false;
  add_to_container = false;
  remove_from_container = false;
}

abbrev pub is_empty {ℓ} : {A : Type ℓ} → List A → Bool
is_empty [] = true
is_empty (x ∷ xs) = false

module _ {ℓ} {N : Type ℓ} where
  -- The constructor.
  new_handler : Store N → Handler N
  new_handler s = record { store = s; subscriptions = []; listeners = all_off; sent = [] }

  abbrev pub send : Option (ClientMessage N) → Handler N → Handler N
  send message h = record h { sent = message ∷ h.sent }

  -- `disconnectListeners`
  abbrev pub disconnect_listeners : Handler N → Handler N
  disconnect_listeners h = record h { listeners = all_off }

  -- `disconnect`
  disconnect : Handler N → Handler N
  disconnect h = disconnect_listeners (record h { subscriptions = TokenMap.clear h.subscriptions })

  -- `connectAddRemoveListeners`
  abbrev pub connect_add_remove : Handler N → Handler N
  connect_add_remove h = record h {
    listeners = record h.listeners {
      added = true;
      removed = true;
      add_to_container = true;
      remove_from_container = true;
    };
  }

  -- `connectAllListeners`
  abbrev pub connect_all : Handler N → Handler N
  connect_all h =
      let h' = connect_add_remove h in
      record h' { listeners = record h'.listeners { changed = true } }

  -- The value behind a pointer.
  abbrev pub node_at : Store N → ℕ → Call (Node N)
  node_at s p = or_thrown (find p s.heap)

  -- `hashToken`
  abbrev pub token_of : Node N → HashToken
  token_of node = from_transport node.variant.value.hash_token

  -- The messages of the values behind pointers, for a `RepeatedPtrField`.
  unfoldable pub values_at : Store N → List ℕ → Call (List (Value N))
  values_at s [] = returned []
  values_at s (p ∷ ps) = do
    node ← node_at s p
    rest ← values_at s ps
    returned (Variant.get node.variant ∷ rest)

  -- `copyValueStoreToRepeated`
  unfoldable pub copy_store : ℕ → Store N → Call (List (Value N))
  copy_store n s = do ps ← or_running (visit_values n s); values_at s ps

  -- `insertSubscriberFilter`
  unfoldable pub insert_filter : Handler N → ℕ → Call (Handler N)
  insert_filter h p = do
    node ← node_at h.store p
    returned (
        if TokenMap.has h.subscriptions (token_of node)
        then h
        else record h { subscriptions = (TokenMap.insert h.subscriptions (token_of node) p).1 })

  -- The same for values one after the other.
  unfoldable pub insert_filters : Handler N → List ℕ → Call (Handler N)
  insert_filters h [] = returned h
  insert_filters h (p ∷ ps) = do h' ← insert_filter h p; insert_filters h' ps

  -- The values that `visitChildren` of the value at `p` calls its function with.
  abbrev pub below : ℕ → Store N → ℕ → Call (List ℕ)
  below n s p = do node ← node_at s p; or_running (visit_children s.heap n node.children)

  -- `copyValueChildrenToRepeated` with `subscribe`, its only use.
  unfoldable pub copy_children : ℕ → Handler N → ℕ → Call (List (Value N) × Handler N)
  copy_children n h p = do
    ps ← below n h.store p
    h' ← insert_filters h (p ∷ ps)
    values ← values_at h.store (p ∷ ps)
    returned (values, h')

  -- `addVsResult`
  abbrev pub vs_result : ℕ → Status → List (Value N) → ClientMessage N
  vs_result sequence_no status values = record new_message {
    vs_result = some (record { sequence_no = sequence_no; status = status; values = values });
  }
