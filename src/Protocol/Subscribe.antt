-- ===== src/Protocol/Subscribe.antt =====
-- `ServerProtocolHandler::doMessage` of `VsSync`, `VsSubscribe` and `VsUnsubscribe`.
pub mod Reach
pub mod Same
use refer.Base.{ℕ, Bool, true, Option, none, some, List, [], ◌∷◌, ◌++◌, if◌then◌else◌, not}
use refer.Base.Call.{Call, returned, ◌>>=◌}
use refer.Text.{Text}
use refer.ValueId.{value_id}
use refer.ValueData.{Value}
use refer.Store
use refer.Protocol.{
  Handler, Outside, is_empty, send, disconnect_listeners, disconnect, connect_add_remove,
  connect_all, copy_store, copy_children, vs_result,
}
use refer.Protocol.Message.{ClientMessage, Ids, Status, new_message}

module _ {ℓ} {N : Type ℓ} where
  -- The loop of `VsSync` over the ids, with the values of the response.
  pub sync_ids : ℕ → Handler N → List Text → Call (List (Value N) × Handler N)
  sync_ids n h [] = returned ([], h)
  sync_ids n h (id ∷ ids) = elim (Store.get h.store (value_id id)) [
    | none ↦ sync_ids n h ids
    | some p ↦ do
      (values, h') ← copy_children n h p
      (rest, h'') ← sync_ids n h' ids
      returned (values ++ rest, h'')
  ]

  abbrev sync_message : List (Value N) → ClientMessage N
  sync_message values = record new_message { vs_sync_completed = true; value_changed = some values }

  -- `doMessage(VsSync)`
  unfoldable pub vs_sync : ℕ → Handler N → List Text → Call (Option (ClientMessage N) × Handler N)
  vs_sync n h [] = do
    values ← copy_store n h.store
    returned (some (sync_message values), connect_all (disconnect_listeners h))
  vs_sync n h (id ∷ ids) = do
    (values, h') ← sync_ids n (disconnect_listeners h) (id ∷ ids)
    returned (some (sync_message values), connect_add_remove h')

  -- `doMessage(VsUnsubscribe)`
  pub vs_unsubscribe : Handler N → ℕ → Option (ClientMessage N) × Handler N
  unfolding disconnect
  vs_unsubscribe h sequence_no = (some (vs_result sequence_no Status.success []), disconnect h)

  -- The calls of the send callback behind the loop.
  pub send_results : ℕ → List (Value N) → List (Value N) → Handler N → Handler N
  send_results sequence_no found missing h =
      let h' =
        if is_empty found
        then h
        else send (some (vs_result sequence_no Status.success found)) (connect_add_remove h) in
      if is_empty missing
      then h'
      else send (some (vs_result sequence_no Status.error_not_found missing)) h'

module _ {ℓ} {N : Type ℓ} (blank : Value N) where
  -- The loop of `VsSubscribe`: the values of the two responses.
  unfoldable pub subscribe_ids :
      ℕ → Handler N → List Text → Call ((List (Value N) × List (Value N)) × Handler N)
  subscribe_ids n h [] = returned (([], []), h)
  subscribe_ids n h (id ∷ ids) = elim (Store.get h.store (value_id id)) [
    | none ↦ do
      ((found, missing), h') ← subscribe_ids n h ids
      returned ((found, record blank { id = id } ∷ missing), h')
    | some p ↦ do
      (values, h') ← copy_children n h p
      ((found, missing), h'') ← subscribe_ids n h' ids
      returned ((values ++ found, missing), h'')
  ]

  -- `doMessage(VsSubscribe)`
  unfoldable pub vs_subscribe : ℕ → Handler N → Ids → Call (Option (ClientMessage N) × Handler N)
  vs_subscribe n h msg =
      if is_empty msg.ids
      then (do
        values ← copy_store n h.store
        returned (some (vs_result msg.sequence_no Status.success values), connect_all h))
      else (do
        ((found, missing), h') ← subscribe_ids n h msg.ids
        returned (none, send_results msg.sequence_no found missing h'))
