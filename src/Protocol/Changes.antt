-- ===== src/Protocol/Changes.antt =====
-- `ServerProtocolHandler::doMessage` of `ValueChanged` and `ValueRemoved`, with the requests to add to and
-- to remove from a container. The lock on containers makes each request one step.
pub mod Removed
use refer.Base.{
  ℕ, Bool, true, false, not, ◌||◌, Option, none, some, List, [], ◌∷◌, ◌++◌, if◌then◌else◌,
}
use refer.Base.Call.{Call, returned, ◌>>=◌, or_running}
use refer.Base.Table.{is_some}
use refer.Text.{Text}
use refer.ValueId.{ValueId, value_id, concat}
use refer.ValueData.{Value, type_eq, container_type}
use refer.Variant
use refer.Variant.{Variant, UpdateType, local, remote, set_value}
use refer.Store
use refer.Store.{Node, Store, alloc}
use refer.Store.Delete.{del}
use refer.Store.Containers.{add_to_container}
use refer.Protocol.{Handler, Outside, is_empty, node_at, below, insert_filter, insert_filters}
use refer.Protocol.Message.{ClientMessage, new_message}
use refer.Protocol.Answers.{is_done, store_set}
use refer.Protocol.Notices.{on_add_to_container}

module _ {ℓ} {N : Type ℓ} where
  -- `ws_.get(id)` of a container.
  abbrev find_container : Store N → ValueId → Call (Option ℕ)
  find_container s name = elim (Store.get s name) [
    | none ↦ returned none
    | some p ↦ do
      node ← node_at s p
      returned (if type_eq node.variant.value.type container_type then some p else none)
  ]

  -- `onValueAddToContainer` of a request that may be missing, unless the listener is connected.
  complete : ℕ → Handler N → Option ℕ → Call (Handler N)
  complete n h none = returned h
  complete n h (some p) =
      if h.listeners.add_to_container then returned h else on_add_to_container n h p

module _ {ℓ} {N : Type ℓ} (out : Outside N) where
  -- `doAddToContainer` of a key that exists.
  add_known : ℕ → Handler N → ValueId → Text → Call (Handler N)
  add_known n h name key = do
    (request, s') ← or_running (add_to_container out.requests h.store name key local)
    complete n (record h { store = s' }) request

  -- `doAddToContainer` of a key that `insertChild` has added to the container at `p`.
  add_new : ℕ → Handler N → ℕ → Text → Call (Handler N)
  add_new n h p key = do
    ps ← below n h.store p
    h' ← insert_filters h ps
    node ← node_at h'.store p
    if h'.listeners.add_to_container
        then returned h'
        else elim (out.requests.make_add_to node.variant (value_id key) local) [
          | none ↦ returned h'
          | some request ↦
              on_add_to_container n (record h' { store = alloc h'.store request }) h'.store.fresh
        ]

  -- `doAddToContainer`
  do_add_to_container : ℕ → Handler N → Text → Text × Text → Call (Bool × Handler N)
  do_add_to_container n h id (key, value) = do
    container ← find_container h.store (value_id id)
    elim container [
      | none ↦ returned (false, h)
      | some p ↦ do
        h1 ← insert_filter h p
        if is_some (Store.get h1.store (concat (value_id id) key))
            then (do h2 ← add_known n h1 (value_id id) key; returned (false, h2))
            else (do
              (added, s') ← out.insert_child h1.store (value_id id) key value remote
              if added
                  then (do h2 ← add_new n (record h1 { store = s' }) p key; returned (true, h2))
                  else returned (false, record h1 { store = s' }))
    ]

  -- `doRemoveFromContainer`
  do_remove_from_container : ℕ → Handler N → Text → Text → Call (Bool × Handler N)
  do_remove_from_container n h id key = do
    container ← find_container h.store (value_id id)
    if not (is_some container) || not (is_some (Store.get h.store (concat (value_id id) key)))
        then returned (false, h)
        else (do
          (gone, s') ← or_running (del out.requests n h.store (concat (value_id id) key) remote)
          returned (true, record h { store = s' }))

  -- `set` of the value at `p` from a message: the result, and the value afterwards if it failed.
  change_at : Handler N → ℕ → Value N → Call (List (Value N) × Handler N)
  change_at h p arg = do
    node ← node_at h.store p
    let (r, v) = set_value out.messages node.variant arg local
    returned (
      if is_done r then [] else Variant.get v ∷ [],
      record h { store = store_set h.store p node r v },
    )

  -- One round of the loop of `ValueChanged`, with what it adds to the response.
  change_value : ℕ → Handler N → Value N → Call (List (Value N) × Handler N)
  change_value n h arg = elim arg.add_to_container [
    | some request ↦ do (done, h') ← do_add_to_container n h arg.id request; returned ([], h')
    | none ↦ elim arg.remove_from_container [
      | some key ↦ do (done, h') ← do_remove_from_container n h arg.id key; returned ([], h')
      | none ↦ elim (Store.get h.store (value_id arg.id)) [
        | none ↦ returned ([], h)
        | some p ↦ change_at h p arg
      ]
    ]
  ]

  change_values : ℕ → Handler N → List (Value N) → Call (List (Value N) × Handler N)
  change_values n h [] = returned ([], h)
  change_values n h (arg ∷ args) = do
    (refused, h') ← change_value n h arg
    (rest, h'') ← change_values n h' args
    returned (refused ++ rest, h'')

  -- `doMessage(ValueChanged)`
  pub value_changed : ℕ → Handler N → List (Value N) → Call (Option (ClientMessage N) × Handler N)
  value_changed n h args = do
    (refused, h') ← change_values n h args
    returned (
      some (record new_message { value_changed = if is_empty refused then none else some refused }),
      h',
    )

  -- `doMessage(ValueRemoved)`
  pub value_removed : ℕ → Handler N → List Text → Call (Option (ClientMessage N) × Handler N)
  value_removed n h [] = returned (none, h)
  value_removed n h (id ∷ ids) = do
    (gone, s') ← or_running (del out.requests n h.store (value_id id) local)
    value_removed n (record h { store = s' }) ids
