-- ===== src/Protocol/Answers.antt =====
-- `ServerProtocolHandler::doMessage` of the requests that read or set values: `VsGetAll`, `VsGetValue`,
-- `VsSetValue`, `VsMultiGet`, `VsMultiSet` and `VsGetObject`.
pub mod SetGet
use refer.Base.{
  ℕ, Bool, true, false, not, ◌&&◌, ◌||◌, Option, none, some, List, [], ◌∷◌, ◌++◌, eqb,
  if◌then◌else◌, nat_eq,
}
use refer.Base.Call.{Call, returned, ◌>>=◌}
use refer.Text.{Text, codes, find_first, find_last, take}
use refer.ValueId.{ValueId, value_id}
use refer.ValueData
use refer.ValueData.{Value, Messages, type_eq, container_type}
use refer.Variant
use refer.Variant.{Variant, UpdateType, local, is_success}
use refer.Variant.FromText.{set_text}
use refer.Store
use refer.Store.{Node, Store, place}
use refer.Store.Delete.{signal_event, emit}
use refer.Protocol.{Handler, Outside, is_empty, node_at, copy_store, values_at, below, vs_result}
use refer.Protocol.Message.{
  ClientMessage, VsResult, Status, GetError, GetResult, SetError, SetResult, MultiResult, Ids,
  OneId, VsSetValue, VsMultiSet, new_message,
}

-- `ValueDataSet::resultStr`
result_str : ValueData.Results → Text
result_str ValueData.Results.success = codes "Success"
result_str ValueData.Results.same_value = codes "SameValue"
result_str ValueData.Results.invalid_type = codes "InvalidType"
result_str ValueData.Results.range_error = codes "RangeError"
result_str ValueData.Results.enum_error = codes "EnumError"
result_str ValueData.Results.access_error = codes "AccessError"

-- The `switch` of `VsSetValue`.
abbrev pub status_of : ValueData.Results → Status
status_of ValueData.Results.success = Status.success
status_of ValueData.Results.same_value = Status.success
status_of ValueData.Results.invalid_type = Status.wrong_value_type
status_of ValueData.Results.range_error = Status.range_error
status_of ValueData.Results.enum_error = Status.enum_error
status_of ValueData.Results.access_error = Status.access_error

abbrev pub is_done : ValueData.Results → Bool
is_done ValueData.Results.success = true
is_done ValueData.Results.same_value = true
is_done r = false

module _ {ℓ} {N : Type ℓ} where
  -- The store with what a call of `set` of the value at `p` left, and the signal of a change.
  abbrev pub store_set : Store N → ℕ → Node N → ValueData.Results → Variant N → Store N
  store_set s p node r v =
      let node' = record node { variant = v } in
      emit (place s p node') (if is_success r then signal_event node' p node' else [])

  -- `doMessage(VsGetAll)`
  pub vs_get_all : ℕ → Handler N → ℕ → Call (Option (ClientMessage N) × Handler N)
  vs_get_all n h sequence_no =
      if eqb (Store.size h.store) 0
      then returned (some (vs_result sequence_no Status.success []), h)
      else (do
        values ← copy_store n h.store
        returned (some (vs_result sequence_no Status.success values), h))

  -- The guard of the requests for one value, and its look-up.
  unfoldable pub find_value : Handler N → Text → Option ℕ
  find_value h id =
      if eqb (Store.size h.store) 0 || is_empty id then none else Store.get h.store (value_id id)

  -- `doMessage(VsGetValue)`
  unfoldable pub vs_get_value : Handler N → OneId → Call (Option (ClientMessage N) × Handler N)
  vs_get_value h msg = elim (find_value h msg.id) [
    | none ↦ returned (some (vs_result msg.sequence_no Status.error_not_found []), h)
    | some p ↦ do
      node ← node_at h.store p
      let value = Variant.get node.variant
      returned (some (vs_result msg.sequence_no Status.success (value ∷ [])), h)
  ]

  -- The loop of `VsMultiGet`.
  multi_get : ℕ → Store N → List Text → Call (List (GetResult N))
  multi_get n s [] = returned []
  multi_get n s (id ∷ ids) = elim (Store.get s (value_id id)) [
    | none ↦ do
      rest ← multi_get n s ids
      returned (
          record {
            error = GetError.value_not_found;
            description = codes "Value not found";
            values = [];
          }
          ∷ rest)
    | some p ↦ do
      node ← node_at s p
      ps ← if type_eq node.variant.value.type container_type then below n s p else returned []
      values ← values_at s ps
      rest ← multi_get n s ids
      returned (
          record {
            error = GetError.success;
            description = [];
            values = Variant.get node.variant ∷ values;
          }
          ∷ rest)
  ]

  -- `doMessage(VsMultiGet)`
  pub vs_multi_get : ℕ → Handler N → Ids → Call (Option (ClientMessage N) × Handler N)
  vs_multi_get n h msg = do
    results ← multi_get n h.store msg.ids
    returned (
      some (record new_message {
        vs_multi_get_result = some (record { sequence_no = msg.sequence_no; results = results });
      }),
      h,
    )

module _ {ℓ} {N : Type ℓ} (out : Outside N) where
  -- `set` of the value at `p` from a text; `n` is the fuel of its loop.
  unfoldable pub set_text_at : ℕ → Store N → ℕ → Text → Call (ValueData.Results × Store N)
  set_text_at n s p arg = do
    node ← node_at s p
    (r, v) ← set_text out.texts n out.messages node.variant arg local
    returned (r, store_set s p node r v)

  -- `doMessage(VsSetValue)`
  unfoldable pub vs_set_value :
      ℕ → Handler N → VsSetValue → Call (Option (ClientMessage N) × Handler N)
  vs_set_value n h msg = elim (find_value h msg.id) [
    | none ↦ returned (some (vs_result msg.sequence_no Status.error_not_found []), h)
    | some p ↦ do
      (r, s') ← set_text_at n h.store p msg.value
      node ← node_at s' p
      let value = Variant.get node.variant
      returned
          (some (vs_result msg.sequence_no (status_of r) (value ∷ [])), record h { store = s' })
  ]

  -- The loop of `VsMultiSet`.
  multi_set : ℕ → Store N → List (Text × Text) → Call (List SetResult × Store N)
  unfolding result_str
  multi_set n s [] = returned ([], s)
  multi_set n s ((id, value) ∷ rest) = elim (Store.get s (value_id id)) [
    | none ↦ do
      (results, s') ← multi_set n s rest
      returned (
        record { error = SetError.value_not_found; description = codes "Value not found"; id = id }
            ∷ results,
        s',
      )
    | some p ↦ do
      (r, s1) ← set_text_at n s p value
      (results, s') ← multi_set n s1 rest
      returned (
        record {
          error = if is_done r then SetError.success else SetError.unknown_error;
          description = if is_done r then [] else codes "Failed to set value: " ++ result_str r;
          id = id;
        }
            ∷ results,
        s',
      )
  ]

  -- `doMessage(VsMultiSet)`
  pub vs_multi_set : ℕ → Handler N → VsMultiSet → Call (Option (ClientMessage N) × Handler N)
  vs_multi_set n h msg = do
    (results, s') ← multi_set n h.store msg.values
    returned (
      some (record new_message {
        vs_multi_set_result = some (record { sequence_no = msg.sequence_no; results = results });
      }),
      record h { store = s' },
    )
