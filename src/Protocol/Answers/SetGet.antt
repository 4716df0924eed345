-- ===== src/Protocol/Answers/SetGet.antt =====
-- `VsSetValue`, and `VsGetValue` behind it.
use refer.Base.{
  ℕ, ◌≡◌, ◌↔◌, ◌⊎◌, inl, inr, refl, sym, ap, ◌∙◌, true, false, Option, none, some, List, [], ◌∷◌,
  if◌then◌else◌, nat_eq, list_eq,
}
use refer.Base.Call.{returned, thrown}
use refer.Base.Table.{find, find-put_self}
use refer.Text.{Text}
use refer.Text.Number.{digits_from}
use refer.ValueData
use refer.ValueData.{Value, access_error}
use refer.Variant
use refer.Variant.{Variant, is_success, is_read_only, is_local, local}
use refer.Variant.FromText.{set_text}
use refer.Variant.FromText.Numbers.{IsSigned, set_text-throws}
use refer.Store
use refer.Store.{Node, Store, Event, place}
use refer.Store.Delete.{signal_event, emit}
use refer.Protocol.{Handler, Outside, node_at, vs_result}
use refer.Protocol.Message.{ClientMessage, Status, VsSetValue}
use refer.Protocol.Filters.{bind-returned, returned-injective, node_at-find}
use refer.Protocol.Answers.{
  status_of, store_set, find_value, vs_get_value, set_text_at, vs_set_value,
}

module _ {ℓ} {N : Type ℓ} where
  emit-heap :
      (s : Store N) (es : List Event)
      → ((emit s es).heap ≡ s.heap) × ((emit s es).ws_map ≡ s.ws_map)
  emit-heap s [] = (refl, refl)
  emit-heap s (e ∷ es) = (refl, refl)

  -- A call of `set` of one value moves no value, and leaves the new value at its address.
  pub store_set_lem :
      (s : Store N) (p : ℕ) (node : Node N) (r : ValueData.Results) (v : Variant N)
      → ((store_set s p node r v).ws_map ≡ s.ws_map)
        × (find p (store_set s p node r v).heap ≡ some (record node { variant = v }))
  store_set_lem s p node r v =
      let node' = record node { variant = v } in
      let es = if is_success r then signal_event node' p node' else [] in
      let (heap, map) = emit-heap (place s p node') es in
      (map, ap (find p) heap ∙ find-put_self p node' s.heap)

  find_value-ws_map :
      (h h' : Handler N) (id : Text)
      → h'.store.ws_map ≡ h.store.ws_map
      → find_value h' id ≡ find_value h id
  unfolding find_value Store.size Store.get
  find_value-ws_map h h' id same = rw (find_value, Store.size, Store.get, same) refl

-- Success is the status of two results alone.
status_of-success :
    (r : ValueData.Results)
    → (status_of r ≡ Status.success)
      ↔ ((r ≡ ValueData.Results.success) ⊎ (r ≡ ValueData.Results.same_value))
status_of-success ValueData.Results.success = ((λ e. inl refl), (λ e. refl))
status_of-success ValueData.Results.same_value = ((λ e. inr refl), (λ e. refl))
status_of-success ValueData.Results.invalid_type =
    ((λ e. cc), (λ e. elim e [ inl x ↦ cc | inr x ↦ cc ]))
status_of-success ValueData.Results.range_error =
    ((λ e. cc), (λ e. elim e [ inl x ↦ cc | inr x ↦ cc ]))
status_of-success ValueData.Results.enum_error =
    ((λ e. cc), (λ e. elim e [ inl x ↦ cc | inr x ↦ cc ]))
status_of-success ValueData.Results.access_error =
    ((λ e. cc), (λ e. elim e [ inl x ↦ cc | inr x ↦ cc ]))

module _ {ℓ} {N : Type ℓ} (out : Outside N) where
  -- What a call of `VsSetValue` for a known id did.
  pub record SetAnswer (n : ℕ) (h : Handler N) (msg : VsSetValue) (p : ℕ)
      (answer : Option (ClientMessage N)) (h' : Handler N) : Type ℓ where
    pub node : Node N
    pub result : ValueData.Results
    pub variant : Variant N
    pub at : find p h.store.heap ≡ some node
    pub set :
        set_text out.texts n out.messages node.variant msg.value local ≡ returned (result, variant)
    pub handler : record h { store = store_set h.store p node result variant } ≡ h'
    pub sent :
        some (vs_result msg.sequence_no (status_of result) (Variant.get variant ∷ [])) ≡ answer

  -- `VsSetValue` of a known id whose value is set.
  vs_set_value_known :
      (n : ℕ) (h : Handler N) (msg : VsSetValue) (p : ℕ) (node : Node N) (r : ValueData.Results)
      (v : Variant N)
      → find_value h msg.id ≡ some p
      → find p h.store.heap ≡ some node
      → set_text out.texts n out.messages node.variant msg.value local ≡ returned (r, v)
      → vs_set_value out n h msg
        ≡ returned (
          some (vs_result msg.sequence_no (status_of r) (Variant.get v ∷ [])),
          record h { store = store_set h.store p node r v },
        )
  unfolding vs_set_value set_text_at
  vs_set_value_known n h msg p node r v known f set =
      rw (vs_set_value, known, set_text_at, f, set, (store_set_lem h.store p node r v).1) refl

  vs_set_value-node :
      (n : ℕ) (h h' : Handler N) (msg : VsSetValue) (p : ℕ) (answer : Option (ClientMessage N))
      → find_value h msg.id ≡ some p
      → vs_set_value out n h msg ≡ returned (answer, h')
      → (node : Node N) × (find p h.store.heap ≡ some node)
        × (result : ValueData.Results × Variant N) × (set_text out.texts n out.messages node.variant
              msg.value local
            ≡ returned result)
  unfolding vs_set_value set_text_at
  vs_set_value-node n h h' msg p answer known e =
      let ((r, s'), c, e1) =
        bind-returned (set_text_at out n h.store p msg.value) _ (answer, h')
          (rw (vs_set_value, known) at e) in
      let (node, at, c1) = bind-returned (node_at h.store p) _ (r, s') c in
      let (result, c2, c3) =
        bind-returned (set_text out.texts n out.messages node.variant msg.value local) _ (r, s')
          c1 in
      (node, node_at-find h.store p node at, result, c2)

  pub vs_set_value-SetAnswer :
      (n : ℕ) (h h' : Handler N) (msg : VsSetValue) (p : ℕ) (answer : Option (ClientMessage N))
      → find_value h msg.id ≡ some p
      → vs_set_value out n h msg ≡ returned (answer, h')
      → SetAnswer n h msg p answer h'
  vs_set_value-SetAnswer n h h' msg p answer known e =
      let (node, f, (r, v), set) = vs_set_value-node n h h' msg p answer known e in
      let z =
        returned-injective _ (answer, h')
          (sym (vs_set_value_known n h msg p node r v known f set) ∙ e) in
      record {
        node = node;
        result = r;
        variant = v;
        at = f;
        set = set;
        handler = ap (λ (x : Option (ClientMessage N) × Handler N). x.1) z;
        sent = ap (λ (x : Option (ClientMessage N) × Handler N). x.0) z;
      }

  -- `VsGetValue` on a handler whose store was left by the `set`.
  pub get_after :
      (h g : Handler N) (id : Text) (p : ℕ) (node : Node N) (r : ValueData.Results) (v : Variant N)
      (sequence_no : ℕ)
      → find_value h id ≡ some p
      → g.store ≡ store_set h.store p node r v
      → vs_get_value g (record { sequence_no = sequence_no; id = id })
        ≡ returned (some (vs_result sequence_no Status.success (Variant.get v ∷ [])), g)
  unfolding vs_get_value
  get_after h g id p node r v sequence_no known same =
      let (map, f) = store_set_lem h.store p node r v in
      let map' = ap (λ (s : Store N). s.ws_map) same ∙ map in
      let f' = ap (λ (s : Store N). find p s.heap) same ∙ f in
      rw (vs_get_value, find_value-ws_map h g id map', known, f') refl

  -- If `set` of the value of a known id returns a result and the value behind it, a `VsSetValue` for the
  -- id is answered with that value and the status of the result, which is success exactly if the result
  -- is Success or SameValue; a `VsGetValue` for the id behind it, with any sequence number, is answered
  -- with success and the same value, and changes nothing.
  pub vs_get_value-vs_set_value :
      (n : ℕ) (h : Handler N) (msg : VsSetValue) (p : ℕ) (node : Node N) (r : ValueData.Results)
      (v : Variant N) (sequence_no : ℕ)
      → find_value h msg.id ≡ some p
      → find p h.store.heap ≡ some node
      → set_text out.texts n out.messages node.variant msg.value local ≡ returned (r, v)
      → (h' : Handler N) × (vs_set_value out n h msg
          ≡ returned (some (vs_result msg.sequence_no (status_of r) (Variant.get v ∷ [])), h'))
        × ((status_of r ≡ Status.success)
            ↔ ((r ≡ ValueData.Results.success) ⊎ (r ≡ ValueData.Results.same_value)))
        × (vs_get_value h' (record { sequence_no = sequence_no; id = msg.id })
            ≡ returned (some (vs_result sequence_no Status.success (Variant.get v ∷ [])), h'))
  vs_get_value-vs_set_value n h msg p node r v sequence_no known f set =
      let h' = record h { store = store_set h.store p node r v } in
      (
        h',
        vs_set_value_known n h msg p node r v known f set,
        status_of-success r,
        get_after h h' msg.id p node r v sequence_no known refl,
      )

  -- A `VsSetValue` for a known id whose value is read-only is answered with the access error and the
  -- value as it is; no signal of the store is called, and every id leads where it led.
  pub vs_set_value-refused :
      (n : ℕ) (h : Handler N) (msg : VsSetValue) (p : ℕ) (node : Node N)
      → find_value h msg.id ≡ some p
      → find p h.store.heap ≡ some node
      → is_read_only node.variant.value.access ≡ true
      → (h' : Handler N) × (vs_set_value out n h msg
          ≡ returned (
            some (vs_result msg.sequence_no Status.access_error (Variant.get node.variant ∷ [])),
            h',
          ))
        × (h'.store.events ≡ h.store.events)
        × (h'.store.ws_map ≡ h.store.ws_map)
        × (find p h'.store.heap ≡ some node)
  unfolding set_text
  vs_set_value-refused n h msg p node known f closed =
      let set : set_text out.texts n out.messages node.variant msg.value local
          ≡ returned (access_error, node.variant) =
        rw (set_text, closed) refl in
      (
        record h { store = store_set h.store p node access_error node.variant },
        vs_set_value_known n h msg p node access_error node.variant known f set,
        refl,
        refl,
        (store_set_lem h.store p node access_error node.variant).1,
      )

  -- A `VsSetValue` with a minus that no digit follows, for a known id whose value is not read-only and has
  -- type Interval, SInterval or LLInterval, throws out of the handler.
  pub vs_set_value-throws :
      (n : ℕ) (h : Handler N) (msg : VsSetValue) (p : ℕ) (node : Node N) (rest : Text)
      → find_value h msg.id ≡ some p
      → find p h.store.heap ≡ some node
      → is_read_only node.variant.value.access ≡ false
      → IsSigned node.variant.value.type
      → msg.value ≡ b'-' ∷ rest
      → digits_from none rest ≡ none
      → vs_set_value out n h msg ≡ thrown
  unfolding vs_set_value set_text_at
  vs_set_value-throws n h msg p node rest known f access signed minus none_read =
      let set =
        set_text-throws out.texts n out.messages node.variant rest local (rw access refl) signed
          none_read in
      rw (vs_set_value, known, set_text_at, f, minus, set) refl
