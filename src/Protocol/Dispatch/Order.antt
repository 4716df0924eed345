-- ===== src/Protocol/Dispatch/Order.antt =====
-- The order in which `doMessage(ServerMessage)` handles the requests of one message.
use refer.Base.{ℕ, ◌≡◌, refl, sym, ap, ◌∙◌, Option, none, some, List, [], ◌∷◌}
use refer.Base.Call.{returned}
use refer.ValueData
use refer.ValueData.{Value}
use refer.Variant
use refer.Protocol.{Handler, Outside, send, vs_result}
use refer.Protocol.Message.{ClientMessage, ServerMessage, Status, VsSetValue}
use refer.Protocol.Filters.{bind-returned, returned-injective}
use refer.Protocol.Answers.{status_of, find_value, vs_set_value}
use refer.Protocol.Answers.SetGet.{get_after, SetAnswer, vs_set_value-SetAnswer}
use refer.Protocol.Dispatch.{answer, do_message}

-- A message with a request to set a value, and one to read it back.
abbrev pub set_and_get {ℓ} : {N : Type ℓ} → VsSetValue → ℕ → ServerMessage N
set_and_get msg sequence_no = record {
  vs_sync = none;
  value_changed = none;
  vs_subscribe = none;
  vs_unsubscribe = none;
  vs_get_all = none;
  vs_get_value = some (record { sequence_no = sequence_no; id = msg.id });
  vs_set_value = some msg;
  value_removed = none;
  vs_get_object = none;
  vs_multi_get = none;
  vs_multi_set = none;
}

module _ {ℓ} {N : Type ℓ} (out : Outside N) where
  set_and_get_done :
      (n : ℕ) (h h1 : Handler N) (msg : VsSetValue) (p : ℕ) (m : Option (ClientMessage N))
      (sequence_no : ℕ)
      → find_value h msg.id ≡ some p
      → vs_set_value out n h msg ≡ returned (m, h1)
      → (a : SetAnswer out n h msg p m h1)
      → do_message out n h (set_and_get msg sequence_no)
        ≡ returned (
            send
              (some (vs_result sequence_no Status.success (Variant.get a.variant ∷ [])))
              (send m h1))
  unfolding do_message answer
  set_and_get_done n h h1 msg p m sequence_no known c a =
      rw
        (
          do_message,
          answer,
          c,
          get_after out h (send m h1) msg.id p a.node a.result a.variant sequence_no known
              (ap (λ (x : Handler N). x.store) (sym a.handler)),
        )
        refl

  -- A message with a `VsSetValue` for a known id and a `VsGetValue` for the same id, whose handling
  -- returns, is answered by two results in the order of the code: that of the set first, with one value,
  -- then success with the same value.
  pub do_message-set_and_get :
      (n : ℕ) (h h' : Handler N) (msg : VsSetValue) (p sequence_no : ℕ)
      → find_value h msg.id ≡ some p
      → do_message out n h (set_and_get msg sequence_no) ≡ returned h'
      → (r : ValueData.Results) × (value : Value N) × (h'.sent
          ≡ some (vs_result sequence_no Status.success (value ∷ []))
            ∷ some (vs_result msg.sequence_no (status_of r) (value ∷ []))
            ∷ h.sent)
  unfolding do_message answer
  do_message-set_and_get n h h' msg p sequence_no known e =
      let (g, set, e1) = bind-returned (answer (vs_set_value out n) (some msg) h) _ h' e in
      let ((m, h1), c, e2) = bind-returned (vs_set_value out n h msg) _ g set in
      let a = vs_set_value-SetAnswer out n h h1 msg p m known c in
      let z =
        returned-injective _ h' (sym (set_and_get_done n h h1 msg p m sequence_no known c a) ∙ e) in
      (
        a.result,
        Variant.get a.variant,
        ap (λ (x : Handler N). x.sent) (sym z)
            ∙ ap
                (λ (l : List (Option (ClientMessage N))).
                  some (vs_result sequence_no Status.success (Variant.get a.variant ∷ [])) ∷ l)
                (rw (← a.sent, ← a.handler) refl),
      )
