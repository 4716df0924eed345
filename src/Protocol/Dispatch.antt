-- ===== src/Protocol/Dispatch.antt =====
-- `ServerProtocolHandler::doMessage(ServerMessage)`: the requests of a message in the order of the code.
pub mod Order
use refer.Base.{ℕ, Option, none, some}
use refer.Base.Call.{Call, returned, ◌>>=◌}
use refer.Protocol.{Handler, Outside, send}
use refer.Protocol.Message.{ClientMessage, ServerMessage}
use refer.Protocol.Subscribe.{vs_sync, vs_subscribe, vs_unsubscribe}
use refer.Protocol.Answers.{vs_get_all, vs_get_value, vs_set_value, vs_multi_get, vs_multi_set}
use refer.Protocol.Object.{vs_get_object}
use refer.Protocol.Changes.{value_changed, value_removed}

-- One line of the function: a request that is present is answered, and the answer is sent.
unfoldable pub answer {ℓ κ} :
    {N : Type ℓ} {R : Type κ}
    → (Handler N → R → Call (Option (ClientMessage N) × Handler N))
    → Option R
    → Handler N
    → Call (Handler N)
answer handle none h = returned h
answer handle (some request) h = do (message, h') ← handle h request; returned (send message h')

unfoldable pub do_message {ℓ} :
    {N : Type ℓ} → Outside N → ℕ → Handler N → ServerMessage N → Call (Handler N)
do_message out n h msg = do
  h ← answer (vs_sync n) msg.vs_sync h
  h ← answer (vs_subscribe out.blank n) msg.vs_subscribe h
  h ← answer (λ h seq. returned (vs_unsubscribe h seq)) msg.vs_unsubscribe h
  h ← answer (vs_set_value out n) msg.vs_set_value h
  h ← answer (vs_multi_set out n) msg.vs_multi_set h
  h ← answer (value_changed out n) msg.value_changed h
  h ← answer (value_removed out n) msg.value_removed h
  h ← answer vs_get_value msg.vs_get_value h
  h ← answer (vs_multi_get n) msg.vs_multi_get h
  h ← answer (vs_get_object out n) msg.vs_get_object h
  answer (vs_get_all n) msg.vs_get_all h
