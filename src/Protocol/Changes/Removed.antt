-- ===== src/Protocol/Changes/Removed.antt =====
-- `doMessage(ValueRemoved)` of the server on the store.
use refer.Base.{ℕ, ◌≡◌, refl, ◌∙◌, arith, true, none, some, List, [], ◌∷◌, if◌then◌else◌, nat_eq}
use refer.Base.Call.{returned}
use refer.Base.Table.{find}
use refer.Text.{Text}
use refer.ValueId.{ValueId, value_id}
use refer.Variant.{local}
use refer.Store
use refer.Store.{Node, Store}
use refer.Store.Visit.{visit_children}
use refer.Store.Delete.Frame.{IsBounded}
use refer.Store.Delete.Names.{names}
use refer.Store.Delete.Subtree.{del-get}
use refer.Protocol.{Handler, Outside, vs_result}
use refer.Protocol.Message.{Status, OneId}
use refer.Protocol.Answers.{find_value, vs_get_value}
use refer.Protocol.Changes.{value_removed}

module _ {ℓ} {N : Type ℓ} (out : Outside N) where
  find_value-none :
      (h : Handler N) (id : Text) → Store.get h.store (value_id id) ≡ none → find_value h id ≡ none
  unfolding find_value
  find_value-none h id e = rw (find_value, e) (ground arith)

  -- In a store whose addresses are below the next one, the removal of one known id, where the visit of
  -- the values below its value ends, ends without an answer; afterwards a `VsGetValue` for the id of the
  -- value, or of any value below it, is answered with not found, and every other id leads where it led.
  pub value_removed-gone :
      (n : ℕ) (h : Handler N) (id : Text) (p : ℕ) (node : Node N) (l : List ℕ) (msg : OneId)
      → IsBounded h.store
      → Store.get h.store (value_id id) ≡ some p
      → find p h.store.heap ≡ some node
      → visit_children h.store.heap n node.children ≡ some l
      → names h.store.heap (p ∷ l) (value_id msg.id) ≡ true
      → (h' : Handler N) × (value_removed out n h (id ∷ []) ≡ returned (none, h'))
        × (vs_get_value h' msg
            ≡ returned (some (vs_result msg.sequence_no Status.error_not_found []), h'))
        × ((k : ValueId)
            → Store.get h'.store k
              ≡ (if names h.store.heap (p ∷ l) k then none else Store.get h.store k))
  unfolding value_removed vs_get_value
  value_removed-gone n h id p node l msg b g f v m =
      let (s', d, gone) = del-get out.requests local n h.store (value_id id) p node l b g f v in
      (
        record h { store = s' },
        rw (value_removed, d) refl,
        rw
            (
              vs_get_value,
              find_value-none (record h { store = s' }) msg.id (gone (value_id msg.id) ∙ rw m refl),
            )
            refl,
        gone,
      )
