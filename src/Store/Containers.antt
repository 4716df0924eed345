-- ===== src/Store/Containers.antt =====
-- `VariantValueStore::addToContainer` and `removeFromContainer`: a request that is signalled on the
-- container. The value that the caller passes with a key is not used.
use refer.Base.{ℕ, false, not, Option, none, some, if◌then◌else◌, list_eq, nat_eq}
use refer.Base.Table.{find}
use refer.Text.{Text}
use refer.ValueId.{ValueId, value_id}
use refer.ValueData.{type_eq, container_type}
use refer.Variant.{Variant, UpdateType}
use refer.MapValue.{Requests}
use refer.Store.{Store, get}
use refer.Store.Delete.{ask}

module _ {ℓ} {N : Type ℓ} where
  -- Both operations, over the function that makes the request.
  ask_container :
      (Variant N → ValueId → UpdateType → Option (Variant N))
      → Store N
      → ValueId
      → Text
      → UpdateType
      → Option (Option ℕ × Store N)
  ask_container make s name key update = elim (get s name) [
    | none ↦ some (none, s)
    | some q ↦ elim (find q s.heap) [
      | none ↦ none
      | some above ↦
          if not (type_eq above.variant.value.type container_type)
          then some (none, s)
          else elim (make above.variant (value_id key) update) [
            | none ↦ some (none, s)
            | some request ↦ some (some s.fresh, ask s q above request false)
          ]
    ]
  ]

  -- `addToContainer`
  pub add_to_container :
      Requests N → Store N → ValueId → Text → UpdateType → Option (Option ℕ × Store N)
  add_to_container requests = ask_container requests.make_add_to

  -- `removeFromContainer`
  remove_from_container :
      Requests N → Store N → ValueId → Text → UpdateType → Option (Option ℕ × Store N)
  remove_from_container requests = ask_container requests.make_remove_from
