-- ===== src/Tests/Servers.antt =====
-- The server's handler, and the deletion of values, on a store with the values `a`, `b` and `b.c`.
use refer.Base.{
  ℕ, suc, ◌+◌, ◌≡◌, ◌↔◌, ◌⊎◌, refl, sym, ◌∙◌, arith, true, Option, some, none, List, [], ◌∷◌, ◌++◌,
  ◌||◌, list_eq, nat_eq, if◌then◌else◌,
}
use mathlib.Core.Option.{none-ne-some}
use refer.Base.Call.{returned, thrown}
use refer.Base.Table.{find, put, erase}
use refer.Text.{codes, find_first, find_last}
use refer.HashToken.{HashToken, from_transport}
use refer.TokenMap
use refer.ValueId.{ValueId, value_id, trim_name, replace_double_dots, parent}
use refer.ValueData
use refer.ValueData.{
  Value, ValueType, Access, interval_type, struct_type, read_write, read_only, type_code, set_as,
  assign_range,
}
use refer.Variant
use refer.Variant.{Variant, UpdateType, local, set_value, finish}
use refer.Text.Number.{stoll, digits_from}
use refer.Variant.FromText.{set_text, updated, pass_on}
use refer.Store
use refer.Store.{Store, Node}
use refer.Store.Visit.{visit_children, visit_values}
use refer.Variant.FromText.Numbers.{IsSigned}
use refer.Store.Visit.Finite.{Below, visit_children-Below}
use refer.Store.Delete.Names.{names}
use refer.Protocol.{
  Handler, vs_result, values_at, insert_filter, insert_filters, copy_children, copy_store,
}
use refer.Protocol.Message.{ClientMessage, Status, Ids, VsSetValue}
use refer.Protocol.Filters.{any_token}
use refer.Protocol.Subscribe.{sync_ids, subscribe_ids, vs_sync, vs_subscribe}
use refer.Protocol.Subscribe.Reach.{reach, unknown, results, vs_subscribe_lem}
use refer.Protocol.Subscribe.Same.{found_only, sync_ids-subscribe_ids}
use refer.Protocol.Answers.{status_of, find_value, vs_get_value, vs_set_value, set_text_at}
use refer.Protocol.Answers.SetGet.{
  vs_get_value-vs_set_value, vs_set_value-refused, vs_set_value-throws,
}
use refer.Protocol.Notices.{changed_message, on_value_added, on_value_removed}
use refer.Protocol.Notices.Parents.{
  IsUnder, child_of, below, IsCovered, everything, itself, parents, on_value_added-IsCovered,
}
use refer.Protocol.Notices.Lost.{on_value_removed-opens, vs_sync-misses}
use refer.Protocol.Changes.{value_removed}
use refer.Protocol.Changes.Removed.{value_removed-gone}
use refer.Protocol.Dispatch.{answer, do_message}
use refer.Protocol.Dispatch.Order.{set_and_get, do_message-set_and_get}
use refer.Tests.Values.{numbers}
use refer.Tests.Clients.{
  texts, a, out, store-IsClosed, fresh_client, bc, value_or, heap, to_b, store-IsBounded, b,
  node_bc, node_b, node_a, store,
}

visit_children-Below_example :
    ((n : ℕ) × ((k : ℕ)
        → visit_children heap (suc (n + k)) ((a, 1) ∷ (b, 2) ∷ []) ≡ some (1 ∷ 2 ∷ 3 ∷ [])))
    ↔ Below heap ((a, 1) ∷ (b, 2) ∷ []) (1 ∷ 2 ∷ 3 ∷ [])
visit_children-Below_example = visit_children-Below heap ((a, 1) ∷ (b, 2) ∷ []) (1 ∷ 2 ∷ 3 ∷ [])

value_removed-gone_example :
    (h' : Handler ℕ) × (value_removed out 4 fresh_client (b ∷ []) ≡ returned (none, h'))
    × (vs_get_value h' (record { sequence_no = 8; id = bc })
        ≡ returned (some (vs_result 8 Status.error_not_found []), h'))
    × ((k : ValueId)
        → Store.get h'.store k ≡ (if names heap (2 ∷ 3 ∷ []) k then none else Store.get store k))
unfolding Store.get find visit_children trim_name replace_double_dots find_first find_last names
    Variant.id
value_removed-gone_example =
    value_removed-gone out 4 fresh_client b 2 node_b (3 ∷ []) (record { sequence_no = 8; id = bc })
      store-IsBounded refl refl refl refl

on_value_added-IsCovered_example :
    (h' : Handler ℕ) × (on_value_added 4 to_b 1 ≡ returned h')
    × ((IsCovered to_b node_a
          × (h'.sent ≡ some (changed_message (Variant.get node_a.variant ∷ [])) ∷ []))
        ⊎ ((¬ IsCovered to_b node_a) × (h'.sent ≡ [])))
unfolding find Variant.id
on_value_added-IsCovered_example =
    on_value_added-IsCovered 4 to_b 1 node_a store-IsClosed refl (omega arith) refl

on_value_removed-opens_example :
    (h1 : Handler ℕ) × (h2 : Handler ℕ) × (on_value_removed to_b 2 ≡ returned h1)
    × (h1.listeners.added ≡ to_b.listeners.added)
    × (on_value_added 4 h1 1 ≡ returned h2)
    × (h2.sent ≡ some (changed_message (Variant.get node_a.variant ∷ [])) ∷ h1.sent)
unfolding find TokenMap.has TokenMap.remove erase from_transport TokenMap.is_empty
on_value_removed-opens_example =
    on_value_removed-opens 4 to_b 2 1 node_b node_a refl refl refl refl refl refl

abbrev ask : Ids
ask = record { sequence_no = 9; ids = b ∷ codes "x" ∷ [] }

abbrev subscribed : Option (ClientMessage ℕ) × Handler ℕ
subscribed = value_or (vs_subscribe out.blank 4 fresh_client ask) (none, fresh_client)

subscribed_ends : vs_subscribe out.blank 4 fresh_client ask ≡ returned (subscribed.0, subscribed.1)
unfolding vs_subscribe subscribe_ids copy_children insert_filters insert_filter values_at Store.get
    find value_id trim_name replace_double_dots find_first find_last visit_children TokenMap.has
    TokenMap.insert from_transport put
subscribed_ends = refl

vs_subscribe_lem_example :
    (found : List (Value ℕ)) × (values_at store (reach 4 store ask.ids) ≡ returned found)
    × (subscribed.0 ≡ none)
    × (subscribed.1.sent ≡ results 9 found (unknown out.blank store ask.ids) ++ [])
    × (subscribed.1.store ≡ store)
    × ((t : HashToken)
        → TokenMap.has subscribed.1.subscriptions t ≡ (
            any_token store (reach 4 store ask.ids) t || TokenMap.has fresh_client.subscriptions t))
vs_subscribe_lem_example =
    vs_subscribe_lem out.blank 4 fresh_client subscribed.1 ask subscribed.0 refl subscribed_ends

sync_ids-subscribe_ids_example :
    sync_ids 4 fresh_client ask.ids ≡ found_only (subscribe_ids out.blank 4 fresh_client ask.ids)
sync_ids-subscribe_ids_example = sync_ids-subscribe_ids out.blank 4 fresh_client ask.ids

abbrev synced : Option (ClientMessage ℕ) × Handler ℕ
synced = value_or (vs_sync 4 to_b []) (none, to_b)

synced_ends : vs_sync 4 to_b [] ≡ returned (synced.0, synced.1)
unfolding vs_sync copy_store visit_values visit_children values_at find
synced_ends = refl

unknown_parent : Store.get store (value_id (parent a)) ≡ none
unfolding Store.get find parent trim_name find_first find_last
unknown_parent = refl

not_under : ¬ IsUnder to_b a
not_under (child_of q above n g f t) = none-ne-some q (sym unknown_parent ∙ g)
not_under (below q n g u) = none-ne-some q (sym unknown_parent ∙ g)

not_found-IsCovered : ¬ IsCovered to_b node_a
unfolding TokenMap.has from_transport find Variant.id
not_found-IsCovered (everything e) = cc
not_found-IsCovered (itself t) = cc
not_found-IsCovered (parents u) = not_under u

vs_sync-misses_example :
    (synced.1.listeners.added ≡ true)
    × ((h'' : Handler ℕ) × (on_value_added 4 synced.1 1 ≡ returned h'')
        × (h''.sent ≡ synced.1.sent))
unfolding find Variant.id
vs_sync-misses_example =
    vs_sync-misses 4 to_b synced.1 synced.0 1 node_a synced_ends store-IsClosed refl (omega arith)
      refl not_found-IsCovered

abbrev set_a : VsSetValue
set_a = record { sequence_no = 3; id = a; value = codes "7" }

known_a : find_value fresh_client a ≡ some 1
unfolding find_value Store.size Store.get find trim_name replace_double_dots find_first find_last
known_a = refl

abbrev seven : ValueData.Results × Variant ℕ
seven =
    value_or (set_text texts 4 numbers node_a.variant (codes "7") local)
      (ValueData.Results.success, node_a.variant)

seven_set : set_text texts 4 numbers node_a.variant (codes "7") local ≡ returned (seven.0, seven.1)
unfolding set_text updated pass_on type_code stoll digits_from set_value ValueData.set set_as
    assign_range finish Variant.get
seven_set = refl

vs_get_value-vs_set_value_example :
    (h' : Handler ℕ) × (vs_set_value out 4 fresh_client set_a
      ≡ returned (some (vs_result 3 (status_of seven.0) (Variant.get seven.1 ∷ [])), h'))
    × ((status_of seven.0 ≡ Status.success)
        ↔ ((seven.0 ≡ ValueData.Results.success) ⊎ (seven.0 ≡ ValueData.Results.same_value)))
    × (vs_get_value h' (record { sequence_no = 4; id = a })
        ≡ returned (some (vs_result 4 Status.success (Variant.get seven.1 ∷ [])), h'))
unfolding find
vs_get_value-vs_set_value_example =
    vs_get_value-vs_set_value out 4 fresh_client set_a 1 node_a seven.0 seven.1 4 known_a refl
      seven_set

abbrev set_bc : VsSetValue
set_bc = record { sequence_no = 3; id = bc; value = codes "7" }

vs_set_value-refused_example :
    (h' : Handler ℕ) × (vs_set_value out 4 fresh_client set_bc
      ≡ returned (some (vs_result 3 Status.access_error (Variant.get node_bc.variant ∷ [])), h'))
    × (h'.store.events ≡ [])
    × (h'.store.ws_map ≡ store.ws_map)
    × (find 3 h'.store.heap ≡ some node_bc)
unfolding find_value Store.size Store.get find trim_name replace_double_dots find_first find_last
vs_set_value-refused_example =
    vs_set_value-refused out 4 fresh_client set_bc 3 node_bc refl refl refl

abbrev minus : VsSetValue
minus = record { sequence_no = 3; id = a; value = codes "-" }

vs_set_value-throws_example : vs_set_value out 4 fresh_client minus ≡ thrown
unfolding digits_from find
vs_set_value-throws_example =
    vs_set_value-throws out 4 fresh_client minus 1 node_a [] known_a refl refl IsSigned.interval
      refl refl

abbrev both : Handler ℕ
both = value_or (do_message out 4 fresh_client (set_and_get set_a 4)) fresh_client

both_end : do_message out 4 fresh_client (set_and_get set_a 4) ≡ returned both
unfolding do_message answer vs_set_value set_text_at set_text updated pass_on Store.get find_value
    value_id trim_name replace_double_dots find_first find_last find type_code stoll digits_from
    set_value ValueData.set set_as assign_range put finish Variant.get Store.size vs_get_value
both_end = refl

do_message-set_and_get_example :
    (r : ValueData.Results) × (value : Value ℕ) × (both.sent
      ≡ some (vs_result 4 Status.success (value ∷ []))
        ∷ some (vs_result 3 (status_of r) (value ∷ []))
        ∷ [])
do_message-set_and_get_example =
    do_message-set_and_get out 4 fresh_client both set_a 1 4 known_a both_end
