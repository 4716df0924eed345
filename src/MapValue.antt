-- ===== src/MapValue.antt =====
-- company_ref_variant_map_value.{h,cpp}: a container value. It changes no children itself: `insert` and
-- `erase` signal requests, on which the listeners add and delete values in the store. The messages of a
-- request come from `VariantContainerUtil`, outside the repository: `Requests` is its interface.
pub mod Clear
use refer.Base.{
  ℕ, Bool, true, false, not, Option, none, some, List, [], ◌∷◌, if◌then◌else◌, list_eq, nat_eq,
  length,
}
use refer.Base.Table.{Table, find, is_some}
use refer.ValueId.{ValueId}
use refer.ValueData.{Value, ValueType, add_to_type, remove_from_type, type_eq}
use refer.Variant.{Variant, UpdateType, local, of_value, get_child}

-- `makeAddToContainer`, `makeRemoveFromContainer`
pub record Requests {ℓ} (N : Type ℓ) : Type ℓ where
  pub make_add_to : Variant N → ValueId → UpdateType → Option (Variant N)
  pub make_remove_from : Variant N → ValueId → UpdateType → Option (Variant N)

-- `added` and `removed` are the calls of the two container signals, `changed` those of the signal of
-- the value, the last call first.
pub record MapValue {ℓ} (N : Type ℓ) : Type ℓ where
  pub self : Variant N
  pub children : Table ValueId ℕ
  pub added : List (Variant N)
  pub removed : List (Variant N)
  pub changed : List (Variant N)

module _ {ℓ} {N : Type ℓ} where
  -- The constructor.
  of_message : Value N → UpdateType → MapValue N
  of_message value update = record {
    self = of_value value update;
    children = [];
    added = [];
    removed = [];
    changed = [];
  }

  -- `signal(VariantValue::Ptr)`
  pub route : MapValue N → Variant N → MapValue N
  route m v =
      if type_eq v.value.type add_to_type
      then record m { added = v ∷ m.added }
      else (if type_eq v.value.type remove_from_type
          then record m { removed = v ∷ m.removed }
          else record m { changed = v ∷ m.changed })

  -- `empty`
  has_none : MapValue N → Bool
  has_none m = elim m.children [ [] ↦ true | x ∷ xs ↦ false ]

  count : MapValue N → ℕ
  count m = length m.children

  -- `find`, `at`
  at : MapValue N → ValueId → Option ℕ
  at m key = find key m.children

module _ {ℓ} {N : Type ℓ} (requests : Requests N) where
  -- `addToContainer`, `removeFromContainer`
  add_to_container : MapValue N → ValueId → MapValue N
  add_to_container m key = elim (requests.make_add_to m.self key local) [
    | none ↦ m
    | some v ↦ route m v
  ]

  remove_from_container : MapValue N → ValueId → MapValue N
  remove_from_container m key = elim (requests.make_remove_from m.self key local) [
    | none ↦ m
    | some v ↦ route m v
  ]

  insert : MapValue N → ValueId → Bool × MapValue N
  insert m key =
      if is_some (get_child m.children key)
      then (false, m)
      else elim (requests.make_add_to m.self key local) [
        | none ↦ (false, m)
        | some v ↦ let m' = route m v in (true, route m' m'.self)
      ]

  pub erase : MapValue N → ValueId → Bool × MapValue N
  erase m key =
      if not (is_some (get_child m.children key))
      then (false, m)
      else elim (requests.make_remove_from m.self key local) [
        | none ↦ (false, m)
        | some v ↦ let m' = route m v in (true, route m' m'.self)
      ]

  -- The loop of `clear`, over the children from the iterator on.
  pub clear_from : Table ValueId ℕ → MapValue N → MapValue N
  clear_from [] m = m
  clear_from ((key, p) ∷ rest) m = clear_from rest (erase m key).1

  pub clear : MapValue N → MapValue N
  clear m = clear_from m.children m
