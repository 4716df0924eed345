-- ===== src/Variant.antt =====
-- company_ref_variant_valuestore_variant.{h,cpp}: a value with its access, its id and its signal. The
-- dispatcher of `set`, `get` and `hasData` runs the same operation in its thread and is waited for.
pub mod Writes
pub mod Order
pub mod Children
pub mod Keys
pub mod FromText
use refer.Base.{
  ℕ, ◌+◌, Bool, true, false, not, ◌&&◌, ◌||◌, Option, none, some, List, [], ◌∷◌, eqb, if◌then◌else◌,
  ◌==◌, list_eq, nat_eq,
}
use refer.Base.Table.{Table, find, erase, is_some}
use refer.Text.{Text}
use refer.ValueId
use refer.ValueId.{ValueId, id_lt, leaf, value_id}
use refer.ValueData
use refer.ValueData.{
  Value, ValueType, Access, access_unset, read_write, read_only, write_once, Results, success,
  invalid_type, access_error, Messages, type_eq, typed, has_data, EnumValue,
}

-- `SetUpdateType`
pub data UpdateType : Type 0 where
  local remote : UpdateType

-- `signals` counts the calls of `signal()`; `value_id` is the shared id, which may be missing.
pub record Variant {ℓ} (N : Type ℓ) : Type ℓ where
  pub value : Value N
  pub value_id : Option ValueId
  pub update_type : UpdateType
  pub signals : ℕ

abbrev pub is_read_only : Access → Bool
is_read_only read_only = true
is_read_only a = false

abbrev pub is_write_once : Access → Bool
is_write_once write_once = true
is_write_once a = false

abbrev pub is_local : UpdateType → Bool
is_local local = true
is_local remote = false

abbrev pub is_success : Results → Bool
is_success success = true
is_success r = false

module _ {ℓ} {N : Type ℓ} where
  -- The constructor from a message: `CompanEdgeProtocolValueData` clears the id of its copy.
  unfoldable pub of_value : Value N → UpdateType → Variant N
  of_value arg update = record {
    value = record arg { id = [] };
    value_id = some (value_id arg.id);
    update_type = update;
    signals = 0;
  }

  -- `signal()`
  abbrev signal : Variant N → Variant N
  signal v = record v { signals = v.signals + 1 }

  -- The lines of `set` behind the call on the data.
  unfoldable pub finish : Value N → Results → Variant N → Results × Variant N
  finish arg r v =
      if is_success r
      then (let access =
            if is_write_once v.value.access || is_read_only arg.access
            then read_only
            else v.value.access in
          (r, signal (record v { value = record v.value { access = access } })))
      else (r, v)

  -- `set(Value const&, SetUpdateType)`
  unfoldable pub set_value : Messages N → Variant N → Value N → UpdateType → Results × Variant N
  set_value m v arg update =
      if is_read_only v.value.access && is_local update
      then (access_error, v)
      else (let w = typed v.value arg in
          if not (type_eq w.type arg.type)
          then (invalid_type, record v { value = w })
          else (let r = ValueData.set m w arg in
              finish arg r.0 (record v { value = r.1; update_type = update })))

  -- `hasData`
  abbrev variant_has_data : Variant N → Bool
  variant_has_data v = has_data v.value

  -- `id`
  unfoldable pub id : Variant N → ValueId
  id v = elim v.value_id [ none ↦ [] | some name ↦ name ]

  -- `get`
  unfoldable pub get : Variant N → Value N
  get v = elim v.value_id [ none ↦ v.value | some name ↦ record v.value { id = name } ]

-- `ChildMapType`: a `std::map` from leaf names, as a table in the order of `operator<`.
module _ {ℓ} {P : Type ℓ} where
  -- `emplace`: a key that is present keeps its element.
  unfoldable pub emplace : ValueId → P → Table ValueId P → Table ValueId P
  emplace key p [] = (key, p) ∷ []
  emplace key p ((k, q) ∷ m) =
      let rest = emplace key p m in
      if key == k
      then (k, q) ∷ m
      else (if id_lt key k then (key, p) ∷ (k, q) ∷ m else (k, q) ∷ rest)

  -- `addChild`, for the id of the child.
  unfoldable pub add_child : Table ValueId P → ValueId → P → Table ValueId P
  add_child children name p = emplace (leaf name) p children

  -- `delChild`: the remaining children, and the child that is disconnected.
  pub del_child : Table ValueId P → ValueId → Table ValueId P × Option P
  del_child children name =
      let child_id = leaf name in
      if not (is_some (find child_id children))
      then (children, none)
      else (erase child_id children, find child_id children)

  -- `getChild`
  pub get_child : Table ValueId P → ValueId → Option P
  get_child [] child_id = none
  get_child children child_id =
      if is_some (find child_id children) then find child_id children else none

  -- `getFirst`
  unfoldable pub get_first : Table ValueId P → Option P
  get_first [] = none
  get_first ((k, p) ∷ m) = some p
