-- ===== src/Dmo/Edit.antt =====
-- `DmoContainer`: the insertion and removal of values and of definitions. A method returns what the
-- source returns, with the tree behind the call.
pub mod Refused
pub mod Removal
use refer.Base.{
  ℕ, zero, suc, Bool, true, false, not, ◌&&◌, Option, none, some, List, [], ◌∷◌, ◌==◌, eqb,
  if◌then◌else◌, nat_eq, list_eq,
}
use refer.Base.Call.{Call, returned, running, ◌>>=◌}
use refer.Text.{Text}
use refer.ValueId.{ValueId, value_id, concat, add_assign, id_eq, is_empty, parent, leaf}
use refer.ValueData.{ValueType, Value, EnumValue, type_eq, container_type, struct_type, enum_type}
use refer.Dmo.{PropertyTree, Definitions, delim, range, is_container, has}

module _ {ℓ} {T N : Type ℓ} (pt : PropertyTree T (Value N)) (defs : Definitions N) where
  -- `emplaceNormalized`, which always returns true.
  emplace_normalized : T → ValueId → Value N → T
  emplace_normalized root path value =
      let named = record value { id = leaf path } in
      pt.put root path (if defs.is_valid named then named else defs.init named value.type)

  -- The value that stands for a parent, or for a definition, of this type.
  abbrev made : ValueType → Value N
  made type = defs.init defs.blank type

  -- The look ahead in the loop: the next part is the name of a definition.
  abbrev is_next_meta : List ValueId → Bool
  is_next_meta [] = false
  is_next_meta (e ∷ es) = id_eq e (value_id delim)

  abbrev made_parent : List ValueId → Value N
  made_parent es =
      let struct = made struct_type in
      if is_next_meta es then defs.init struct container_type else struct

  -- The value itself where nothing is at its path yet; a container gets a structure as definition.
  emplace_new : T → ValueId → Value N → T
  emplace_new root path value =
      let root' = emplace_normalized root path value in
      if type_eq value.type container_type
      then emplace_normalized root' (concat path delim) (made struct_type)
      else root'

  -- The loop of `insertElement` over the parts of the path.
  pub insert_loop : T → Value N → ValueId → Bool → ValueId → List ValueId → Bool × T
  insert_loop root value path check parent_path [] = (false, root)
  insert_loop root value path check parent_path (e ∷ es) =
      let here = add_assign parent_path e in
      elim (pt.get_child_optional root here) [
        | some child ↦
            let rest = insert_loop root value path check here es in
            if check && is_container pt child
            then (false, root)
            else (if type_eq (pt.value child).type value.type && id_eq path here
                then (true, emplace_normalized root here value)
                else rest)
        | none ↦
            let rest =
              insert_loop (emplace_normalized root here (made_parent es)) value path check here
                es in
            if id_eq here path then (true, emplace_new root here value) else rest
      ]

  -- `insertElement`
  pub insert_element : ℕ → T → Value N → Bool → Call (Bool × T)
  insert_element n root value check = do
    es ← range n (value_id value.id)
    returned (insert_loop root value (value_id value.id) check [] es)

  -- `insertValue`
  pub insert_value : ℕ → T → Value N → Bool → Call (Bool × T)
  insert_value n root value check = insert_element n root value check

  -- `insertMetaContainer` with a value for the definition.
  insert_meta_container : ℕ → T → ValueId → ValueType → Value N → Call (Bool × T)
  insert_meta_container n root path type meta_value =
      let container_id = if id_eq (leaf path) (value_id delim) then parent path else path in
      do
        (done, root') ← insert_element n root (record (made type) { id = container_id }) false
        returned (
            if done
            then (true, emplace_normalized root' (concat container_id delim) meta_value)
            else (false, root'))

  -- `insertMetaContainer` with a type, with no more, and with an enumeration.
  insert_meta_container_of : ℕ → T → ValueId → ValueType → ValueType → Call (Bool × T)
  insert_meta_container_of n root path type meta_type =
      insert_meta_container n root path type (made meta_type)

  insert_meta_struct : ℕ → T → ValueId → ValueType → Call (Bool × T)
  insert_meta_struct n root path type = insert_meta_container_of n root path type struct_type

  insert_meta_enum : ℕ → T → ValueId → ValueType → EnumValue → Call (Bool × T)
  insert_meta_enum n root path type enum_value =
      insert_meta_container n root path type (record (made enum_type) { enum_value = enum_value })

  -- The block of `insertMetaData` that creates the parents.
  make_parents : ℕ → T → ValueId → Call T
  make_parents n root above = elim (pt.get_child_optional root above) [
    | some child ↦ returned root
    | none ↦
        if id_eq (leaf above) (value_id delim)
        then (do (done, root') ← insert_meta_struct n root above container_type; returned root')
        else (do
          (done, root') ← insert_element n root (record (made struct_type) { id = above }) false
          returned root')
  ]

  -- `insertMetaData`
  insert_meta_data : ℕ → T → ValueId → Value N → Call (Bool × T)
  insert_meta_data n root path value =
      if type_eq value.type container_type then insert_meta_struct n root path value.type else (do
        root' ← make_parents n root (parent path)
        let named = record value { id = leaf path }
        returned (
          true,
          emplace_normalized root' path
              (if type_eq named.type struct_type then named else defs.init named named.type),
        ))

  -- `setMetaDataType`
  set_meta_data_type : T → ValueId → ValueType → Bool × T
  set_meta_data_type root path type = elim (pt.get_child_optional root path) [
    | none ↦ (false, root)
    | some child ↦
        (true, pt.put_child root path (pt.with_value child (defs.init (pt.value child) type)))
  ]

module _ {ℓ} {T N : Type ℓ} (pt : PropertyTree T (Value N)) where
  abbrev pub above_of : ValueId → ValueId
  above_of path = if is_empty (parent path) then path else parent path

  abbrev pub is_leafless : T → Bool
  is_leafless t = elim (pt.children t) [ [] ↦ true | x ∷ xs ↦ false ]

  -- The block of `removeValue` on the branch that the leaf is erased from; `up` removes the parent.
  pub erase_leaf : (T → Call (Bool × T)) → T → ValueId → T → Call (Bool × T)
  erase_leaf up root path child =
      let (child', count) = pt.erase child (leaf path) in
      let root' = pt.put_child root (above_of path) child' in
      if is_leafless child'
      then (if is_empty (parent path)
          then (let (root'', erased) = pt.erase root' path in returned (eqb erased 1, root''))
          else up root')
      else returned (eqb count 1, root')

  -- `removeValue`; each level takes one unit of fuel.
  pub remove_value : ℕ → T → ValueId → Call (Bool × T)
  remove_value zero root path = running
  remove_value (suc n) root path = if is_empty path then returned (false, root) else (do
    known ← has pt n root path
    if not known then returned (true, root) else elim (pt.get_child_optional root (above_of path)) [
      | none ↦ returned (false, root)
      | some child ↦ erase_leaf (λ (t : T). remove_value n t (parent path)) root path child
    ])
