-- ===== src/Dmo/Walk.antt =====
-- `DmoContainer`: the walks over all values and over all definitions, `pruneValues` and `sort`. A walk
-- is the list of the values that its callback is called with; each level takes one unit of fuel.
use refer.Base.{
  ℕ, zero, suc, Bool, true, false, not, ◌||◌, none, some, List, [], ◌∷◌, ◌++◌, ◌==◌, if◌then◌else◌,
  nat_eq, list_eq,
}
use refer.Base.Call.{Call, returned, running, ◌>>=◌}
use refer.Text.{Text}
use refer.ValueId.{ValueId, value_id, concat, id_eq, leaf}
use refer.ValueData.{Value, type_eq, container_type, struct_type, unset_type}
use refer.Dmo.{PropertyTree, Definitions, delim, is_instance}
use refer.Dmo.Edit.{remove_value}

module _ {ℓ} {T N : Type ℓ} (pt : PropertyTree T (Value N)) where
  -- The value of a node with its full name.
  abbrev named : ValueId → T → Value N
  named above t = record (pt.value t) { id = concat above (pt.value t).id }

  abbrev has_parts : Value N → Bool
  has_parts v = type_eq v.type container_type || type_eq v.type struct_type

  -- `visitValues` of a branch with these children.
  visit_values : ℕ → ValueId → List (Text × T) → Call (List (Value N))
  visit_values zero above children = running
  visit_values (suc n) above [] = returned []
  visit_values (suc n) above ((key, t) ∷ children) =
      if (pt.value t).id == delim then visit_values (suc n) above children else (do
        let value = named above t
        below ← if has_parts value then visit_values n value.id (pt.children t) else returned []
        rest ← visit_values (suc n) above children
        returned (value ∷ below ++ rest))

  -- `visitValues`
  visit_all_values : ℕ → T → Call (List (Value N))
  visit_all_values n root = visit_values n [] (pt.children root)

  -- The children of a container but for its definition, erased one after the other.
  abbrev erase_children : T → List (Text × T) → T
  erase_children t [] = t
  erase_children t ((key, child) ∷ rest) =
      erase_children (if key == delim then t else (pt.erase t key).0) rest

  -- The loop of `pruneValues` over the values.
  prune_loop : ℕ → T → List (Value N) → Call T
  prune_loop n root [] = returned root
  prune_loop n root (v ∷ vs) = if type_eq v.type struct_type then prune_loop n root vs else (do
    root' ←
        if not (type_eq v.type container_type)
        then (do (done, root') ← remove_value pt n root (value_id v.id); returned root')
        else returned (elim (pt.get_child_optional root (value_id v.id)) [
          | none ↦ root
          | some t ↦ pt.put_child root (value_id v.id) (erase_children t (pt.children t))
        ])
    prune_loop n root' vs)

  -- `pruneValues`
  prune_values : ℕ → T → Call T
  prune_values n root = do values ← visit_all_values n root; prune_loop n root values

  -- The first child with the key of a definition, with its full name.
  abbrev meta_child : Definitions N → ValueId → List (Text × T) → Value N
  meta_child defs above [] = record (defs.blank) { type = unset_type }
  meta_child defs above ((key, t) ∷ rest) =
      if key == delim then named above t else meta_child defs above rest

module _ {ℓ} {T N : Type ℓ} (pt : PropertyTree T (Value N)) (defs : Definitions N) (root : T) where
  -- `visitMetaData` of a branch with these children.
  visit_meta_data : ℕ → ValueId → List (Text × T) → Bool → Call (List (Value N))
  visit_meta_data zero above children inside = running
  visit_meta_data (suc n) above [] inside = returned []
  visit_meta_data (suc n) above ((key, t) ∷ children) inside = do
    let value = named pt above t
    let branch = pt.children t
    here ←
        if type_eq value.type container_type
        then elim (pt.get_child_optional root value.id) [
          | none ↦ returned (value ∷ [])
          | some container ↦
              let child = meta_child pt defs value.id (pt.children container) in
              if not (type_eq child.type struct_type) then returned (value ∷ child ∷ []) else (do
                below ← visit_meta_data n (value_id value.id) branch true
                returned (value ∷ below))
        ]
        else (if type_eq value.type struct_type
            then (do
              instance_of ← is_instance pt n root value.id
              if instance_of then returned [] else (do
                below ← visit_meta_data n value.id branch inside
                returned (if id_eq (leaf value.id) (value_id delim) then below else value ∷ below)))
            else returned (if inside then value ∷ [] else []))
    rest ← visit_meta_data (suc n) above children inside
    returned (here ++ rest)

  -- The loop of the public `visitMetaData` over the children of the root.
  visit_roots : ℕ → List (Text × T) → Call (List (Value N))
  visit_roots n [] = returned []
  visit_roots n ((key, t) ∷ children) = do
    here ← visit_meta_data n (value_id key) (pt.children t) false
    rest ← visit_roots n children
    returned (here ++ rest)

  visit_all_meta_data : ℕ → Call (List (Value N))
  visit_all_meta_data n = visit_roots n (pt.children root)

module _ {ℓ} {T N : Type ℓ} (pt : PropertyTree T (Value N)) where
  -- `sort` of a branch, and of the children behind it.
  sort_children : ℕ → List (Text × T) → Call (List (Text × T))
  sort_children zero children = running
  sort_children (suc n) [] = returned []
  sort_children (suc n) ((key, t) ∷ children) = do
    let sorted = pt.sort t
    below ← sort_children n (pt.children sorted)
    rest ← sort_children (suc n) children
    returned ((key, pt.with_children sorted below) ∷ rest)

  sort_all : ℕ → T → Call T
  sort_all n root = do
    let sorted = pt.sort root
    below ← sort_children n (pt.children sorted)
    returned (pt.with_children sorted below)
