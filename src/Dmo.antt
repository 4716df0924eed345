-- ===== src/Dmo.antt =====
-- src/company_ref_dmo/company_ref_dmo_container.{h,cpp}: the definitions of data models in a tree of
-- values with names. `PropertyTree` is the interface of the tree, `boost::property_tree`, outside the
-- repository, and `Definitions` what company_ref_protocol_utils does with values. Here are the methods
-- that read; a loop over the parts of a name, and the walk up to its parents, run on fuel.
pub mod Edit
pub mod Paths
pub mod Instances
pub mod Helper
pub mod Walk
use refer.Base.{
  ℕ, zero, suc, Bool, true, false, Option, none, some, List, [], ◌∷◌, ◌==◌, if◌then◌else◌, nat_eq,
  list_eq,
}
use refer.Base.Call.{Call, returned, running, ◌>>=◌, or_running}
use refer.Text.{Text}
use refer.ValueId.{ValueId, value_id, add_assign, id_eq, is_empty, parent, leaf, begin, end}
use refer.ValueId.Segments.Walk.{elements}
use refer.ValueData.{ValueType, Value, type_eq, container_type, unset_type}

-- `basic_ptree`: the value of a node, its children in order, and the methods by path or by key.
-- `put_child` is a write through the reference that `get_child_optional` returns.
pub record PropertyTree {ℓ} (T V : Type ℓ) : Type ℓ where
  pub value : T → V
  pub children : T → List (Text × T)
  pub with_value : T → V → T
  pub with_children : T → List (Text × T) → T
  pub get_child_optional : T → Text → Option T
  pub put_child : T → Text → T → T
  pub put : T → Text → V → T
  pub find : T → Text → Option T
  pub erase : T → Text → T × ℕ
  pub sort : T → T

-- `valueInit`, `ValueTypeTraits::isValid` and a new message.
pub record Definitions {ℓ} (N : Type ℓ) : Type ℓ where
  pub blank : Value N
  pub init : Value N → ValueType → Value N
  pub is_valid : Value N → Bool

-- `MetaContainerDelim`
abbrev pub delim : Text
delim = b'+' ∷ []

-- The parts that a loop over a name reads.
abbrev pub range : ℕ → ValueId → Call (List ValueId)
range n name = or_running (elements n (begin name) (end name))

module _ {ℓ} {T N : Type ℓ} (pt : PropertyTree T (Value N)) where
  abbrev pub is_container : T → Bool
  is_container t = type_eq (pt.value t).type container_type

  -- The loop of `getMetaData` over the parts of a path.
  unfoldable pub meta_data_loop : T → ValueId → Bool → Option T → List ValueId → Option T
  meta_data_loop root id skip found [] = found
  meta_data_loop root id skip found (e ∷ es) =
      let search_id = if skip then id else add_assign id e in
      elim (pt.get_child_optional root search_id) [
        | none ↦ none
        | some child ↦
            let keyed = is_container child in
            let next_id = if keyed then add_assign search_id (value_id delim) else search_id in
            meta_data_loop root next_id keyed (some child) es
      ]

  -- `getMetaData`
  unfoldable pub get_meta_data : ℕ → T → ValueId → Call (Option T)
  get_meta_data n root path =
      if is_empty path
      then returned none
      else (do es ← range n path; returned (meta_data_loop root [] false none es))

  -- `getValueDefinition`
  get_value_definition : Definitions N → ℕ → T → ValueId → Call (Value N)
  get_value_definition defs n root path = do
    found ← get_meta_data n root path
    returned (elim found [ none ↦ defs.blank | some t ↦ pt.value t ])

  -- The loop of `getMetaDataPath`.
  pub meta_path_loop : T → ValueId → Bool → List ValueId → ValueId
  meta_path_loop root id skip [] = id
  meta_path_loop root id skip (e ∷ es) =
      let search_id = if skip then id else add_assign id e in
      elim (pt.get_child_optional root search_id) [
        | none ↦ []
        | some child ↦
            let keyed = is_container child in
            let next_id = if keyed then add_assign search_id (value_id delim) else search_id in
            meta_path_loop root next_id keyed es
      ]

  -- `getMetaDataPath`
  pub get_meta_data_path : ℕ → T → ValueId → Call ValueId
  get_meta_data_path n root path =
      if is_empty path
      then returned []
      else (do es ← range n path; returned (meta_path_loop root [] false es))

  -- `getMetaDataType`
  get_meta_data_type : T → ValueId → ValueType
  get_meta_data_type root path = elim (pt.get_child_optional root path) [
    | none ↦ unset_type
    | some child ↦ (pt.value child).type
  ]

  -- The loop of `has` from a branch.
  pub has_loop : T → List ValueId → Bool
  has_loop branch [] = true
  has_loop branch (e ∷ es) = elim (pt.find branch e) [
    | none ↦ false
    | some child ↦ has_loop child es
  ]

  -- `has`
  pub has : ℕ → T → ValueId → Call Bool
  has n root path =
      if is_empty path then returned false else (do es ← range n path; returned (has_loop root es))

  -- The first child of the value at a path, if it is there, is a definition.
  pub starts_with_meta : T → ValueId → Bool
  starts_with_meta root path = elim (pt.get_child_optional root path) [
    | none ↦ false
    | some branch ↦ elim (pt.children branch) [
      | [] ↦ false
      | (key, child) ∷ rest ↦ (pt.value child).id == delim
    ]
  ]

  -- `isInstance`; each level takes one unit of fuel.
  pub is_instance : ℕ → T → ValueId → Call Bool
  is_instance zero root path = running
  is_instance (suc n) root path =
      let rest = is_instance n root (parent path) in
      if is_empty path
      then returned false
      else (if id_eq (leaf path) (value_id delim)
          then returned false
          else (if starts_with_meta root (parent path) then returned true else rest))

-- The loop of `isMetaData`.
abbrev is_meta : List ValueId → Bool
is_meta [] = false
is_meta (e ∷ es) = if id_eq e (value_id delim) then true else is_meta es

-- `isMetaData`
is_meta_data : ℕ → ValueId → Call Bool
is_meta_data n path = do es ← range n path; returned (is_meta es)

-- `empty`
has_no_values {ℓ} : {T N : Type ℓ} → PropertyTree T (Value N) → T → Bool
has_no_values pt root = elim (pt.children root) [ [] ↦ true | x ∷ xs ↦ false ]
