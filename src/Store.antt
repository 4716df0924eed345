-- ===== src/Store.antt =====
-- company_ref_variant_valuestore.{h,cpp}: the store of values by id. Shared pointers are addresses of
-- a heap, and the address 0 is `root_`. The operations hold `mutex_` or run in one thread of the
-- caller, so each is one step. The hash function `hf`, the test `ValueTypeTraits::isValid`, the empty
-- message and `VariantFactory::make` come from outside the file.
pub mod Fuel
pub mod Grows
pub mod Set
pub mod Visit
pub mod Delete
pub mod Containers
pub mod Destroy
use refer.Base.{
  ℕ, zero, suc, ◌+◌, Bool, true, false, not, ◌&&◌, ◌||◌, Option, none, some, List, [], ◌∷◌,
  if◌then◌else◌, list_eq, nat_eq, length,
}
use refer.Base.Table.{Table, find, put, is_some}
use refer.Text.{Text}
use refer.HashToken.{HashToken, invalid_token, transport_token, from_transport}
use refer.ValueId.{ValueId, value_id, parent, is_empty}
use refer.Bucketizer
use refer.Bucketizer.{Bucketizer, make}
use refer.ValueData.{
  read_write, Value, ValueType, unknown_type, struct_type, is_unset, Messages, Results, success,
  same_value, type_eq, container_type,
}
use refer.Variant
use refer.Variant.{Variant, UpdateType, remote, of_value, set_value, add_child}

-- A value on the heap with its links. `is_map`: the object is a `VariantMapValue`. `notifies`: the store
-- is connected to its signal, `notifies_requests`: also to its two signals of containers.
pub record Node {ℓ} (N : Type ℓ) : Type ℓ where
  pub variant : Variant N
  pub children : Table ValueId ℕ
  pub parent : Option ℕ
  pub is_map : Bool
  pub notifies : Bool
  pub notifies_requests : Bool

-- The calls of the signals of the store.
pub data Event : Type 0 where
  added changed removed asked_to_add asked_to_remove : ℕ → Event

pub record Store {ℓ} (N : Type ℓ) : Type ℓ where
  pub bucketizer : Bucketizer ValueId
  pub ws_map : Table Text ℕ
  pub heap : Table ℕ (Node N)
  pub fresh : ℕ
  pub events : List Event

module _ {ℓ} {N : Type ℓ} where
  -- A new value on the heap.
  abbrev pub new_node : Variant N → Node N
  new_node v = record {
    variant = v;
    children = [];
    parent = none;
    is_map = false;
    notifies = false;
    notifies_requests = false;
  }

  abbrev pub place : Store N → ℕ → Node N → Store N
  place s p node = record s { heap = put p node s.heap }

  -- `std::make_shared`: the pointer is the next address.
  abbrev pub alloc : Store N → Variant N → Store N
  alloc s v = record s { heap = put s.fresh (new_node v) s.heap; fresh = suc s.fresh }

  -- The same for what a factory made: the value, and whether it is a `VariantMapValue`.
  abbrev pub alloc_made : Store N → Variant N × Bool → Store N
  alloc_made s made = record s {
    heap = put s.fresh (record (new_node made.0) { is_map = made.1 }) s.heap;
    fresh = suc s.fresh;
  }

  -- `get`, `getSafe`
  unfoldable pub get : Store N → ValueId → Option ℕ
  get s name = find name s.ws_map

  -- `has`
  unfoldable pub has : Store N → ValueId → Bool
  has s name = is_some (get s name)

  -- `size`
  unfoldable pub size : Store N → ℕ
  size s = length s.ws_map

  -- `findHashToken`
  find_hash_token : Store N → ValueId → HashToken
  find_hash_token s name = elim (get s name) [
    | none ↦ invalid_token
    | some p ↦ elim (find p s.heap) [
      | none ↦ invalid_token
      | some node ↦ from_transport node.variant.value.hash_token
    ]
  ]

  -- `findValueId`
  unfoldable pub find_value_id : Store N → HashToken → Option ValueId
  find_value_id s t = Bucketizer.get s.bucketizer t

  -- The block of `add` that connects the store to the signals of a value.
  abbrev pub connect : Node N → Node N
  connect node = record node {
    notifies = true;
    notifies_requests =
        if type_eq node.variant.value.type container_type && node.is_map
        then true
        else node.notifies_requests;
  }

  -- The block of `add` that links a value to its parent.
  unfoldable pub link : Store N → ℕ → Node N → Option ℕ → Store N
  link s p node none = s
  link s p node (some q) = elim (find q s.heap) [
    | none ↦ s
    | some above ↦
        let linked =
          place s q
            (record above { children = add_child above.children (Variant.id node.variant) p }) in
        place linked p (record node { parent = some q })
  ]

module _ {ℓ} {N : Type ℓ} (blank : Value N) where
  -- The constructor.
  unfoldable pub empty_store : Store N
  empty_store =
      let message = record blank { id = []; type = unknown_type; access = read_write } in
      let root = of_value message UpdateType.local in
      record {
        bucketizer = Bucketizer.new;
        ws_map = [];
        heap = (0, new_node root) ∷ [];
        fresh = 1;
        events = [];
      }

  -- The parent that `getParent` makes for a value whose parent is missing.
  abbrev pub placeholder : Variant N → Variant N
  placeholder child =
      let unset = is_unset child.value.type in
      of_value
        (record blank {
          id = parent (Variant.id child);
          type = if unset then unknown_type else struct_type;
        })
        (if unset then remote else child.update_type)

  -- `getParent`, over the `add` that it calls.
  unfoldable pub get_parent :
      (Store N → ℕ → Option (Option ℕ × Store N))
      → Store N
      → Variant N
      → Option (Option ℕ × Store N)
  get_parent add s child =
      let parent_id = parent (Variant.id child) in
      let made = add (alloc s (placeholder child)) s.fresh in
      if is_empty parent_id
      then some (some 0, s)
      else elim (get s (value_id parent_id)) [ some q ↦ some (some q, s) | none ↦ made ]

module _ {ℓ} {N : Type ℓ} (hf : ValueId → ℕ) where
  -- The block of `add` that registers a value; its id becomes the one of the bucketizer.
  unfoldable pub register : Store N → ℕ → Option (Option ℕ × Store N)
  register s p = elim (find p s.heap) [
    | none ↦ none
    | some node ↦ elim (make hf s.bucketizer (Variant.id node.variant)) [
      | none ↦ none
      | some (token, bucketizer) ↦
          let value = record node.variant.value { hash_token = transport_token token } in
          let variant = record node.variant {
            value = value;
            value_id = Bucketizer.get bucketizer token;
          } in
          let name = Variant.id variant in
          let s' = record (place s p (record node { variant = variant })) {
            bucketizer = bucketizer;
          } in
          some (
            if is_some (find name s.ws_map)
            then (none, s')
            else (some p, record s' { ws_map = put name p s.ws_map; events = added p ∷ s.events }))
    ]
  ]

module _ {ℓ} {N : Type ℓ} (hf : ValueId → ℕ) (blank : Value N) where
  -- `add` of the value at `p`; each missing parent takes one unit of fuel.
  unfoldable pub add_at : ℕ → Store N → ℕ → Option (Option ℕ × Store N)
  add_at zero s p = none
  add_at (suc n) s p = elim (find p s.heap) [
    | none ↦ none
    | some node ↦
        let name = Variant.id node.variant in
        let connected = connect node in
        if is_some (get s name) || is_empty name
        then some (none, s)
        else elim (get_parent blank (add_at n) (place s p connected) node.variant) [
          | none ↦ none
          | some (above, s') ↦ register hf (link s' p connected above) p
        ]
  ]

  -- `add`, with fuel for every parent that the id can have.
  unfoldable pub add : Store N → ℕ → Option (Option ℕ × Store N)
  add s p = elim (find p s.heap) [
    | none ↦ none
    | some node ↦ add_at (suc (length (Variant.id node.variant))) s p
  ]
