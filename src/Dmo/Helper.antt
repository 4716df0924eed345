-- ===== src/Dmo/Helper.antt =====
-- src/company_ref_dmo/company_ref_dmo_helper.{h,cpp}: `DmoValueStoreHelper`, which makes values of the
-- store from the definitions of a data model. A log line is left out; each level of a branch, each
-- parent and each pair of a text takes one unit of fuel.
pub mod Kept
use refer.Base.{
  ℕ, zero, suc, ◌+◌, ◌-◌, Bool, true, false, not, Option, none, some, List, [], ◌∷◌, eqb, ltb,
  if◌then◌else◌, nat_eq, list_eq,
}
use refer.Base.Call.{Call, returned, thrown, running, ◌>>=◌, or_thrown}
use refer.Base.Table.{find}
use refer.Text.{Text, find_first, find_last, drop, substr}
use refer.ValueId.{ValueId, value_id, concat, add_assign, id_eq, is_empty, parent, leaf}
use refer.ValueData.{ValueType, Value, Messages, type_eq, container_type, struct_type, unset_type}
use refer.Variant.{Variant, UpdateType, local, set_value}
use refer.Variant.FromText.{Texts, set_text}
use refer.MapValue.{Requests}
use refer.Store
use refer.Store.{Node, Store}
use refer.Store.Set
use refer.Store.Delete.{ask}
use refer.Protocol.{node_at}
use refer.Protocol.Answers.{store_set}
use refer.Dmo.{PropertyTree, range, get_meta_data}

-- What the helper takes from outside, with the hash and the factory of the store; `trim` is the
-- replacement of `RegexUtils::TrimPattern` by nothing.
pub record Making {ℓ} (N : Type ℓ) : Type ℓ where
  pub messages : Messages N
  pub texts : Texts N
  pub requests : Requests N
  pub hash : ValueId → ℕ
  pub blank : Value N
  pub is_valid : Value N → Bool
  pub factory : Value N → UpdateType → Variant N × Bool
  pub trim : Text → Text

module _ {ℓ} {T N : Type ℓ} (pt : PropertyTree T (Value N)) (mk : Making N) where
  -- The call of `set` of the store.
  abbrev pub make_value : Store N → Value N → UpdateType → Call (Bool × Store N)
  make_value s value update =
      or_thrown (Store.Set.set mk.messages mk.hash mk.blank mk.is_valid mk.factory s value update)

  -- `createValuesFromDmo` of a branch with these children.
  unfoldable pub create_values :
      ℕ → Store N → ValueId → List (Text × T) → UpdateType → Call (Store N)
  create_values zero s above children update = running
  create_values (suc n) s above [] update = returned s
  create_values (suc n) s above ((key, t) ∷ children) update = do
    let name = concat above (pt.value t).id
    let value = pt.value t
    (done, s1) ←
        if Store.has s name
        then returned (true, s)
        else make_value s (record value { id = name }) update
    if not done then returned s1 else (do
      s2 ←
          if type_eq value.type struct_type
          then create_values n s1 name (pt.children t) update
          else returned s1
      create_values (suc n) s2 above children update)

  -- The test in `locateParentDmo` that a branch has the name of its path.
  abbrev is_named : ValueId → Option T → Bool
  is_named id none = false
  is_named id (some t) = id_eq (leaf id) (value_id (pt.value t).id)

  -- `locateParentDmo`
  unfoldable pub locate_parent : ℕ → T → ValueId → Call (Option T)
  locate_parent zero root id = running
  locate_parent (suc n) root id = if is_empty id then returned none else (do
    branch ← get_meta_data pt n root id
    if is_named id branch
        then returned branch
        else (if not (id_eq (parent id) id)
            then locate_parent n root (parent id)
            else returned none))

  -- `*begin()` of a branch; without children there is nothing to point at.
  abbrev pub first_child : T → Call T
  first_child t = elim (pt.children t) [ [] ↦ thrown | (key, child) ∷ rest ↦ returned child ]

  -- The call of `set` of the value at `p`.
  abbrev pub set_value_at : Store N → ℕ → Value N → UpdateType → Call (Store N)
  set_value_at s p arg update = do
    node ← node_at s p
    let (r, v) = set_value mk.messages node.variant arg update
    returned (store_set s p node r v)

  -- The body of the loop of `insertValue` for a part that the store does not know, with its branch.
  unfoldable pub insert_part : ℕ → Store N → ValueId → ValueId → T → UpdateType → Call (Store N)
  insert_part n s element walk_id t update =
      let value = pt.value t in
      if id_eq element (value_id value.id)
      then (do
        let type = if type_eq value.type unset_type then struct_type else value.type
        (done, s1) ← make_value s (record value { type = type; id = walk_id }) update
        returned s1)
      else (do
        child ← first_child t
        let meta = pt.value child
        (done, s1) ← make_value s (record meta { id = walk_id }) update
        if type_eq meta.type struct_type
            then create_values n s1 walk_id (pt.children child) update
            else returned s1)

  -- The loop of `insertValue` over the parts of the id.
  unfoldable pub insert_parts :
      ℕ → T → Store N → ValueId → List ValueId → UpdateType → Call (Store N)
  insert_parts n root s walk_id [] update = returned s
  insert_parts n root s walk_id (e ∷ es) update = do
    let here = add_assign walk_id e
    s' ← if Store.has s here then returned s else (do
      branch ← locate_parent n root here
      elim branch [ none ↦ returned s | some t ↦ insert_part n s e here t update ])
    insert_parts n root s' here es update

  -- `insertValue`
  unfoldable pub insert_store_value : ℕ → T → Store N → Value N → UpdateType → Call (Bool × Store N)
  insert_store_value n root s value update =
      let id = value_id value.id in
      elim (Store.get s id) [
        | some p ↦ do s' ← set_value_at s p value local; returned (true, s')
        | none ↦ do
          es ← range n id
          s1 ← insert_parts n root s [] es update
          elim (Store.get s1 id) [
            | none ↦ returned (false, s1)
            | some p ↦ do s2 ← set_value_at s1 p value update; returned (true, s2)
          ]
      ]

  -- The values of a pair `key=value` of a text: the child gets the value.
  set_pair : ℕ → Store N → ValueId → Text → UpdateType → Call (Store N)
  set_pair n s container_id pair update = elim (find_first (λ c. eqb c b'=') pair) [
    | none ↦ returned s
    | some at ↦ elim (Store.get s (concat container_id (mk.trim (substr pair 0 at)))) [
      | none ↦ returned s
      | some p ↦ do
        node ← node_at s p
        (r, v) ← set_text mk.texts n mk.messages node.variant (mk.trim (drop (at + 1) pair)) update
        returned (store_set s p node r v)
    ]
  ]

  -- The loop over the pairs of a text between two positions.
  set_pairs : ℕ → Store N → ValueId → Text → ℕ → ℕ → UpdateType → Call (Store N)
  set_pairs zero s container_id text begin last update = running
  set_pairs (suc n) s container_id text begin last update =
      let comma : ℕ = elim (find_first (λ c. eqb c b',') (drop begin text)) [
        | none ↦ last
        | some i ↦ begin + i
      ] in
      if ltb begin (last + 1)
      then (do
        s' ← set_pair n s container_id (substr text begin (comma - begin)) update
        set_pairs n s' container_id text (comma + 1) last update)
      else returned s

  -- The block of `insertChild` for a text, which may name no braces.
  set_braced : ℕ → Store N → ValueId → Text → UpdateType → Call (Store N)
  set_braced n s container_id text update =
      if is_empty text then returned s else elim (find_first (λ c. eqb c b'{') text) [
        | none ↦ returned s
        | some first ↦ elim (find_last (λ c. eqb c b'}') text) [
          | none ↦ returned s
          | some last ↦ set_pairs n s container_id text (first + 1) last update
        ]
      ]

  -- The block of `insertChild` for the definition of the container.
  make_child : ℕ → Store N → ValueId → Option T → UpdateType → Call (Bool × Store N)
  make_child n s container_id none update = returned (true, s)
  make_child n s container_id (some t) update =
      if not (type_eq (pt.value t).type container_type) then returned (false, s) else (do
        child ← first_child t
        let value = pt.value child
        (done, s1) ← make_value s (record value { id = container_id }) update
        if not done then returned (false, s1) else (do
          s2 ←
              if type_eq value.type struct_type
              then create_values n s1 container_id (pt.children child) update
              else returned s1
          returned (true, s2)))

  -- `addToContainer` of the container value at `q`.
  abbrev request_child : Store N → ℕ → ValueId → Call (Store N)
  request_child s q key = do
    above ← node_at s q
    returned (elim (mk.requests.make_add_to above.variant key local) [
      | none ↦ s
      | some request ↦ ask s q above request false
    ])

  -- `insertChild`
  insert_child : ℕ → T → Store N → ValueId → Text → Text → UpdateType → Call (Bool × Store N)
  insert_child n root s above key text update = elim (Store.get s above) [
    | none ↦ returned (false, s)
    | some q ↦ do
      node ← node_at s q
      if not node.is_map then returned (false, s) else (do
        branch ← get_meta_data pt n root above
        (done, s1) ← make_child n s (concat above key) branch update
        if not done then returned (false, s1) else (do
          s2 ← request_child s1 q (value_id key)
          s3 ← set_braced n s2 (concat above key) text update
          returned (true, s3)))
  ]
