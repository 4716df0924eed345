-- ===== src/Dmo/Helper/Kept.antt =====
-- What `insertValue` of `DmoValueStoreHelper` does to the ids that the store knows.
use refer.Base.{
  ℕ, zero, suc, ◌≡◌, refl, sym, ap, ◌∙◌, Bool, true, false, not, Option, none, some, List, [], ◌∷◌,
  Option-cases, inl, inr, list_eq, nat_eq, if◌then◌else◌,
}
use refer.Base.Call.{Call, returned, thrown, ◌>>=◌}
use refer.Base.Table.{find}
use refer.Text.{Text}
use refer.ValueId.{ValueId, value_id, concat, add_assign, id_eq}
use refer.ValueData.{Value, type_eq, struct_type, unset_type}
use refer.Variant.{UpdateType, local, set_value}
use refer.Store
use refer.Store.{Store}
use refer.Store.Set.{set-get_kept}
use refer.Protocol.{node_at}
use refer.Protocol.Filters.{returned-injective, bind-returned, or_thrown-some}
use refer.Protocol.Answers.{store_set}
use refer.Protocol.Answers.SetGet.{store_set_lem}
use refer.Dmo.{PropertyTree, range}
use refer.Dmo.Helper.{
  Making, make_value, create_values, locate_parent, first_child, set_value_at, insert_part,
  insert_parts, insert_store_value,
}

module _ {ℓ} {N : Type ℓ} where
  -- Every id that leads to a value leads to it afterwards.
  abbrev Keeps : Store N → Store N → Type 0
  Keeps s s' = (k : ValueId) (q : ℕ) → Store.get s k ≡ some q → Store.get s' k ≡ some q

module _ {ℓ κ} {N : Type ℓ} {A : Type κ} (store_of : A → Store N) where
  -- A call that returns keeps the ids of a store.
  abbrev Holds : Store N → Call A → Type κ
  Holds s c = (a : A) → c ≡ returned a → Keeps s (store_of a)

  returned-Holds : (s : Store N) (a : A) → Keeps s (store_of a) → Holds s (returned a)
  returned-Holds s a h b e k q g =
      ap (λ (x : A). Store.get (store_of x) k) (sym (returned-injective a b e)) ∙ h k q g

  thrown-Holds : (s : Store N) → Holds s thrown
  thrown-Holds s a e = cc

  if-Holds :
      (s : Store N) (b : Bool) (c d : Call A) → Holds s c → Holds s d → Holds s (if b then c else d)
  if-Holds s true c d h i = h
  if-Holds s false c d h i = i

  option-Holds {μ} :
      {B : Type μ} (s : Store N) (o : Option B) (c : Call A) (f : B → Call A)
      → Holds s c
      → ((b : B) → Holds s (f b))
      → Holds s (elim o [ none ↦ c | some b ↦ f b ])
  option-Holds s none c f h i = h
  option-Holds s (some b) c f h i = i b

module _ {ℓ κ μ} {N : Type ℓ} {A : Type κ} {B : Type μ} (first : B → Store N)
    (last : A → Store N) where
  bind-Holds :
      (s : Store N) (c : Call B) (f : B → Call A)
      → Holds first s c
      → ((b : B) → Holds last (first b) (f b))
      → Holds last s (c >>= f)
  bind-Holds s c f h i a e k q g =
      let (b, y, z) = bind-returned c f a e in i b a z k q (h b y k q g)

-- A call that reads only.
read-Holds {ℓ κ μ} :
    {N : Type ℓ} {A : Type κ} {B : Type μ} (last : A → Store N) (s : Store N) (c : Call B)
    (f : B → Call A)
    → ((b : B) → Holds last s (f b))
    → Holds last s (c >>= f)
read-Holds last s c f i = bind-Holds (λ b. s) last s c f (λ b e k q g. g) i

module _ {ℓ} {T N : Type ℓ} (pt : PropertyTree T (Value N)) (mk : Making N) where
  make_value-Holds :
      (s : Store N) (value : Value N) (update : UpdateType)
      → Holds (λ (x : Bool × Store N). x.1) s (make_value pt mk s value update)
  make_value-Holds s value update (done, s') e k q g =
      set-get_kept mk.messages mk.hash mk.blank mk.is_valid mk.factory s s' value update done k q
        (or_thrown-some _ (done, s') e) g

  create_values-Holds :
      (n : ℕ) (s : Store N) (above : ValueId) (children : List (Text × T)) (update : UpdateType)
      → Holds (λ (x : Store N). x) s (create_values pt mk n s above children update)
  unfolding create_values
  create_values-Holds zero s above children update = λ a e. cc
  create_values-Holds (suc n) s above [] update = returned-Holds (λ x. x) s s (λ k q g. g)
  create_values-Holds (suc n) s above ((key, t) ∷ children) update =
      let name = concat above (pt.value t).id in
      let made = record (pt.value t) { id = name } in
      bind-Holds (λ (x : Bool × Store N). x.1) (λ x. x) s _ _
        (if-Holds (λ (x : Bool × Store N). x.1) s (Store.has s name) _ _
          (returned-Holds (λ (x : Bool × Store N). x.1) s (true, s) (λ k q g. g))
          (make_value-Holds s made update))
        (λ b.
          if-Holds (λ x. x) b.1 (not b.0) _ _ (returned-Holds (λ x. x) b.1 b.1 (λ k q g. g))
            (bind-Holds (λ x. x) (λ x. x) b.1 _ _
              (if-Holds (λ x. x) b.1 (type_eq (pt.value t).type struct_type) _ _
                (create_values-Holds n b.1 name (pt.children t) update)
                (returned-Holds (λ x. x) b.1 b.1 (λ k q g. g)))
              (λ s2. create_values-Holds (suc n) s2 above children update)))

  set_value_at-Holds :
      (s : Store N) (p : ℕ) (arg : Value N) (update : UpdateType)
      → Holds (λ (x : Store N). x) s (set_value_at pt mk s p arg update)
  unfolding Store.get
  set_value_at-Holds s p arg update =
      read-Holds (λ x. x) s (node_at s p) _
        (λ node.
          let set = set_value mk.messages node.variant arg update in
          returned-Holds (λ x. x) s (store_set s p node set.0 set.1)
            (λ k q g. ap (find k) (store_set_lem s p node set.0 set.1).0 ∙ g))

  insert_part-Holds :
      (n : ℕ) (s : Store N) (element walk_id : ValueId) (t : T) (update : UpdateType)
      → Holds (λ (x : Store N). x) s (insert_part pt mk n s element walk_id t update)
  unfolding insert_part
  insert_part-Holds n s element walk_id t update =
      let value = pt.value t in
      let type = if type_eq value.type unset_type then struct_type else value.type in
      if-Holds (λ x. x) s (id_eq element (value_id value.id)) _ _
        (bind-Holds (λ (x : Bool × Store N). x.1) (λ x. x) s _ _
          (make_value-Holds s (record value { type = type; id = walk_id }) update)
          (λ b. returned-Holds (λ x. x) b.1 b.1 (λ k q g. g)))
        (read-Holds (λ x. x) s (first_child pt mk t) _
          (λ child.
            bind-Holds (λ (x : Bool × Store N). x.1) (λ x. x) s _ _
              (make_value-Holds s (record (pt.value child) { id = walk_id }) update)
              (λ b.
                if-Holds (λ x. x) b.1 (type_eq (pt.value child).type struct_type) _ _
                  (create_values-Holds n b.1 walk_id (pt.children child) update)
                  (returned-Holds (λ x. x) b.1 b.1 (λ k q g. g)))))

  insert_parts-Holds :
      (n : ℕ) (root : T) (s : Store N) (walk_id : ValueId) (es : List ValueId) (update : UpdateType)
      → Holds (λ (x : Store N). x) s (insert_parts pt mk n root s walk_id es update)
  unfolding insert_parts
  insert_parts-Holds n root s walk_id [] update = returned-Holds (λ x. x) s s (λ k q g. g)
  insert_parts-Holds n root s walk_id (e ∷ es) update =
      let here = add_assign walk_id e in
      bind-Holds (λ x. x) (λ x. x) s _ _
        (if-Holds (λ x. x) s (Store.has s here) _ _ (returned-Holds (λ x. x) s s (λ k q g. g))
          (read-Holds (λ x. x) s (locate_parent pt mk n root here) _
            (λ branch.
              option-Holds (λ x. x) s branch _ _ (returned-Holds (λ x. x) s s (λ k q g. g))
                (λ t. insert_part-Holds n s e here t update))))
        (λ s'. insert_parts-Holds n root s' here es update)

  -- The end of `insertValue` on a known id.
  abbrev set_last : Store N → ℕ → Value N → UpdateType → Call (Bool × Store N)
  set_last s p value update = do s2 ← set_value_at pt mk s p value update; returned (true, s2)

  set_last-Holds :
      (s : Store N) (p : ℕ) (value : Value N) (update : UpdateType)
      → Holds (λ (x : Bool × Store N). x.1) s (set_last s p value update)
  set_last-Holds s p value update =
      bind-Holds (λ x. x) (λ (x : Bool × Store N). x.1) s (set_value_at pt mk s p value update) _
        (set_value_at-Holds s p value update)
        (λ s2. returned-Holds (λ (x : Bool × Store N). x.1) s2 (true, s2) (λ k q g. g))

  insert_store_value-Holds :
      (n : ℕ) (root : T) (s : Store N) (value : Value N) (update : UpdateType)
      → Holds (λ (x : Bool × Store N). x.1) s (insert_store_value pt mk n root s value update)
  unfolding insert_store_value
  insert_store_value-Holds n root s value update =
      let last = λ (x : Bool × Store N). x.1 in
      option-Holds last s (Store.get s (value_id value.id)) _ _
        (read-Holds last s (range n (value_id value.id)) _ (λ es.
          bind-Holds (λ x. x) last s _ _ (insert_parts-Holds n root s [] es update)
            (λ s1.
              option-Holds last s1 (Store.get s1 (value_id value.id)) _ _
                (returned-Holds last s1 (false, s1) (λ k q g. g))
                (λ p. set_last-Holds s1 p value update))))
        (λ p. set_last-Holds s p value local)

  -- What `insertValue` returns: whether the id is known at the end.
  returns_known :
      (s s' : Store N) (p : ℕ) (id : ValueId) (value : Value N) (update : UpdateType) (done : Bool)
      → Store.get s id ≡ some p
      → set_last s p value update ≡ returned (done, s')
      → done ≡ Store.has s' id
  unfolding Store.has
  returns_known s s' p id value update done g e =
      let (s2, c, z) = bind-returned (set_value_at pt mk s p value update) _ (done, s') e in
      let same = returned-injective (true, s2) (done, s') z in
      let known = set_value_at-Holds s p value update s2 c id p g in
      ap (λ (x : Bool × Store N). x.0) (sym same)
      ∙ sym (rw known refl)
      ∙ ap (λ (x : Bool × Store N). Store.has x.1 id) same

  insert_store_value-has :
      (n : ℕ) (root : T) (s s' : Store N) (value : Value N) (update : UpdateType) (done : Bool)
      → insert_store_value pt mk n root s value update ≡ returned (done, s')
      → done ≡ Store.has s' (value_id value.id)
  unfolding insert_store_value Store.has
  insert_store_value-has n root s s' value update done e =
      let id = value_id value.id in
      elim (Option-cases (Store.get s id)) [
        | inr (p, g) ↦ returns_known s s' p id value local done g (rw (insert_store_value, g) at e)
        | inl z ↦
            let (es, c, e1) =
              bind-returned (range n id) _ (done, s') (rw (insert_store_value, z) at e) in
            let (s1, c1, e2) =
              bind-returned (insert_parts pt mk n root s [] es update) _ (done, s') e1 in
            elim (Option-cases (Store.get s1 id)) [
              | inr (p, g) ↦ returns_known s1 s' p id value update done g (rw g at e2)
              | inl y ↦
                  let same = returned-injective (false, s1) (done, s') (rw y at e2) in
                  ap (λ (x : Bool × Store N). x.0) (sym same)
                  ∙ sym (rw y refl)
                  ∙ ap (λ (x : Bool × Store N). Store.has x.1 id) same
            ]
      ]

  -- A call of `insertValue` of the helper that returns tells whether the id of the value is known at
  -- the end, and keeps what every id that was known leads to, whatever values it makes.
  pub insert_store_value_lem :
      (n : ℕ) (root : T) (s s' : Store N) (value : Value N) (update : UpdateType) (done : Bool)
      → insert_store_value pt mk n root s value update ≡ returned (done, s')
      → (done ≡ Store.has s' (value_id value.id))
        × ((k : ValueId) (q : ℕ) → Store.get s k ≡ some q → Store.get s' k ≡ some q)
  insert_store_value_lem n root s s' value update done e = (
    insert_store_value-has n root s s' value update done e,
    insert_store_value-Holds n root s value update (done, s') e,
  )
