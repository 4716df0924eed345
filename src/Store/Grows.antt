-- ===== src/Store/Grows.antt =====
-- `VariantValueStore::add`: the ids that are known before and after it.
pub mod Named
use refer.Base.{
  ℕ, zero, suc, ◌≡◌, refl, sym, ap, ◌∙◌, arith, ◌||◌, Option, none, some, ◌∷◌, list_eq, nat_eq,
  length, Bool-cases, Option-cases, inl, inr, ◌⊎◌,
}
use mathlib.Core.Option.{none-ne-some, some-injective}
use refer.Base.Equality.{list_beq_iff}
use refer.Base.Table.{find, put, is_some, find-put}
use refer.ValueId.{ValueId, value_id, parent, is_empty}
use refer.HashToken.{transport_token}
use refer.Bucketizer
use refer.Bucketizer.{make}
use refer.ValueData.{Value}
use refer.Variant
use refer.Variant.{Variant}
use refer.Store.{
  Node, Store, added, connect, place, alloc, get, placeholder, get_parent, link, register, add_at,
  add,
}

module _ {ℓ} {N : Type ℓ} where
  -- Every id that is known keeps its value.
  abbrev Keeps : Store N → Store N → Type 0
  Keeps s s' = (k : ValueId) (q : ℕ) → find k s.ws_map ≡ some q → find k s'.ws_map ≡ some q

  link-ws_map :
      (s : Store N) (p : ℕ) (node : Node N) (above : Option ℕ)
      → (link s p node above).ws_map ≡ s.ws_map
  unfolding link
  link-ws_map s p node none = refl
  link-ws_map s p node (some q) = elim (Option-cases (find q s.heap)) [
    | inl e ↦ rw (e, link) refl
    | inr (n, e) ↦ rw (e, link) refl
  ]

module _ {ℓ} {N : Type ℓ} (hf : ValueId → ℕ) where
  -- What a call of `register` that ends did: it found the id taken, or put the value under an id.
  register-ws_map :
      (s s' : Store N) (p : ℕ) (r : Option ℕ)
      → register hf s p ≡ some (r, s')
      → ((r ≡ none) × (s'.ws_map ≡ s.ws_map))
        ⊎ ((name : ValueId) × (r ≡ some p)
            × (find name s.ws_map ≡ none)
            × (s'.ws_map ≡ put name p s.ws_map)
            × (s'.events ≡ added p ∷ s.events))
  unfolding register
  register-ws_map s s' p r e = elim (Option-cases (find p s.heap)) [
    | inl z ↦ absurd (none-ne-some (r, s') (rw (z, register) at e))
    | inr (node, f) ↦ elim (Option-cases (make hf s.bucketizer (Variant.id node.variant))) [
      | inl z ↦ absurd (none-ne-some (r, s') (rw (f, register, z) at e))
      | inr ((token, b), m) ↦
          let name = Variant.id (record node.variant {
            value = record node.variant.value { hash_token = transport_token token };
            value_id = Bucketizer.get b token;
          }) in
          elim (Option-cases (find name s.ws_map)) [
            | inl free ↦
                let z = some-injective _ (r, s') (rw (f, register, m, free) at e) in
                inr (
                  name,
                  sym (ap (λ (x : Option ℕ × Store N). x.0) z),
                  free,
                  sym (ap (λ (x : Option ℕ × Store N). x.1.ws_map) z),
                  sym (ap (λ (x : Option ℕ × Store N). x.1.events) z),
                )
            | inr (q, taken) ↦
                let z = some-injective _ (r, s') (rw (f, register, m, taken) at e) in
                inl (
                  sym (ap (λ (x : Option ℕ × Store N). x.0) z),
                  sym (ap (λ (x : Option ℕ × Store N). x.1.ws_map) z),
                )
          ]
    ]
  ]

  register-Keeps :
      (s s' : Store N) (p : ℕ) (r : Option ℕ) → register hf s p ≡ some (r, s') → Keeps s s'
  register-Keeps s s' p r e k q f = elim (register-ws_map s s' p r e) [
    | inl (n, same) ↦ ap (find k) same ∙ f
    | inr (name, got, free, same, ev) ↦
        ap (find k) same
        ∙ ground (
          arith,
          find-put name k p s.ws_map,
          list_beq_iff name k,
          ap (λ (i : ValueId). find i s.ws_map) {x = name} {y = k},
        )
  ]

module _ {ℓ} {N : Type ℓ} (hf : ValueId → ℕ) (blank : Value N) where
  get_parent-Keeps :
      (f : Store N → ℕ → Option (Option ℕ × Store N)) (s s' : Store N) (child : Variant N)
      (r : Option ℕ)
      → ((t t' : Store N) (p : ℕ) (x : Option ℕ) → f t p ≡ some (x, t') → Keeps t t')
      → get_parent blank f s child ≡ some (r, s')
      → Keeps s s'
  unfolding get_parent
  get_parent-Keeps f s s' child r keeps e k q g =
      elim (Bool-cases (is_empty (parent (Variant.id child)))) [
        | inl y ↦
            let z = some-injective _ (r, s') (rw (get_parent, y) at e) in
            ap (λ (x : Option ℕ × Store N). find k x.1.ws_map) (sym z) ∙ g
        | inr n ↦ elim (Option-cases (get s (value_id (parent (Variant.id child))))) [
          | inl a ↦
              keeps (alloc s (placeholder blank child)) s' s.fresh r (rw (get_parent, n, a) at e) k
                q g
          | inr (above, a) ↦
              let z = some-injective _ (r, s') (rw (get_parent, n, a) at e) in
              ap (λ (x : Option ℕ × Store N). find k x.1.ws_map) (sym z) ∙ g
        ]
      ]

  -- A call of `add` with fuel that ends refused the value, or registered it after its parent was found.
  data Called (n : ℕ) (s : Store N) (p : ℕ) (r : Option ℕ) (s' : Store N) : Type ℓ where
    refused : r ≡ none → s ≡ s' → Called n s p r s'
    reached :
        (node : Node N) (above : Option ℕ) (s1 : Store N)
        → find p s.heap ≡ some node
        → get_parent blank (add_at hf blank n) (place s p (connect node)) node.variant
          ≡ some (above, s1)
        → register hf (link s1 p (connect node) above) p ≡ some (r, s')
        → Called n s p r s'

  add_at-Called :
      (n : ℕ) (s s' : Store N) (p : ℕ) (r : Option ℕ)
      → add_at hf blank (suc n) s p ≡ some (r, s')
      → Called n s p r s'
  unfolding add_at
  add_at-Called n s s' p r e = elim (Option-cases (find p s.heap)) [
    | inl z ↦ absurd (none-ne-some (r, s') (rw (z, add_at) at e))
    | inr (node, f) ↦
        let connected = connect node in
        elim (Bool-cases
          (is_some (get s (Variant.id node.variant)) || is_empty (Variant.id node.variant))) [
            | inl y ↦
                let z = some-injective _ (r, s') (rw (f, add_at, y) at e) in
                refused (sym (ap (λ (x : Option ℕ × Store N). x.0) z))
                  (ap (λ (x : Option ℕ × Store N). x.1) z)
            | inr y ↦
                elim (Option-cases
                  (get_parent blank (add_at hf blank n) (place s p connected) node.variant)) [
                    | inl z ↦ absurd (none-ne-some (r, s') (rw (f, add_at, y, z) at e))
                    | inr ((above, s1), z) ↦ reached node above s1 f z (rw (f, add_at, y, z) at e)
                  ]
          ]
  ]

  Called-Keeps :
      (n : ℕ) (s s' : Store N) (p : ℕ) (r : Option ℕ)
      → ((t t' : Store N) (i : ℕ) (x : Option ℕ)
          → add_at hf blank n t i ≡ some (x, t')
          → Keeps t t')
      → Called n s p r s'
      → Keeps s s'
  Called-Keeps n s s' p r keeps (refused z same) k q g =
      ap (λ (x : Store N). find k x.ws_map) (sym same) ∙ g
  Called-Keeps n s s' p r keeps (reached node above s1 f z done) k q g =
      let before =
        get_parent-Keeps (add_at hf blank n) (place s p (connect node)) s1 node.variant above keeps
          z k q g in
      register-Keeps hf (link s1 p (connect node) above) s' p r done k q
        (ap (find k) (link-ws_map s1 p (connect node) above) ∙ before)

  add_at-Keeps :
      (n : ℕ) (s s' : Store N) (p : ℕ) (r : Option ℕ)
      → add_at hf blank n s p ≡ some (r, s')
      → Keeps s s'
  unfolding add_at
  add_at-Keeps zero s s' p r e = absurd (none-ne-some (r, s') e)
  add_at-Keeps (suc n) s s' p r e =
      Called-Keeps n s s' p r (λ t t' i x c. add_at-Keeps n t t' i x c) (add_at-Called n s s' p r e)

  -- A call of `add` that ends keeps the value of every known id, parents that it makes included.
  pub add-get_kept :
      (s s' : Store N) (p : ℕ) (r : Option ℕ) (k : ValueId) (q : ℕ)
      → add hf blank s p ≡ some (r, s')
      → get s k ≡ some q
      → get s' k ≡ some q
  unfolding add get
  add-get_kept s s' p r k q e g = elim (Option-cases (find p s.heap)) [
    | inl z ↦ absurd (none-ne-some (r, s') (rw (z, add) at e))
    | inr (node, f) ↦
        add_at-Keeps (suc (length (Variant.id node.variant))) s s' p r (rw (f, add) at e) k q g
  ]
