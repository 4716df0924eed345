-- ===== src/Store/Set.antt =====
-- `VariantValueStore::set`. `is_valid` is `ValueTypeTraits::isValid`, and `factory` is
-- `VariantFactory::make`, both outside the repository. A changed value notifies the store at once; what
-- `signal_` posts to the queues of asio is not modelled.
use refer.Base.{
  ℕ, Bool, true, false, not, ◌&&◌, ◌||◌, Option, none, some, ◌∷◌, ◌≡◌, sym, ap, ◌∙◌, if◌then◌else◌,
  list_eq, nat_eq, Bool-cases, Option-cases, inl, inr,
}
use mathlib.Core.Option.{none-ne-some, some-injective}
use refer.Base.Table.{find, is_some}
use refer.HashToken.{transport_token}
use refer.ValueId.{ValueId, value_id, is_empty}
use refer.Bucketizer.{make}
use refer.ValueData.{Value, Messages, Results, same_value}
use refer.Variant.{Variant, UpdateType, set_value, is_success}
use refer.Store.{Store, changed, place, alloc_made, get, add}
use refer.Store.Grows.{add-get_kept}

abbrev is_same_value : Results → Bool
is_same_value same_value = true
is_same_value r = false

module _ {ℓ} {N : Type ℓ} (m : Messages N) (hf : ValueId → ℕ) where
  -- The branch of `set` for the value at `p`.
  pub set_at : Store N → ℕ → Value N → UpdateType → Option (Bool × Store N)
  set_at s p arg update = elim (find p s.heap) [
    | none ↦ none
    | some node ↦ elim (make hf s.bucketizer (value_id arg.id)) [
      | none ↦ none
      | some (token, bucketizer) ↦
          let value = record node.variant.value { hash_token = transport_token token } in
          let result = set_value m (record node.variant { value = value }) arg update in
          let s' = record (place s p (record node { variant = result.1 })) {
            bucketizer = bucketizer;
            events =
                if is_success result.0 && node.notifies then changed p ∷ s.events else s.events;
          } in
          some (is_success result.0 || is_same_value result.0, s')
    ]
  ]

module _ {ℓ} {N : Type ℓ} (m : Messages N) (hf : ValueId → ℕ) (blank : Value N)
    (is_valid : Value N → Bool) (factory : Value N → UpdateType → Variant N × Bool) where
  -- `set`
  unfoldable pub set : Store N → Value N → UpdateType → Option (Bool × Store N)
  set s arg update =
      let added = add hf blank (alloc_made s (factory arg update)) s.fresh in
      if is_empty arg.id || not (is_valid arg)
      then some (false, s)
      else elim (get s (value_id arg.id)) [
        | some p ↦ set_at m hf s p arg update
        | none ↦ elim added [ none ↦ none | some (r, s') ↦ some (is_some r, s') ]
      ]

  set_at-ws_map :
      (s s' : Store N) (p : ℕ) (arg : Value N) (update : UpdateType) (done : Bool)
      → set_at m hf s p arg update ≡ some (done, s')
      → s.ws_map ≡ s'.ws_map
  unfolding set_at
  set_at-ws_map s s' p arg update done e = elim (Option-cases (find p s.heap)) [
    | inl z ↦ absurd (none-ne-some (done, s') (rw (z, set_at) at e))
    | inr (node, f) ↦ elim (Option-cases (make hf s.bucketizer (value_id arg.id))) [
      | inl z ↦ absurd (none-ne-some (done, s') (rw (f, set_at, z) at e))
      | inr ((token, b), z) ↦
          ap (λ (x : Bool × Store N). x.1.ws_map)
            (some-injective _ (done, s') (rw (f, set_at, z) at e))
    ]
  ]

  -- A call of `set` that ends keeps the value of every known id.
  pub set-get_kept :
      (s s' : Store N) (arg : Value N) (update : UpdateType) (done : Bool) (k : ValueId) (q : ℕ)
      → set s arg update ≡ some (done, s')
      → get s k ≡ some q
      → get s' k ≡ some q
  unfolding set get
  set-get_kept s s' arg update done k q e h =
      elim (Bool-cases (is_empty arg.id || not (is_valid arg))) [
        | inl y ↦
            let z = some-injective _ (done, s') (rw (set, y) at e) in
            ap (λ (x : Bool × Store N). find k x.1.ws_map) (sym z) ∙ h
        | inr n ↦ elim (Option-cases (get s (value_id arg.id))) [
          | inr (p, g) ↦
              ap (find k) (sym (set_at-ws_map s s' p arg update done (rw (set, n, g) at e))) ∙ h
          | inl g ↦ elim (Option-cases (add hf blank (alloc_made s (factory arg update)) s.fresh)) [
            | inl z ↦ absurd (none-ne-some (done, s') (rw (set, n, g, z) at e))
            | inr ((r, s1), z) ↦
                let c = some-injective _ (done, s') (rw (set, n, g, z) at e) in
                ap (λ (x : Bool × Store N). find k x.1.ws_map) (sym c)
                ∙ add-get_kept hf blank (alloc_made s (factory arg update)) s1 s.fresh r k q z h
          ]
        ]
      ]
