-- ===== src/Protocol/Subscribe/Same.antt =====
-- `VsSync` and `VsSubscribe` of the same ids.
use refer.Base.{ℕ, ◌≡◌, refl, sym, Option-cases, inl, inr, List, [], ◌∷◌, ◌++◌, list_eq, nat_eq}
use refer.Base.Call.{Call, returned, thrown, running, ◌>>=◌}
use refer.Text.{Text}
use refer.ValueId.{value_id}
use refer.ValueData.{Value}
use refer.Store
use refer.Protocol.{Handler, copy_children}
use refer.Protocol.Subscribe.{sync_ids, subscribe_ids}

module _ {ℓ} {N : Type ℓ} where
  -- A result of the loop of `VsSubscribe` without the ids that are not found.
  abbrev pub found_only :
      Call ((List (Value N) × List (Value N)) × Handler N) → Call (List (Value N) × Handler N)
  found_only c = c >>= λ r. returned (r.0.0, r.1)

  abbrev put_before :
      List (Value N) → Call (List (Value N) × Handler N) → Call (List (Value N) × Handler N)
  put_before values c = c >>= λ r. returned (values ++ r.0, r.1)

  abbrev put_found_before :
      List (Value N)
      → Call ((List (Value N) × List (Value N)) × Handler N)
      → Call ((List (Value N) × List (Value N)) × Handler N)
  put_found_before values c = c >>= λ r. returned ((values ++ r.0.0, r.0.1), r.1)

  put_before-found_only :
      (values : List (Value N)) (c : Call ((List (Value N) × List (Value N)) × Handler N))
      → put_before values (found_only c) ≡ found_only (put_found_before values c)
  put_before-found_only values (returned r) = refl
  put_before-found_only values thrown = refl
  put_before-found_only values running = refl

  missing-found_only :
      (v : Value N) (c : Call ((List (Value N) × List (Value N)) × Handler N))
      → found_only (c >>= λ r. returned ((r.0.0, v ∷ r.0.1), r.1)) ≡ found_only c
  missing-found_only v (returned r) = refl
  missing-found_only v thrown = refl
  missing-found_only v running = refl

  both_before :
      (c : Call (List (Value N) × Handler N)) (f : Handler N → Call (List (Value N) × Handler N))
      (g : Handler N → Call ((List (Value N) × List (Value N)) × Handler N))
      → ((h : Handler N) → f h ≡ found_only (g h))
      → (c >>= λ r. put_before r.0 (f r.1)) ≡ found_only (c >>= λ r. put_found_before r.0 (g r.1))
  both_before thrown f g same = refl
  both_before running f g same = refl
  both_before (returned (values, h)) f g same = rw (same h) (put_before-found_only values (g h))

module _ {ℓ} {N : Type ℓ} (blank : Value N) where
  -- The loops of `VsSync` and `VsSubscribe` over the same ids give the same values and the same
  -- handler, and end in the same way.
  pub sync_ids-subscribe_ids :
      (n : ℕ) (h : Handler N) (ids : List Text)
      → sync_ids n h ids ≡ found_only (subscribe_ids blank n h ids)
  unfolding sync_ids subscribe_ids
  sync_ids-subscribe_ids n h [] = refl
  sync_ids-subscribe_ids n h (id ∷ ids) = elim (Option-cases (Store.get h.store (value_id id))) [
    | inl z ↦
        rw (z, sync_ids, subscribe_ids, sync_ids-subscribe_ids n h ids)
          (sym (missing-found_only (record blank { id = id }) (subscribe_ids blank n h ids)))
    | inr (p, g) ↦
        rw (g, sync_ids, subscribe_ids)
          (both_before (copy_children n h p) (λ h1. sync_ids n h1 ids)
            (λ h1. subscribe_ids blank n h1 ids) (λ h1. sync_ids-subscribe_ids n h1 ids))
  ]
