-- ===== src/Protocol/Subscribe/Reach.antt =====
-- What `VsSubscribe` and `VsSync` of some ids leave and answer.
use refer.Base.{
  ℕ, ◌≡◌, refl, sym, ap, ◌∙◌, arith, Bool, false, ◌||◌, Option, none, some, List, [], ◌∷◌, ◌++◌,
  if◌then◌else◌, Option-cases, inl, inr, nat_eq,
}
use refer.Base.Call.{Call, returned, thrown, running}
use refer.Base.Table.{is_some}
use refer.Text.{Text}
use refer.HashToken.{HashToken}
use refer.TokenMap
use refer.ValueId.{value_id}
use refer.ValueData.{Value}
use refer.Variant
use refer.Store
use refer.Store.{Node, Store}
use refer.Protocol.{Handler, node_at, values_at, below, copy_children, is_empty, vs_result}
use refer.Protocol.Message.{ClientMessage, Ids, Status}
use refer.Protocol.Filters.{
  bind-returned, returned-injective, any_token, OnlyAdds, OnlyAdds-trans, copy_children_lem,
}
use refer.Protocol.Subscribe.{subscribe_ids, send_results, vs_subscribe}

or_comm : (a b : Bool) → (a || b) ≡ (b || a)
or_comm a b = ground arith

abbrev with_below : ℕ → Call (List ℕ) → List ℕ
with_below p (returned ps) = p ∷ ps
with_below p thrown = []
with_below p running = []

module _ {ℓ} {N : Type ℓ} where
  -- The values of the known ids, each followed by the values below it.
  pub reach : ℕ → Store N → List Text → List ℕ
  reach n s [] = []
  reach n s (id ∷ ids) = elim (Store.get s (value_id id)) [
    | none ↦ reach n s ids
    | some p ↦ with_below p (below n s p) ++ reach n s ids
  ]

  reach-unknown :
      (n : ℕ) (s : Store N) (id : Text) (ids : List Text)
      → Store.get s (value_id id) ≡ none
      → reach n s (id ∷ ids) ≡ reach n s ids
  unfolding reach
  reach-unknown n s id ids g = rw (g, reach) refl

  reach-known :
      (n : ℕ) (s : Store N) (id : Text) (ids : List Text) (p : ℕ) (ps : List ℕ)
      → Store.get s (value_id id) ≡ some p
      → below n s p ≡ returned ps
      → reach n s (id ∷ ids) ≡ (p ∷ ps) ++ reach n s ids
  unfolding reach
  reach-known n s id ids p ps g b = rw (reach, g, b) refl

  values_at-append :
      (s : Store N) (ps qs : List ℕ) (vs ws : List (Value N))
      → values_at s ps ≡ returned vs
      → values_at s qs ≡ returned ws
      → values_at s (ps ++ qs) ≡ returned (vs ++ ws)
  unfolding values_at
  values_at-append s [] qs vs ws e f = rw (← returned-injective [] vs e) f
  values_at-append s (p ∷ ps) qs vs ws e f =
      let (node, at, e1) = bind-returned (node_at s p) _ vs e in
      let (rest, r, e2) = bind-returned (values_at s ps) _ vs e1 in
      rw (at, values_at-append s ps qs rest ws r f)
        (ap (λ (l : List (Value N)). returned (l ++ ws))
          (returned-injective (Variant.get node.variant ∷ rest) vs e2))

  any_token-append :
      (s : Store N) (ps qs : List ℕ) (t : HashToken)
      → any_token s (ps ++ qs) t ≡ (any_token s ps t || any_token s qs t)
  any_token-append s [] qs t = refl
  any_token-append s (p ∷ ps) qs t = ground (arith, any_token-append s ps qs t)

  any_token-swap :
      (s : Store N) (ps qs : List ℕ) (t : HashToken)
      → (any_token s qs t || any_token s ps t) ≡ any_token s (ps ++ qs) t
  any_token-swap s ps qs t =
      or_comm (any_token s qs t) (any_token s ps t) ∙ sym (any_token-append s ps qs t)

  -- The calls of the send callback behind the loop, the last one first.
  abbrev pub results : ℕ → List (Value N) → List (Value N) → List (Option (ClientMessage N))
  results sequence_no found missing =
      (if is_empty missing
        then []
        else some (vs_result sequence_no Status.error_not_found missing) ∷ [])
      ++ (if is_empty found then [] else some (vs_result sequence_no Status.success found) ∷ [])

  send_results_lem :
      (sequence_no : ℕ) (found missing : List (Value N)) (h : Handler N)
      → let h' = send_results sequence_no found missing h in
        (h'.sent ≡ results sequence_no found missing ++ h.sent)
        × (h'.subscriptions ≡ h.subscriptions)
        × (h'.store ≡ h.store)
  unfolding send_results
  send_results_lem sequence_no [] [] h = (refl, refl, refl)
  send_results_lem sequence_no [] (m ∷ ms) h = (refl, refl, refl)
  send_results_lem sequence_no (f ∷ fs) [] h = (refl, refl, refl)
  send_results_lem sequence_no (f ∷ fs) (m ∷ ms) h = (refl, refl, refl)

module _ {ℓ} {N : Type ℓ} (blank : Value N) where
  -- The values that the answer for unknown ids holds.
  pub unknown : Store N → List Text → List (Value N)
  unknown s [] = []
  unknown s (id ∷ ids) =
      if is_some (Store.get s (value_id id))
      then unknown s ids
      else record blank { id = id } ∷ unknown s ids

  unknown-known :
      (s : Store N) (id : Text) (ids : List Text) (p : ℕ)
      → Store.get s (value_id id) ≡ some p
      → unknown s (id ∷ ids) ≡ unknown s ids
  unfolding unknown
  unknown-known s id ids p g = rw (unknown, g) refl

  unknown-unknown :
      (s : Store N) (id : Text) (ids : List Text)
      → Store.get s (value_id id) ≡ none
      → unknown s (id ∷ ids) ≡ record blank { id = id } ∷ unknown s ids
  unfolding unknown
  unknown-unknown s id ids g = rw (unknown, g) refl

  -- The two lists of values and the handler that the loop of `VsSubscribe` gives for some ids.
  abbrev Subscribed :
      ℕ → Handler N → List Text → (List (Value N) × List (Value N)) × Handler N → Type ℓ
  Subscribed n h ids result =
      (values_at h.store (reach n h.store ids) ≡ returned result.0.0)
      × (result.0.1 ≡ unknown h.store ids)
      × OnlyAdds h result.1 (any_token h.store (reach n h.store ids))

  Subscribed-unknown :
      (n : ℕ) (h h' : Handler N) (id : Text) (ids : List Text) (found missing : List (Value N))
      → Store.get h.store (value_id id) ≡ none
      → Subscribed n h ids ((found, missing), h')
      → Subscribed n h (id ∷ ids) ((found, record blank { id = id } ∷ missing), h')
  Subscribed-unknown n h h' id ids found missing g (v, m, o) =
      rw (reach-unknown n h.store id ids g, unknown-unknown h.store id ids g)
        (v, ap (λ (l : List (Value N)). record blank { id = id } ∷ l) m, o)

  Subscribed-known :
      (n : ℕ) (h h1 h' : Handler N) (id : Text) (ids : List Text) (p : ℕ)
      (values found missing : List (Value N))
      → Store.get h.store (value_id id) ≡ some p
      → copy_children n h p ≡ returned (values, h1)
      → Subscribed n h1 ids ((found, missing), h')
      → Subscribed n h (id ∷ ids) ((values ++ found, missing), h')
  Subscribed-known n h h1 h' id ids p values found missing g c (v, m, o) =
      let (ps, b, w, one) = copy_children_lem n h h1 p values c in
      let same = one.0 in
      rw (reach-known n h.store id ids p ps g b, unknown-known h.store id ids p g)
        (
          values_at-append h.store (p ∷ ps) (reach n h.store ids) values found w (rw same at v),
          rw same at m,
          OnlyAdds-trans h h1 h' (any_token h.store (p ∷ ps))
              (any_token h1.store (reach n h1.store ids))
              (any_token h.store ((p ∷ ps) ++ reach n h.store ids)) one o
              (λ t. rw same (any_token-swap h.store (p ∷ ps) (reach n h.store ids) t)),
        )

  -- The loop of `VsSubscribe`: it finds the values of the known ids with those below, subscribes to all
  -- of them, and reports the other ids.
  subscribe_ids_lem :
      (n : ℕ) (h : Handler N) (ids : List Text)
      (result : (List (Value N) × List (Value N)) × Handler N)
      → subscribe_ids blank n h ids ≡ returned result
      → Subscribed n h ids result
  unfolding subscribe_ids values_at reach unknown
  subscribe_ids_lem n h [] result e =
      rw (← returned-injective (([], []), h) result e) (refl, refl, (refl, refl, refl, λ t. refl))
  subscribe_ids_lem n h (id ∷ ids) result e =
      elim (Option-cases (Store.get h.store (value_id id))) [
        | inl z ↦
            let (((f, m), h2), r, e2) =
              bind-returned (subscribe_ids blank n h ids) _ result (rw (z, subscribe_ids) at e) in
            rw (← returned-injective ((f, record blank { id = id } ∷ m), h2) result e2)
              (Subscribed-unknown n h h2 id ids f m z (subscribe_ids_lem n h ids ((f, m), h2) r))
        | inr (p, g) ↦
            let ((values, h1), c, e1) =
              bind-returned (copy_children n h p) _ result (rw (g, subscribe_ids) at e) in
            let (((f, m), h2), r, e2) = bind-returned (subscribe_ids blank n h1 ids) _ result e1 in
            rw (← returned-injective ((values ++ f, m), h2) result e2) (
              Subscribed-known n h h1 h2 id ids p values f m g c
                (subscribe_ids_lem n h1 ids ((f, m), h2) r))
      ]

  -- A subscription to one or more ids that returns gives no answer of its own. It sends the values of
  -- the known ids and of those below them in a result of success, and the other ids in a result that
  -- they are not found, each unless it is empty. The tokens subscribed to are those from before and
  -- those of the values found; the store is as it was.
  pub vs_subscribe_lem :
      (n : ℕ) (h h' : Handler N) (msg : Ids) (answer : Option (ClientMessage N))
      → is_empty msg.ids ≡ false
      → vs_subscribe blank n h msg ≡ returned (answer, h')
      → (found : List (Value N)) × (values_at h.store (reach n h.store msg.ids) ≡ returned found)
        × (answer ≡ none)
        × (h'.sent ≡ results msg.sequence_no found (unknown h.store msg.ids) ++ h.sent)
        × (h'.store ≡ h.store)
        × ((t : HashToken)
            → TokenMap.has h'.subscriptions t
              ≡ (any_token h.store (reach n h.store msg.ids) t || TokenMap.has h.subscriptions t))
  unfolding vs_subscribe
  vs_subscribe_lem n h h' msg answer some_ids e =
      let (((found, missing), h1), r, e1) =
        bind-returned (subscribe_ids blank n h msg.ids) _ (answer, h')
          (rw (some_ids, vs_subscribe) at e) in
      let (v, m, (s, l, t, f)) = subscribe_ids_lem n h msg.ids ((found, missing), h1) r in
      let h2 = send_results msg.sequence_no found missing h1 in
      let (sent, subs, store) = send_results_lem msg.sequence_no found missing h1 in
      let z = returned-injective (none, h2) (answer, h') e1 in
      (
        found,
        v,
        sym (ap (λ (x : Option (ClientMessage N) × Handler N). x.0) z),
        ap (λ (x : Option (ClientMessage N) × Handler N). x.1.sent) (sym z) ∙ sent ∙ rw (t, m) refl,
        ap (λ (x : Option (ClientMessage N) × Handler N). x.1.store) (sym z) ∙ store ∙ s,
        λ u.
            ap (λ (x : Option (ClientMessage N) × Handler N). TokenMap.has x.1.subscriptions u)
              (sym z)
            ∙ ap (λ (x : TokenMap.TokenMap ℕ). TokenMap.has x u) subs
            ∙ f u,
      )
