-- ===== src/Protocol/Filters.antt =====
-- The subscriptions that `insertSubscriberFilter` and the requests to subscribe leave.
use refer.Base.{
  ℕ, ◌≡◌, refl, sym, ap, ◌∙◌, arith, Bool, true, false, ◌||◌, Option, none, some, List, [], ◌∷◌,
  eqb_iff, Bool-cases, inl, inr, nat_eq,
}
use refer.Base.Call.{Call, returned, thrown, running, ◌>>=◌, or_thrown}
use refer.Base.Table.{find}
use refer.HashToken.{HashToken, token_eq}
use refer.TokenMap
use refer.TokenMap.{TokenMap}
use refer.TokenMap.Lookup.{has-get, get-insert}
use refer.ValueData.{Value}
use refer.Store.{Node, Store}
use refer.Protocol.{
  Handler, node_at, token_of, values_at, insert_filter, insert_filters, below, copy_children,
}

pub returned-injective {ℓ} : {A : Type ℓ} (a b : A) → returned a ≡ returned b → a ≡ b
returned-injective a b e = cc

-- A call that returns has returned at each of its steps.
pub bind-returned {ℓ κ} :
    {A : Type ℓ} {B : Type κ} (m : Call A) (f : A → Call B) (b : B)
    → (m >>= f) ≡ returned b
    → (a : A) × (m ≡ returned a) × (f a ≡ returned b)
bind-returned (returned a) f b e = (a, refl, e)
bind-returned thrown f b e = cc
bind-returned running f b e = cc

pub or_thrown-some {ℓ} : {A : Type ℓ} (o : Option A) (a : A) → or_thrown o ≡ returned a → o ≡ some a
or_thrown-some none a e = cc
or_thrown-some (some b) a e = ap some (returned-injective b a e)

pub node_at-find {ℓ} :
    {N : Type ℓ} (s : Store N) (p : ℕ) (node : Node N)
    → node_at s p ≡ returned node
    → find p s.heap ≡ some node
node_at-find s p node e = or_thrown-some (find p s.heap) node e

has-insert {ℓ} :
    {T : Type ℓ} (m : TokenMap T) (t s : HashToken) (x : T)
    → TokenMap.has (TokenMap.insert m t x).1 s ≡ (token_eq t s || TokenMap.has m s)
has-insert m t s x =
    rw (has-get (TokenMap.insert m t x).1 s, has-get m s, (get-insert m t s x).1) (ground arith)

token_eq-same : (s t : HashToken) → token_eq s t ≡ true → s ≡ t
unfolding token_eq
token_eq-same s t e = ground (arith, eqb_iff s.bucket t.bucket, eqb_iff s.id t.id)

has-same {ℓ} :
    {T : Type ℓ} (m : TokenMap T) (s t : HashToken)
    → TokenMap.has m s ≡ true
    → TokenMap.has m t ≡ (token_eq s t || TokenMap.has m t)
has-same m s t h = elim (Bool-cases (token_eq s t)) [
  | inl y ↦ rw y (ap (TokenMap.has m) (sym (token_eq-same s t y)) ∙ h)
  | inr n ↦ rw n refl
]

module _ {ℓ} {N : Type ℓ} where
  -- Is this the token of one of the values?
  abbrev pub any_token : Store N → List ℕ → HashToken → Bool
  any_token s [] t = false
  any_token s (p ∷ ps) t =
      elim (find p s.heap) [ none ↦ false | some node ↦ token_eq (token_of node) t ]
      || any_token s ps t

  -- The handler with more subscriptions and nothing else changed.
  abbrev pub OnlyAdds : Handler N → Handler N → (HashToken → Bool) → Type ℓ
  OnlyAdds h h' more =
      (h'.store ≡ h.store)
      × (h'.listeners ≡ h.listeners)
      × (h'.sent ≡ h.sent)
      × ((t : HashToken)
          → TokenMap.has h'.subscriptions t ≡ (more t || TokenMap.has h.subscriptions t))

  insert_filter-OnlyAdds :
      (h h' : Handler N) (p : ℕ)
      → insert_filter h p ≡ returned h'
      → OnlyAdds h h' (any_token h.store (p ∷ []))
  unfolding insert_filter
  insert_filter-OnlyAdds h h' p e =
      let (node, at, done) = bind-returned (node_at h.store p) _ h' e in
      let f = node_at-find h.store p node at in
      elim (Bool-cases (TokenMap.has h.subscriptions (token_of node))) [
        | inl y ↦
            let z = returned-injective h h' (rw y at done) in
            rw (← z) (
              refl,
              refl,
              refl,
              λ t. rw f (has-same h.subscriptions (token_of node) t y ∙ ground arith),
            )
        | inr n ↦
            let added = record h {
              subscriptions = (TokenMap.insert h.subscriptions (token_of node) p).1;
            } in
            let z = returned-injective added h' (rw n at done) in
            rw (← z) (
              refl,
              refl,
              refl,
              λ t. rw f (has-insert h.subscriptions (token_of node) t p ∙ ground arith),
            )
      ]

  pub OnlyAdds-trans :
      (h h1 h' : Handler N) (a b c : HashToken → Bool)
      → OnlyAdds h h1 a
      → OnlyAdds h1 h' b
      → ((t : HashToken) → (b t || a t) ≡ c t)
      → OnlyAdds h h' c
  OnlyAdds-trans h h1 h' a b c (s, l, m, f) (s', l', m', f') both =
      (s' ∙ s, l' ∙ l, m' ∙ m, λ t. ground (arith, f t, f' t, both t))

  insert_filters-OnlyAdds :
      (h h' : Handler N) (ps : List ℕ)
      → insert_filters h ps ≡ returned h'
      → OnlyAdds h h' (any_token h.store ps)
  unfolding insert_filters
  insert_filters-OnlyAdds h h' [] e = rw (← returned-injective h h' e) (refl, refl, refl, λ t. refl)
  insert_filters-OnlyAdds h h' (p ∷ ps) e =
      let (h1, first, others) = bind-returned (insert_filter h p) (λ x. insert_filters x ps) h' e in
      let one = insert_filter-OnlyAdds h h1 p first in
      OnlyAdds-trans h h1 h' (any_token h.store (p ∷ [])) (any_token h1.store ps)
        (any_token h.store (p ∷ ps)) one (insert_filters-OnlyAdds h1 h' ps others)
        (λ t. rw one.0 (ground arith))

  -- What `copyValueChildrenToRepeated` gives: the messages of the value and of the values below it, each
  -- with a subscription, and no other change.
  pub copy_children_lem :
      (n : ℕ) (h h' : Handler N) (p : ℕ) (values : List (Value N))
      → copy_children n h p ≡ returned (values, h')
      → (ps : List ℕ) × (below n h.store p ≡ returned ps)
        × (values_at h.store (p ∷ ps) ≡ returned values)
        × OnlyAdds h h' (any_token h.store (p ∷ ps))
  unfolding copy_children
  copy_children_lem n h h' p values e =
      let (ps, b, e1) = bind-returned (below n h.store p) _ (values, h') e in
      let (h1, i, e2) = bind-returned (insert_filters h (p ∷ ps)) _ (values, h') e1 in
      let (vs, v, e3) = bind-returned (values_at h.store (p ∷ ps)) _ (values, h') e2 in
      let z = returned-injective (vs, h1) (values, h') e3 in
      (
        ps,
        b,
        v ∙ ap (λ (x : List (Value N) × Handler N). returned x.0) z,
        insert_filters-OnlyAdds h h' (p ∷ ps)
            (i ∙ ap (λ (x : List (Value N) × Handler N). returned x.1) z),
      )
