-- ===== src/Protocol/Notices/Parents.antt =====
-- `ServerProtocolHandler::isParentSubscribed` and `onValueAdded`: who is told of a new value.
use refer.Base.{
  ℕ, zero, suc, ◌<◌, ◌≡◌, refl, sym, ap, ◌∙◌, arith, Bool, true, false, ◌||◌, ◌⊎◌, Option, none,
  some, List, [], ◌∷◌, Bool-cases, Option-cases, inl, inr, nat_eq, list_eq, length,
}
use mathlib.Core.Bool.{false≢true}
use mathlib.Core.Option.{none-ne-some, some-injective}
use refer.Base.Call.{Call, returned}
use refer.Base.Table.{find}
use refer.HashToken.{HashToken}
use refer.TokenMap
use refer.ValueId
use refer.ValueId.{ValueId, value_id, parent}
use refer.ValueId.Length.{parent-shorter}
use refer.Variant
use refer.Variant.{Variant, is_local}
use refer.Store
use refer.Store.{Node, Store}
use refer.Protocol.{Handler, is_empty, send, token_of}
use refer.Protocol.Message.{ClientMessage}
use refer.Protocol.Notices.{parent_loop, is_parent_subscribed, changed_message, on_value_added}

length-empty : (path : ValueId) → ValueId.is_empty path ≡ true → length path ≡ 0
unfolding ValueId.is_empty
length-empty [] e = refl
length-empty (c ∷ s) e = cc

parent-below :
    (path : ValueId) (n : ℕ)
    → ValueId.is_empty path ≡ false
    → length path < suc n
    → length (parent path) < n
unfolding ValueId.is_empty
parent-below [] n e l = cc
parent-below (c ∷ s) n e l = elim (Bool-cases (ValueId.is_empty (parent (c ∷ s)))) [
  | inl z ↦ let short = length-empty (parent (c ∷ s)) z in omega arith
  | inr z ↦ let short = parent-shorter (c ∷ s) z in omega arith
]

module _ {ℓ} {N : Type ℓ} where
  -- Every id of the store leads to a value.
  abbrev pub IsClosed : Store N → Type ℓ
  IsClosed s =
      (k : ValueId) (q : ℕ) → Store.get s k ≡ some q → (node : Node N) × (find q s.heap ≡ some node)

  -- One of the parents of an id, up to the first that the store does not know, is subscribed to.
  pub data IsUnder (h : Handler N) : ValueId → Type ℓ where
    child_of :
        {path : ValueId} (q : ℕ) (above : Node N)
        → ValueId.is_empty path ≡ false
        → Store.get h.store (value_id (parent path)) ≡ some q
        → find q h.store.heap ≡ some above
        → TokenMap.has h.subscriptions (token_of above) ≡ true
        → IsUnder h path
    below :
        {path : ValueId} (q : ℕ)
        → ValueId.is_empty path ≡ false
        → Store.get h.store (value_id (parent path)) ≡ some q
        → IsUnder h (parent path)
        → IsUnder h path

  abbrev subscribe_to : Handler N → ℕ → HashToken → Handler N
  subscribe_to h p token = record h { subscriptions = (TokenMap.insert h.subscriptions token p).1 }

  -- What the loop of `isParentSubscribed` gives.
  data Found (h : Handler N) (p : ℕ) (token : HashToken) (path : ValueId)
      (c : Call (Bool × Handler N)) : Type ℓ where
    under : c ≡ returned (true, subscribe_to h p token) → IsUnder h path → Found h p token path c
    apart : c ≡ returned (false, h) → ¬ IsUnder h path → Found h p token path c

  not-under-empty :
      (h : Handler N) {path : ValueId} → ValueId.is_empty path ≡ true → ¬ IsUnder h path
  not-under-empty h e (child_of q above n g f t) = false≢true (sym n ∙ e)
  not-under-empty h e (below q n g u) = false≢true (sym n ∙ e)

  not-under-unknown :
      (h : Handler N) {path : ValueId}
      → Store.get h.store (value_id (parent path)) ≡ none
      → ¬ IsUnder h path
  not-under-unknown h e (child_of q above n g f t) = none-ne-some q (sym e ∙ g)
  not-under-unknown h e (below q n g u) = none-ne-some q (sym e ∙ g)

  not-under-parent :
      (h : Handler N) {path : ValueId} (q : ℕ) (above : Node N)
      → Store.get h.store (value_id (parent path)) ≡ some q
      → find q h.store.heap ≡ some above
      → TokenMap.has h.subscriptions (token_of above) ≡ false
      → ¬ IsUnder h (parent path)
      → ¬ IsUnder h path
  not-under-parent h q above g f t no_higher (below r n g' u) = no_higher u
  not-under-parent h q above g f t no_higher (child_of r above' n g' f' t') =
      let same : q ≡ r = some-injective q r (sym g ∙ g') in
      let node : above ≡ above' =
        some-injective above above' (sym f ∙ ap (λ (i : ℕ). find i h.store.heap) same ∙ f') in
      false≢true (sym t ∙ ap (λ (x : Node N). TokenMap.has h.subscriptions (token_of x)) node ∙ t')

  Found-parent :
      (h : Handler N) (p : ℕ) (token : HashToken) (path : ValueId) (q : ℕ) (above : Node N)
      {c d : Call (Bool × Handler N)}
      → ValueId.is_empty path ≡ false
      → Store.get h.store (value_id (parent path)) ≡ some q
      → find q h.store.heap ≡ some above
      → TokenMap.has h.subscriptions (token_of above) ≡ false
      → c ≡ d
      → Found h p token (parent path) d
      → Found h p token path c
  Found-parent h p token path q above e g f t same (under d u) = under (same ∙ d) (below q e g u)
  Found-parent h p token path q above e g f t same (apart d u) =
      apart (same ∙ d) (not-under-parent h q above g f t u)

  parent_loop-Found :
      (n : ℕ) (h : Handler N) (p : ℕ) (token : HashToken) (path : ValueId)
      → IsClosed h.store
      → length path < n
      → Found h p token path (parent_loop n h p token path)
  unfolding parent_loop
  parent_loop-Found zero h p token path closed l = absurd (omega arith)
  parent_loop-Found (suc n) h p token path closed l = elim (Bool-cases (ValueId.is_empty path)) [
    | inl e ↦ apart (rw (parent_loop, e) refl) (not-under-empty h e)
    | inr e ↦ elim (Option-cases (Store.get h.store (value_id (parent path)))) [
      | inl z ↦ apart (rw (parent_loop, e, z) refl) (not-under-unknown h z)
      | inr (q, g) ↦
          let (above, f) = closed (value_id (parent path)) q g in
          elim (Bool-cases (TokenMap.has h.subscriptions (token_of above))) [
            | inl t ↦ under (rw (parent_loop, e, g, f, t) refl) (child_of q above e g f t)
            | inr t ↦
                Found-parent h p token path q above e g f t (rw (parent_loop, e, g, f, t) refl)
                  (parent_loop-Found n h p token (parent path) closed (parent-below path n e l))
          ]
    ]
  ]

  -- A client is told of a new value if it has no subscriptions to single values, if it has one to the
  -- value, or if it has one to a parent.
  pub data IsCovered (h : Handler N) (node : Node N) : Type ℓ where
    everything : is_empty h.subscriptions ≡ true → IsCovered h node
    itself : TokenMap.has h.subscriptions (token_of node) ≡ true → IsCovered h node
    parents : IsUnder h (Variant.id node.variant) → IsCovered h node

  not-IsCovered :
      (h : Handler N) (node : Node N)
      → (is_empty h.subscriptions || TokenMap.has h.subscriptions (token_of node)) ≡ false
      → ¬ IsUnder h (Variant.id node.variant)
      → ¬ IsCovered h node
  not-IsCovered h node e u (everything t) = ground arith
  not-IsCovered h node e u (itself t) = ground arith
  not-IsCovered h node e u (parents v) = u v

  -- What `isParentSubscribed` gives.
  data Asked (h : Handler N) (node : Node N) (c : Call (Bool × Handler N)) : Type ℓ where
    covered :
        (h' : Handler N)
        → c ≡ returned (true, h')
        → h'.sent ≡ h.sent
        → IsCovered h node
        → Asked h node c
    uncovered : c ≡ returned (false, h) → ¬ IsCovered h node → Asked h node c

  is_parent_subscribed-Asked :
      (n : ℕ) (h : Handler N) (p : ℕ) (node : Node N)
      → IsClosed h.store
      → find p h.store.heap ≡ some node
      → length (Variant.id node.variant) < n
      → Asked h node (is_parent_subscribed n h p)
  unfolding is_parent_subscribed
  is_parent_subscribed-Asked n h p node closed f l =
      elim (Bool-cases (is_empty h.subscriptions || TokenMap.has h.subscriptions (token_of node))) [
        | inl y ↦
            covered h (rw (is_parent_subscribed, f, y) refl) refl
              (elim (Bool-cases (is_empty h.subscriptions)) [
                | inl e ↦ everything e
                | inr e ↦ itself (rw e at y)
              ])
        | inr y ↦
            asked y (parent_loop-Found n h p (token_of node) (Variant.id node.variant) closed l)
      ]
    where
      asked :
          (is_empty h.subscriptions || TokenMap.has h.subscriptions (token_of node)) ≡ false
          → Found h p
              (token_of node)
              (Variant.id node.variant)
              (parent_loop n h p (token_of node) (Variant.id node.variant))
          → Asked h node (is_parent_subscribed n h p)
      asked y (under e u) =
          covered (subscribe_to h p (token_of node)) (rw (is_parent_subscribed, f, y) e) refl
            (parents u)
      asked y (apart e u) = uncovered (rw (is_parent_subscribed, f, y) e) (not-IsCovered h node y u)

  -- In a store where every id leads to a value, the notice that a value was added, by a local change,
  -- ends with every fuel above the length of its id, and it sends the value exactly if the client has
  -- no subscriptions to single values, or one to the value, or one to a parent of it that the loop over
  -- the known parents meets.
  pub on_value_added-IsCovered :
      (n : ℕ) (h : Handler N) (p : ℕ) (node : Node N)
      → IsClosed h.store
      → find p h.store.heap ≡ some node
      → length (Variant.id node.variant) < n
      → is_local node.variant.update_type ≡ true
      → (h' : Handler N) × (on_value_added n h p ≡ returned h')
        × ((IsCovered h node
              × (h'.sent ≡ some (changed_message (Variant.get node.variant ∷ [])) ∷ h.sent))
            ⊎ ((¬ IsCovered h node) × (h'.sent ≡ h.sent)))
  unfolding on_value_added
  on_value_added-IsCovered n h p node closed f l here =
      told (is_parent_subscribed-Asked n h p node closed f l)
    where
      told :
          Asked h node (is_parent_subscribed n h p)
          → (h' : Handler N) × (on_value_added n h p ≡ returned h')
            × ((IsCovered h node
                  × (h'.sent ≡ some (changed_message (Variant.get node.variant ∷ [])) ∷ h.sent))
                ⊎ ((¬ IsCovered h node) × (h'.sent ≡ h.sent)))
      told (covered h1 e s c) =
          let notice : Option (ClientMessage N) =
            some (changed_message (Variant.get node.variant ∷ [])) in
          (
            send notice h1,
            rw (on_value_added, f, e, here) refl,
            inl (c, ap (λ (l : List (Option (ClientMessage N))). notice ∷ l) s),
          )
      told (uncovered e c) = (h, rw (on_value_added, f, e) refl, inr (c, refl))
