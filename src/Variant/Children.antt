-- ===== src/Variant/Children.antt =====
-- The children of a value, by leaf name.
use refer.Base.{
  ◌≡◌, refl, ap, arith, true, none, some, [], ◌∷◌, ◌==◌, list_eq, nat_eq, if◌then◌else◌, Bool-cases,
  inl, inr,
}
use refer.Base.Table.{Table, find, find-erase}
use refer.TokenMap.Lookup.{or_some}
use refer.Base.Equality.{list_beq_iff}
use refer.Text.{text_lt}
use refer.Variant.Order.{text_lt_irrefl, text_lt_trans, text_lt_total}
use refer.ValueId.{ValueId, id_lt, leaf}
use refer.Variant.{emplace, add_child, del_child, get_child}

module _ {ℓ} {P : Type ℓ} where
  -- Every key is behind `k` in the order.
  abbrev IsAbove : ValueId → Table ValueId P → Type 0
  IsAbove k [] = Unit
  IsAbove k ((j, q) ∷ m) = (text_lt k j ≡ true) × IsAbove k m

  -- The keys ascend, as in every `std::map`.
  abbrev IsAscending : Table ValueId P → Type 0
  IsAscending [] = Unit
  IsAscending ((k, p) ∷ m) = IsAbove k m × IsAscending m

  IsAbove-lower :
      (j k : ValueId) (m : Table ValueId P) → text_lt j k ≡ true → IsAbove k m → IsAbove j m
  IsAbove-lower j k [] l a = tt
  IsAbove-lower j k ((i, q) ∷ m) l a = (text_lt_trans j k i l a.0, IsAbove-lower j k m l a.1)

  IsAbove-find : (k : ValueId) (m : Table ValueId P) → IsAbove k m → find k m ≡ none
  unfolding find
  IsAbove-find k [] a = refl
  IsAbove-find k ((j, q) ∷ m) a = ground (
    arith,
    a.0,
    text_lt_irrefl k,
    list_beq_iff j k,
    IsAbove-find k m a.1,
    ap (text_lt k) {x = j} {y = k},
  )

  emplace-IsAbove :
      (j k : ValueId) (p : P) (m : Table ValueId P)
      → text_lt j k ≡ true
      → IsAbove j m
      → IsAbove j (emplace k p m)
  unfolding emplace id_lt
  emplace-IsAbove j k p [] l a = (l, tt)
  emplace-IsAbove j k p ((i, q) ∷ m) l a = elim (Bool-cases (k == i)) [
    | inl same ↦ rw (emplace, same) a
    | inr other ↦ elim (Bool-cases (id_lt k i)) [
      | inl g ↦ rw (emplace, other, g) (l, a)
      | inr g ↦ rw (emplace, other, g) (a.0, emplace-IsAbove j k p m l a.1)
    ]
  ]

  -- A new child keeps the order of the leaf names.
  emplace-IsAscending :
      (k : ValueId) (p : P) (m : Table ValueId P) → IsAscending m → IsAscending (emplace k p m)
  unfolding emplace id_lt
  emplace-IsAscending k p [] a = (tt, tt)
  emplace-IsAscending k p ((j, q) ∷ m) a = elim (Bool-cases (k == j)) [
    | inl same ↦ rw (emplace, same) a
    | inr other ↦ elim (Bool-cases (id_lt k j)) [
      | inl l ↦ rw (emplace, other, l) ((l, IsAbove-lower k j m l a.0), a)
      | inr g ↦
          rw (emplace, other, g)
            (emplace-IsAbove j k p m (text_lt_total k j other g) a.0, emplace-IsAscending k p m a.1)
    ]
  ]

  find-emplace :
      (key k : ValueId) (p : P) (m : Table ValueId P)
      → IsAscending m
      → find k (emplace key p m) ≡ (if key == k then some (or_some (find key m) p) else find k m)
  unfolding find emplace id_lt
  find-emplace key k p [] a = refl
  find-emplace key k p ((j, q) ∷ m) a = elim (Bool-cases (key == j)) [
    | inl same ↦
        rw (emplace, same)
          (ground
            (arith, list_beq_iff key j, list_beq_iff key k, list_beq_iff j k, list_beq_iff j key))
    | inr other ↦ elim (Bool-cases (id_lt key j)) [
      | inl l ↦
          rw (emplace, other, l)
            (ground (
              arith,
              list_beq_iff key j,
              list_beq_iff key k,
              list_beq_iff j k,
              list_beq_iff j key,
              IsAbove-find key m (IsAbove-lower key j m l a.0),
            ))
      | inr g ↦
          rw (emplace, other, g)
            (ground (
              arith,
              list_beq_iff key j,
              list_beq_iff key k,
              list_beq_iff j k,
              list_beq_iff j key,
              find-emplace key k p m a.1,
            ))
    ]
  ]

  pub get_child-find : (m : Table ValueId P) (k : ValueId) → get_child m k ≡ find k m
  unfolding get_child find
  get_child-find [] k = refl
  get_child-find (x ∷ m) k = ground arith

  -- A child is found under its leaf name; the child that had the name before stays, and the other
  -- names keep their children.
  get_child-add_child :
      (m : Table ValueId P) (name k : ValueId) (p : P)
      → IsAscending m
      → get_child (add_child m name p) k
        ≡ (if leaf name == k then some (or_some (get_child m (leaf name)) p) else get_child m k)
  unfolding add_child
  get_child-add_child m name k p a =
      rw
        (
          get_child-find (emplace (leaf name) p m) k,
          get_child-find m (leaf name),
          get_child-find m k,
        )
        (find-emplace (leaf name) k p m a)

  -- `delChild` removes the child with the leaf name alone, and returns it to be disconnected.
  get_child-del_child :
      (m : Table ValueId P) (name k : ValueId)
      → ((del_child m name).1 ≡ get_child m (leaf name))
        × (get_child (del_child m name).0 k ≡ (if leaf name == k then none else get_child m k))
  unfolding del_child
  get_child-del_child m name k =
      rw (get_child-find m (leaf name), get_child-find m k, get_child-find (del_child m name).0 k)
        (ground (
          arith,
          find-erase (leaf name) k m,
          list_beq_iff (leaf name) k,
          ap (λ (i : ValueId). find i m) {x = leaf name} {y = k},
        ))

-- Without a child under the leaf of the name, `delChild` deletes nothing.
pub del_child-missing {ℓ} :
    {P : Type ℓ} (children : Table ValueId P) (name : ValueId)
    → find (leaf name) children ≡ none
    → del_child children name ≡ (children, none)
unfolding del_child
del_child-missing children name z = rw (del_child, z) refl
