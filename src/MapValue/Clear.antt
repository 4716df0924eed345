-- ===== src/MapValue/Clear.antt =====
-- What `clear` of a container value requests.
use refer.Base.{ℕ, ◌≡◌, refl, ap, ◌∙◌, arith, true, false, some, List, [], ◌∷◌, list_eq, nat_eq}
use refer.Base.Equality.{list_beq_iff}
use refer.Base.Table.{Table, find, is_some}
use refer.ValueId.{ValueId}
use refer.ValueData.{add_to_type, remove_from_type, type_eq}
use refer.Variant.{Variant, local}
use refer.Variant.Children.{get_child-find}
use refer.MapValue.{MapValue, Requests, route, erase, clear_from, clear}

module _ {ℓ} {N : Type ℓ} where
  -- The library answers a request to remove a child with the message `reply`, of that type.
  abbrev pub Answers : Requests N → (Variant N → ValueId → Variant N) → Type ℓ
  Answers requests reply =
      (self : Variant N) (key : ValueId)
      → (requests.make_remove_from self key local ≡ some (reply self key))
        × (type_eq (reply self key).value.type remove_from_type ≡ true)
        × (type_eq (reply self key).value.type add_to_type ≡ false)

  -- A container value: its own type is none of the types of requests.
  abbrev IsContainer : MapValue N → Type 0
  IsContainer m =
      (type_eq m.self.value.type add_to_type ≡ false)
      × (type_eq m.self.value.type remove_from_type ≡ false)

  -- Calls of a signal, one for each child in order, the last call first.
  abbrev pub called : (ValueId → Variant N) → Table ValueId ℕ → List (Variant N) → List (Variant N)
  called message [] calls = calls
  called message ((key, p) ∷ rest) calls = called message rest (message key ∷ calls)

  -- For each child in order, the request to remove it and a change of the value, and nothing else.
  abbrev pub Requested :
      (Variant N → ValueId → Variant N) → Table ValueId ℕ → MapValue N → MapValue N → Type ℓ
  Requested reply children m m' =
      (m'.self ≡ m.self)
      × (m'.children ≡ m.children)
      × (m'.added ≡ m.added)
      × (m'.removed ≡ called (reply m.self) children m.removed)
      × (m'.changed ≡ called (λ key. m.self) children m.changed)

-- Every key of the first table is found in the second.
AreFound : Table ValueId ℕ → Table ValueId ℕ → Type 0
AreFound [] m = Unit
AreFound ((k, p) ∷ rest) m = (is_some (find k m) ≡ true) × AreFound rest m

AreFound-cons :
    (rest : Table ValueId ℕ) (k : ValueId) (p : ℕ) (m : Table ValueId ℕ)
    → AreFound rest m
    → AreFound rest ((k, p) ∷ m)
unfolding AreFound find
AreFound-cons [] k p m a = tt
AreFound-cons ((j, q) ∷ rest) k p m a = (ground (arith, a.0), AreFound-cons rest k p m a.1)

all-AreFound : (m : Table ValueId ℕ) → AreFound m m
unfolding AreFound find
all-AreFound [] = tt
all-AreFound ((k, p) ∷ m) =
    (ground (arith, list_beq_iff k k), AreFound-cons m k p m (all-AreFound m))

module _ {ℓ} {N : Type ℓ} (requests : Requests N) (reply : Variant N → ValueId → Variant N)
    (answers : Answers requests reply) where
  erase-Requested :
      (m : MapValue N) (key : ValueId) (p : ℕ)
      → IsContainer m
      → is_some (find key m.children) ≡ true
      → Requested reply ((key, p) ∷ []) m (erase requests m key).1
  unfolding erase route
  erase-Requested m key p kind f =
      let (made, is_remove, not_add) = answers m.self key in
      rw (get_child-find m.children key, f, erase, made, route, not_add, is_remove, kind.0, kind.1)
        (refl, refl, refl, refl, refl)

  clear_from-Requested :
      (rest : Table ValueId ℕ) (m : MapValue N)
      → IsContainer m
      → AreFound rest m.children
      → Requested reply rest m (clear_from requests rest m)
  unfolding clear_from AreFound
  clear_from-Requested [] m kind a = (refl, refl, refl, refl, refl)
  clear_from-Requested ((key, p) ∷ rest) m kind a =
      let (e0, e1, e2, e3, e4) = erase-Requested m key p kind a.0 in
      let (r0, r1, r2, r3, r4) =
        clear_from-Requested rest (erase requests m key).1
          (
            ap (λ (v : Variant N). type_eq v.value.type add_to_type) e0 ∙ kind.0,
            ap (λ (v : Variant N). type_eq v.value.type remove_from_type) e0 ∙ kind.1,
          )
          (rw e1 a.1) in
      (
        r0 ∙ e0,
        r1 ∙ e1,
        r2 ∙ e2,
        r3
            ∙ ap (λ (v : Variant N). called (reply v) rest (erase requests m key).1.removed) e0
            ∙ ap (called (reply m.self) rest) e3,
        r4
            ∙ ap (λ (v : Variant N). called (λ key. v) rest (erase requests m key).1.changed) e0
            ∙ ap (called (λ key. m.self) rest) e4,
      )

  -- If the library answers every request to remove a child with a message of that type, `clear` of a value
  -- that is no request itself keeps its children: for each of them in order it signals the request to
  -- remove that child and a change of the value, and nothing else.
  pub clear-Requested :
      (m : MapValue N) → IsContainer m → Requested reply m.children m (clear requests m)
  unfolding clear
  clear-Requested m kind = clear_from-Requested m.children m kind (all-AreFound m.children)
