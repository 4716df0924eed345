-- ===== src/Base/Table.antt =====
-- The standard maps of the source, `std::map` and `std::unordered_map`, as association lists.
use Prim.Native.Nat.{◌+◌}
use mathlib.Core.Path.{◌≡◌, refl}
use mathlib.Core.Bool.{Bool, true, false}
use mathlib.Core.List.{List, [], ◌∷◌}
use mathlib.Core.Option.{Option, none, some}
use native.Mathlib.Omega.{arith}
use refer.Base.Tests.{if◌then◌else◌}
use refer.Base.Lists.{length}
use refer.Base.Equality.{Eq, ◌==◌, beq_refl}

abbrev pub Table {ℓ κ} : Type ℓ → Type κ → Type (ℓ ⊔ κ)
Table K V = List (K × V)

abbrev pub is_some {ℓ} : {A : Type ℓ} → Option A → Bool
is_some none = false
is_some (some a) = true

module _ {ℓ κ} {K : Type ℓ} {V : Type κ} ⦃e : Eq K⦄ where
  unfoldable pub find : K → Table K V → Option V
  find k [] = none
  find k ((j, v) ∷ m) = if j == k then some v else find k m

  -- `m[k] = v`
  unfoldable pub put : K → V → Table K V → Table K V
  put k v [] = (k, v) ∷ []
  put k v ((j, w) ∷ m) = if j == k then (k, v) ∷ m else (j, w) ∷ put k v m

  -- `m.erase(k)`
  unfoldable pub erase : K → Table K V → Table K V
  erase k [] = []
  erase k ((j, w) ∷ m) = if j == k then erase k m else (j, w) ∷ erase k m

  pub find-put :
      (k j : K) (v : V) (m : Table K V) → find j (put k v m) ≡ (if k == j then some v else find j m)
  unfolding find put
  find-put k j v [] = refl
  find-put k j v ((i, w) ∷ m) =
      ground (arith, e.beq_iff k j, e.beq_iff i k, e.beq_iff i j, find-put k j v m)

  pub find-erase :
      (k j : K) (m : Table K V) → find j (erase k m) ≡ (if k == j then none else find j m)
  unfolding find erase
  find-erase k j [] = ground arith
  find-erase k j ((i, w) ∷ m) =
      ground (arith, e.beq_iff k j, e.beq_iff i k, e.beq_iff i j, find-erase k j m)

  pub find-put_self : (k : K) (v : V) (m : Table K V) → find k (put k v m) ≡ some v
  find-put_self k v m = simp (find-put, beq_refl k)

  -- No key stands twice.
  abbrev pub IsUnique : Table K V → Type κ
  IsUnique [] = Unit
  IsUnique ((j, w) ∷ m) = (find j m ≡ none) × IsUnique m

  pub erase-absent : (k : K) (m : Table K V) → find k m ≡ none → erase k m ≡ m
  unfolding find erase
  erase-absent k [] h = refl
  erase-absent k ((j, w) ∷ m) h = ground (arith, erase-absent k m)

  pub put-IsUnique : (k : K) (v : V) (m : Table K V) → IsUnique m → IsUnique (put k v m)
  unfolding put find
  put-IsUnique k v [] h = (refl, tt)
  put-IsUnique k v ((j, w) ∷ m) h =
      ground (arith, e.beq_iff j k, e.beq_iff k j, find-put k j v m, put-IsUnique k v m)

  pub erase-IsUnique : (k : K) (m : Table K V) → IsUnique m → IsUnique (erase k m)
  unfolding erase
  erase-IsUnique k [] h = tt
  erase-IsUnique k ((j, w) ∷ m) h = ground (arith, find-erase k j m, erase-IsUnique k m)

  pub length-put :
      (k : K) (v : V) (m : Table K V)
      → length (put k v m) ≡ (if is_some (find k m) then length m else length m + 1)
  unfolding put find
  length-put k v [] = omega arith
  length-put k v ((j, w) ∷ m) = ground (arith, length-put k v m)

  pub length-erase :
      (k : K) (m : Table K V)
      → IsUnique m
      → length (erase k m) + (if is_some (find k m) then 1 else 0) ≡ length m
  unfolding erase find
  length-erase k [] h = omega arith
  length-erase k ((j, w) ∷ m) h = ground (arith, e.beq_iff j k, erase-absent k m, length-erase k m)
