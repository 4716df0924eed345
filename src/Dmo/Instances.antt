-- ===== src/Dmo/Instances.antt =====
-- The walk of `isInstance` up to the parents of a path.
use mathlib.Core.Bool.{false≢true}
use refer.Base.{
  ℕ, sym, if◌then◌else◌, [], ◌∷◌, zero, suc, ◌<◌, ◌≡◌, refl, arith, Bool, true, false, Bool-cases,
  inl, inr, length,
}
use refer.Base.Call.{Call, returned}
use refer.ValueId.{ValueId, value_id, id_eq, is_empty, parent, leaf}
use refer.ValueId.Length.{parent-shorter}
use refer.ValueData.{Value}
use refer.Dmo.{PropertyTree, delim, starts_with_meta, is_instance}

length-some : (path : ValueId) → is_empty path ≡ false → 0 < length path
unfolding is_empty
length-some [] e = absurd (false≢true (sym e))
length-some (c ∷ path) e = omega arith

-- Three tests in a row, with a call that returns behind them.
ends :
    (x y z : Bool) (c : Call Bool)
    → (b : Bool) × (c ≡ returned b)
    → (b : Bool) × ((if x
          then returned false
          else (if y then returned false else (if z then returned true else c)))
        ≡ returned b)
ends true y z c r = (false, refl)
ends false true z c r = (false, refl)
ends false false true c r = (true, refl)
ends false false false c r = r

module _ {ℓ} {T N : Type ℓ} (pt : PropertyTree T (Value N)) (root : T) where
  is_instance-empty :
      (n : ℕ) (path : ValueId)
      → 0 < n
      → is_empty path ≡ true
      → is_instance pt n root path ≡ returned false
  unfolding is_instance
  is_instance-empty zero path l e = absurd (omega arith)
  is_instance-empty (suc n) path l e = rw (is_instance, e) refl

  one_level :
      (n : ℕ) (path : ValueId)
      → (b : Bool) × (is_instance pt n root (parent path) ≡ returned b)
      → (b : Bool) × (is_instance pt (suc n) root path ≡ returned b)
  unfolding is_instance
  one_level n path r =
      ends (is_empty path) (id_eq (leaf path) (value_id delim))
        (starts_with_meta pt root (parent path)) (is_instance pt n root (parent path)) r

  -- `isInstance` ends with every fuel above the length of the path.
  pub is_instance-fuel :
      (n : ℕ) (path : ValueId)
      → length path < n
      → (b : Bool) × (is_instance pt n root path ≡ returned b)
  is_instance-fuel zero path l = absurd (omega arith)
  is_instance-fuel (suc n) path l = elim (Bool-cases (is_empty path)) [
    | inl e ↦ (false, is_instance-empty (suc n) path (omega arith) e)
    | inr some_path ↦ elim (Bool-cases (is_empty (parent path))) [
      | inl e ↦
          let positive = length-some path some_path in
          one_level n path (false, is_instance-empty n (parent path) (omega (arith, l, positive)) e)
      | inr e ↦
          let shorter = parent-shorter path e in
          one_level n path (is_instance-fuel n (parent path) (omega (arith, l, shorter)))
    ]
  ]
