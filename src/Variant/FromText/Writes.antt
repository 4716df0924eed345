-- ===== src/Variant/FromText/Writes.antt =====
-- Who may write a value, over any sequence of calls of the two overloads of `set`.
use refer.Base.{
  ℕ, ◌+◌, ◌≡◌, refl, ap, ◌∙◌, arith, Bool, true, false, ◌||◌, Option, none, some, List, [], ◌∷◌,
  inl, inr, ◌⊎◌, not,
}
use refer.Base.Call.{Call, returned, thrown, running}
use refer.Text.{Text}
use refer.ValueData.{
  Value, ValueType, Access, Results, Messages, type_eq, is_unset, container_type, struct_type,
}
use refer.Variant
use refer.Variant.{Variant, local, is_read_only, is_write_once, is_local, set_value}
use refer.Variant.Writes.{refused, one_call, set_value-type}
use refer.Variant.FromText.{Texts, updated, pass_on, set_text}

-- A call of `set` with a message or with a text.
pub data Write {ℓ} (N : Type ℓ) : Type ℓ where
  by_value : Value N → Write N
  by_text : Text → Write N

-- The types of values that hold data of their own.
abbrev pub has_own_data : ValueType → Bool
has_own_data t = not (is_unset t || type_eq t container_type || type_eq t struct_type)

own_data :
    (t : ValueType)
    → has_own_data t ≡ true
    → (is_unset t ≡ false) × ((type_eq t container_type || type_eq t struct_type) ≡ false)
own_data t d = ground (arith, d)

open_once : (a : Access) → is_write_once a ≡ true → is_read_only a ≡ false
open_once Access.access_unset e = refl
open_once Access.read_write e = refl
open_once Access.read_only e = cc
open_once Access.write_once e = refl

module _ {ℓ} {N : Type ℓ} (texts : Texts N) (n : ℕ) (m : Messages N) where
  -- The value behind a call, which an exception, or a call that does not end, leaves as it was.
  abbrev behind : Variant N → Call (Results × Variant N) → Variant N
  behind v (returned x) = x.1
  behind v thrown = v
  behind v running = v

  abbrev pub local_write : Variant N → Write N → Variant N
  local_write v (by_value arg) = (set_value m v arg local).1
  local_write v (by_text arg) = behind v (set_text texts n m v arg local)

  -- Local calls of `set`, one after the other.
  pub local_writes : List (Write N) → Variant N → Variant N
  local_writes [] v = v
  local_writes (w ∷ ws) v = local_writes ws (local_write v w)

  -- A local call leaves a read-only value as it is.
  read_only_write :
      (v : Variant N) (w : Write N) → is_read_only v.value.access ≡ true → local_write v w ≡ v
  unfolding set_text
  read_only_write v (by_value arg) e = ap (λ (x : Results × Variant N). x.1) (refused m v arg e)
  read_only_write v (by_text arg) e = rw (set_text, e) refl

  read_only_writes :
      (ws : List (Write N)) (v : Variant N)
      → is_read_only v.value.access ≡ true
      → local_writes ws v ≡ v
  unfolding local_writes
  read_only_writes [] v e = refl
  read_only_writes (w ∷ ws) v e =
      ap (local_writes ws) (read_only_write v w e) ∙ read_only_writes ws v e

  -- What one call does to a value for one write: it signals and becomes read-only, or neither.
  abbrev Once : Variant N → Variant N → Type 0
  Once v v' =
      ((is_read_only v'.value.access ≡ true) × (v'.signals ≡ v.signals + 1))
      ⊎ ((is_write_once v'.value.access ≡ true) × (v'.signals ≡ v.signals))

  abbrev Stays : Variant N → Variant N → Type 0
  Stays v v' = v'.value.type ≡ v.value.type

  pass_on-Once :
      (v : Variant N) (c : Call (Option (Value N)))
      → is_write_once v.value.access ≡ true
      → is_unset v.value.type ≡ false
      → Once v (behind v (pass_on texts m v local c))
        × Stays v (behind v (pass_on texts m v local c))
  unfolding pass_on
  pass_on-Once v running e u = (inr (e, refl), refl)
  pass_on-Once v thrown e u = (inr (e, refl), refl)
  pass_on-Once v (returned none) e u = (inr (e, refl), refl)
  pass_on-Once v (returned (some arg)) e u =
      (one_call m v arg local e, set_value-type m v arg local u)

  local_write-Once :
      (v : Variant N) (w : Write N)
      → is_write_once v.value.access ≡ true
      → has_own_data v.value.type ≡ true
      → Once v (local_write v w) × Stays v (local_write v w)
  unfolding set_text
  local_write-Once v (by_value arg) e d =
      (one_call m v arg local e, set_value-type m v arg local (own_data v.value.type d).0)
  local_write-Once v (by_text arg) e d =
      let (typed, plain) = own_data v.value.type d in
      rw (set_text, open_once v.value.access e, typed, plain)
        (pass_on-Once v (updated texts n v.value.type (Variant.get v) arg) e typed)

  -- A value with access WriteOnce, of a type with data of its own, signals once at most in any sequence of
  -- local calls of both overloads of `set`, and after the signal it is read-only. A call that throws, or
  -- does not end, counts as one that leaves the value. The types without data of their own are Unset,
  -- Unknown, Container and Struct.
  pub write_once_writes :
      (ws : List (Write N)) (v : Variant N)
      → is_write_once v.value.access ≡ true
      → has_own_data v.value.type ≡ true
      → ((local_writes ws v).signals ≡ v.signals)
        ⊎ (((local_writes ws v).signals ≡ v.signals + 1)
            × (is_read_only (local_writes ws v).value.access ≡ true))
  unfolding local_writes
  write_once_writes [] v e d = inl refl
  write_once_writes (w ∷ ws) v e d =
      let (once, same) = local_write-Once v w e d in
      elim once [
        | inl (r, s) ↦
            let rest = read_only_writes ws (local_write v w) r in
            inr (
              ap (λ (x : Variant N). x.signals) rest ∙ s,
              ap (λ (x : Variant N). is_read_only x.value.access) rest ∙ r,
            )
        | inr (o, s) ↦ elim (write_once_writes ws (local_write v w) o (ap has_own_data same ∙ d)) [
          | inl k ↦ inl (k ∙ s)
          | inr (k, r) ↦ inr (k ∙ ap (λ (n : ℕ). n + 1) s, r)
        ]
      ]
