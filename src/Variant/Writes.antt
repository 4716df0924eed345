-- ===== src/Variant/Writes.antt =====
-- Who may write a value: one call of `set` with a message.
use refer.Base.{◌+◌, ◌≡◌, refl, ap, ◌∙◌, arith, true, false, ◌&&◌, Bool-cases, inl, inr, ◌⊎◌}
use refer.ValueData
use refer.ValueData.{
  Value, ValueType, Access, read_only, write_once, Results, success, access_error, invalid_type,
  Messages, type_eq, typed, is_unset,
}
use refer.ValueData.Assign.{set_access, set_type_kept}
use refer.Variant.{
  Variant, UpdateType, local, is_read_only, is_write_once, is_local, is_success, finish, set_value,
}

module _ {ℓ} {N : Type ℓ} (m : Messages N) where
  typed_access : (v arg : Value N) → (typed v arg).access ≡ v.access
  typed_access v arg = ground arith

  -- A value that only remote calls may write refuses a local call, and nothing changes.
  pub refused :
      (v : Variant N) (arg : Value N)
      → is_read_only v.value.access ≡ true
      → set_value m v arg local ≡ (access_error, v)
  unfolding set_value
  refused v arg e = rw (set_value, e)

  -- The data that a call which passes the guards hands to `finish`.
  abbrev written : Variant N → Value N → UpdateType → Variant N
  written v arg u = record v {
    value = (ValueData.set m (typed v.value arg) arg).1;
    update_type = u;
  }

  outcome :
      (v : Variant N) (arg : Value N) (u : UpdateType)
      → (set_value m v arg u ≡ (access_error, v))
        ⊎ (set_value m v arg u ≡ (invalid_type, record v { value = typed v.value arg }))
        ⊎ (set_value m v arg u
            ≡ finish arg (ValueData.set m (typed v.value arg) arg).0 (written v arg u))
  unfolding set_value
  outcome v arg u = elim (Bool-cases (is_read_only v.value.access && is_local u)) [
    | inl r ↦ inl (rw (set_value, r) refl)
    | inr r ↦ elim (Bool-cases (type_eq (typed v.value arg).type arg.type)) [
      | inl t ↦ inr (inr (rw (set_value, r, t) refl))
      | inr t ↦ inr (inl (rw (set_value, r, t) refl))
    ]
  ]

  written_access :
      (v : Variant N) (arg : Value N) (u : UpdateType)
      → (written v arg u).value.access ≡ v.value.access
  written_access v arg u = set_access m (typed v.value arg) arg ∙ typed_access v.value arg

  finish_once :
      (arg : Value N) (r : Results) (v : Variant N)
      → is_write_once v.value.access ≡ true
      → is_success (finish arg r v).0 ≡ true
      → (is_read_only (finish arg r v).1.value.access ≡ true)
        × ((finish arg r v).1.signals ≡ v.signals + 1)
  unfolding finish
  finish_once arg r v e s = ground arith

  finish_not :
      (arg : Value N) (r : Results) (v : Variant N)
      → is_success (finish arg r v).0 ≡ false
      → (finish arg r v).1 ≡ v
  unfolding finish
  finish_not arg r v s = ground arith

  -- A call on a value for one write: it becomes read-only with one signal, or nothing of the two changes.
  pub one_call :
      (v : Variant N) (arg : Value N) (u : UpdateType)
      → is_write_once v.value.access ≡ true
      → ((is_read_only (set_value m v arg u).1.value.access ≡ true)
          × ((set_value m v arg u).1.signals ≡ v.signals + 1))
        ⊎ ((is_write_once (set_value m v arg u).1.value.access ≡ true)
            × ((set_value m v arg u).1.signals ≡ v.signals))
  one_call v arg u e = elim (outcome v arg u) [
    | inl o ↦ inr (rw o (e, refl))
    | inr (inl o) ↦ inr (rw o (ap is_write_once (typed_access v.value arg) ∙ e, refl))
    | inr (inr o) ↦
        let w = written v arg u in
        let r = (ValueData.set m (typed v.value arg) arg).0 in
        let once : is_write_once w.value.access ≡ true =
          ap is_write_once (written_access v arg u) ∙ e in
        elim (Bool-cases (is_success (finish arg r w).0)) [
          | inl s ↦ inl (rw o (finish_once arg r w once s))
          | inr s ↦ inr (rw (o, finish_not arg r w s) (once, refl))
        ]
  ]

  typed_set : (v arg : Value N) → is_unset v.type ≡ false → typed v arg ≡ v
  typed_set v arg e = rw e refl

  finish_type :
      (arg : Value N) (r : Results) (v : Variant N) → (finish arg r v).1.value.type ≡ v.value.type
  unfolding finish
  finish_type arg r v = ground arith

  -- A call keeps the type of a value that has one.
  pub set_value-type :
      (v : Variant N) (arg : Value N) (u : UpdateType)
      → is_unset v.value.type ≡ false
      → (set_value m v arg u).1.value.type ≡ v.value.type
  set_value-type v arg u e = elim (outcome v arg u) [
    | inl o ↦ rw o refl
    | inr (inl o) ↦ rw o (ap (λ (x : Value N). x.type) (typed_set v.value arg e))
    | inr (inr o) ↦ rw o (
        finish_type arg (ValueData.set m (typed v.value arg) arg).0 (written v arg u)
        ∙ ap (λ (x : Value N). (ValueData.set m x arg).1.type) (typed_set v.value arg e)
        ∙ set_type_kept m v.value arg e)
  ]
