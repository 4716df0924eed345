-- ===== src/ValueData/Assign.antt =====
-- What `set` changes of a value, by its result.
use refer.Base.{
  ℕ, ◌<◌, ◌≡◌, ◌≢◌, refl, sym, ap, ◌∙◌, arith, Bool, true, false, ◌&&◌, ◌||◌, Option, none, some,
  eqb_iff, ltb, length, Bool-cases, inl, inr,
}
use mathlib.Core.Bool.{false≢true}
use mathlib.Core.Option.{none-ne-some, some-injective}
use refer.ValueData.{
  ValueType, interval_type, uinterval_type, sinterval_type, usinterval_type, llinterval_type,
  ullinterval_type, dinterval_type, unset_type, unknown_type, bool_type, text_type, enum_type,
  udid_type, ipv4_type, eui48_type, ipv6_type, multi_type, container_type, add_to_type,
  remove_from_type, struct_type, time_val_type, time_spec_type, set_type, unordered_set_type,
  vector_type, Range, Value, Messages, Results, success, same_value, type_code, type_eq, is_unset,
  typed, assign_simple, assign_container, assign_range, assign_enum, set_enum, set_as, set,
}

-- The range that a value of an interval type holds.
abbrev range_of {ℓ} : {N : Type ℓ} → ValueType → Value N → Option (Range N)
range_of interval_type v = some v.interval_value
range_of uinterval_type v = some v.uinterval_value
range_of sinterval_type v = some v.sinterval_value
range_of usinterval_type v = some v.usinterval_value
range_of llinterval_type v = some v.llinterval_value
range_of ullinterval_type v = some v.ullinterval_value
range_of dinterval_type v = some v.dinterval_value
range_of t v = none

abbrev is_success : Results → Bool
is_success success = true
is_success r = false

lt→ltb : (a b : ℕ) → a < b → ltb a b ≡ true
lt→ltb a b l = ground arith

module _ {ℓ} {N : Type ℓ} (m : Messages N) where
  -- A number that may be written: there are no bounds, or it is between them.
  abbrev IsWithin : Range N → N → Type 0
  IsWithin r x = ((m.is_set r.min || m.is_set r.max) && (m.lt x r.min || m.lt r.max x)) ≡ false

  -- The number of `q` was written into the range `r` of `v`, whose bounds stay.
  abbrev pub Wrote : ValueType → Range N → Value N → Value N → Type ℓ
  Wrote t r arg v' =
      (q : Range N) × (range_of t arg ≡ some q)
      × IsWithin r q.value
      × (range_of t v' ≡ some (record r { value = q.value }))

  assign_range_success :
      (r q : Range N)
      → (assign_range m r q).0 ≡ success
      → IsWithin r q.value × ((assign_range m r q).1 ≡ record r { value = q.value })
  unfolding assign_range
  assign_range_success r q s = ground arith

  assign_range_kept :
      (r q : Range N) → (assign_range m r q).0 ≢ success → (assign_range m r q).1 ≡ r
  unfolding assign_range
  assign_range_kept r q s = ground arith

  range_case :
      (x y r : Range N)
      → x ≡ r
      → (assign_range m x y).0 ≡ success
      → (q : Range N) × (some y ≡ some q)
        × IsWithin r q.value
        × (some (assign_range m x y).1 ≡ some (record r { value = q.value }))
  range_case x y r e s =
      let w = assign_range_success x y s in (y, refl, rw (← e) w.0, ap some (rw (← e) w.1))

  set_as_range :
      (t : ValueType) (v arg : Value N) (r : Range N)
      → range_of t v ≡ some r
      → (set_as m t v arg).0 ≡ success
      → Wrote t r arg (set_as m t v arg).1
  unfolding set_as
  set_as_range interval_type v arg r e s =
      range_case v.interval_value arg.interval_value r (some-injective v.interval_value r e) s
  set_as_range uinterval_type v arg r e s =
      range_case v.uinterval_value arg.uinterval_value r (some-injective v.uinterval_value r e) s
  set_as_range sinterval_type v arg r e s =
      range_case v.sinterval_value arg.sinterval_value r (some-injective v.sinterval_value r e) s
  set_as_range usinterval_type v arg r e s =
      range_case v.usinterval_value arg.usinterval_value r (some-injective v.usinterval_value r e) s
  set_as_range llinterval_type v arg r e s =
      range_case v.llinterval_value arg.llinterval_value r (some-injective v.llinterval_value r e) s
  set_as_range ullinterval_type v arg r e s =
      range_case v.ullinterval_value arg.ullinterval_value r
        (some-injective v.ullinterval_value r e) s
  set_as_range dinterval_type v arg r e s =
      range_case v.dinterval_value arg.dinterval_value r (some-injective v.dinterval_value r e) s
  set_as_range unset_type v arg r e s = absurd (none-ne-some r e)
  set_as_range unknown_type v arg r e s = absurd (none-ne-some r e)
  set_as_range bool_type v arg r e s = absurd (none-ne-some r e)
  set_as_range text_type v arg r e s = absurd (none-ne-some r e)
  set_as_range enum_type v arg r e s = absurd (none-ne-some r e)
  set_as_range udid_type v arg r e s = absurd (none-ne-some r e)
  set_as_range ipv4_type v arg r e s = absurd (none-ne-some r e)
  set_as_range eui48_type v arg r e s = absurd (none-ne-some r e)
  set_as_range ipv6_type v arg r e s = absurd (none-ne-some r e)
  set_as_range multi_type v arg r e s = absurd (none-ne-some r e)
  set_as_range container_type v arg r e s = absurd (none-ne-some r e)
  set_as_range add_to_type v arg r e s = absurd (none-ne-some r e)
  set_as_range remove_from_type v arg r e s = absurd (none-ne-some r e)
  set_as_range struct_type v arg r e s = absurd (none-ne-some r e)
  set_as_range time_val_type v arg r e s = absurd (none-ne-some r e)
  set_as_range time_spec_type v arg r e s = absurd (none-ne-some r e)
  set_as_range set_type v arg r e s = absurd (none-ne-some r e)
  set_as_range unordered_set_type v arg r e s = absurd (none-ne-some r e)
  set_as_range vector_type v arg r e s = absurd (none-ne-some r e)

  set_as_kept :
      (t : ValueType) (v arg : Value N)
      → type_eq t enum_type ≡ false
      → (set_as m t v arg).0 ≢ success
      → (set_as m t v arg).1 ≡ v
  unfolding set_as assign_simple assign_container assign_range type_code
  set_as_kept interval_type v arg n s =
      ap (λ (x : Range N). record v { interval_value = x })
        (assign_range_kept v.interval_value arg.interval_value s)
  set_as_kept uinterval_type v arg n s =
      ap (λ (x : Range N). record v { uinterval_value = x })
        (assign_range_kept v.uinterval_value arg.uinterval_value s)
  set_as_kept sinterval_type v arg n s =
      ap (λ (x : Range N). record v { sinterval_value = x })
        (assign_range_kept v.sinterval_value arg.sinterval_value s)
  set_as_kept usinterval_type v arg n s =
      ap (λ (x : Range N). record v { usinterval_value = x })
        (assign_range_kept v.usinterval_value arg.usinterval_value s)
  set_as_kept llinterval_type v arg n s =
      ap (λ (x : Range N). record v { llinterval_value = x })
        (assign_range_kept v.llinterval_value arg.llinterval_value s)
  set_as_kept ullinterval_type v arg n s =
      ap (λ (x : Range N). record v { ullinterval_value = x })
        (assign_range_kept v.ullinterval_value arg.ullinterval_value s)
  set_as_kept dinterval_type v arg n s =
      ap (λ (x : Range N). record v { dinterval_value = x })
        (assign_range_kept v.dinterval_value arg.dinterval_value s)
  set_as_kept unset_type v arg n s = ground arith
  set_as_kept unknown_type v arg n s = ground arith
  set_as_kept bool_type v arg n s = ground arith
  set_as_kept text_type v arg n s = ground arith
  set_as_kept enum_type v arg n s = absurd (false≢true (sym n))
  set_as_kept udid_type v arg n s = ground arith
  set_as_kept ipv4_type v arg n s = ground arith
  set_as_kept eui48_type v arg n s = ground arith
  set_as_kept ipv6_type v arg n s = ground arith
  set_as_kept multi_type v arg n s = ground arith
  set_as_kept container_type v arg n s = ground arith
  set_as_kept add_to_type v arg n s = ground arith
  set_as_kept remove_from_type v arg n s = ground arith
  set_as_kept struct_type v arg n s = ground arith
  set_as_kept time_val_type v arg n s = ground arith
  set_as_kept time_spec_type v arg n s = ground arith
  set_as_kept set_type v arg n s = ground arith
  set_as_kept unordered_set_type v arg n s = ground arith
  set_as_kept vector_type v arg n s = ground arith

  range_of_unset :
      (t : ValueType) (v : Value N) (r : Range N) → range_of t v ≡ some r → is_unset t ≡ false
  unfolding type_code
  range_of_unset interval_type v r e = refl
  range_of_unset uinterval_type v r e = refl
  range_of_unset sinterval_type v r e = refl
  range_of_unset usinterval_type v r e = refl
  range_of_unset llinterval_type v r e = refl
  range_of_unset ullinterval_type v r e = refl
  range_of_unset dinterval_type v r e = refl
  range_of_unset unset_type v r e = absurd (none-ne-some r e)
  range_of_unset unknown_type v r e = absurd (none-ne-some r e)
  range_of_unset bool_type v r e = absurd (none-ne-some r e)
  range_of_unset text_type v r e = absurd (none-ne-some r e)
  range_of_unset enum_type v r e = absurd (none-ne-some r e)
  range_of_unset udid_type v r e = absurd (none-ne-some r e)
  range_of_unset ipv4_type v r e = absurd (none-ne-some r e)
  range_of_unset eui48_type v r e = absurd (none-ne-some r e)
  range_of_unset ipv6_type v r e = absurd (none-ne-some r e)
  range_of_unset multi_type v r e = absurd (none-ne-some r e)
  range_of_unset container_type v r e = absurd (none-ne-some r e)
  range_of_unset add_to_type v r e = absurd (none-ne-some r e)
  range_of_unset remove_from_type v r e = absurd (none-ne-some r e)
  range_of_unset struct_type v r e = absurd (none-ne-some r e)
  range_of_unset time_val_type v r e = absurd (none-ne-some r e)
  range_of_unset time_spec_type v r e = absurd (none-ne-some r e)
  range_of_unset set_type v r e = absurd (none-ne-some r e)
  range_of_unset unordered_set_type v r e = absurd (none-ne-some r e)
  range_of_unset vector_type v r e = absurd (none-ne-some r e)

  -- A successful `set` of a value with a range, of any of the seven interval types, writes the number
  -- of the argument, which is within the bounds if a bound is set, and keeps the bounds.
  pub set_range :
      (v arg : Value N) (r : Range N)
      → range_of v.type v ≡ some r
      → (set m v arg).0 ≡ success
      → Wrote v.type r arg (set m v arg).1
  unfolding set
  set_range v arg r e s = elim (Bool-cases (type_eq v.type arg.type)) [
    | inl same ↦
        rw (set, range_of_unset v.type v r e, same)
          (set_as_range v.type v arg r e (rw (set, range_of_unset v.type v r e, same) at s))
    | inr other ↦
        absurd (false≢true (ap is_success (rw (set, range_of_unset v.type v r e, other) at s)))
  ]

  -- A `set` that does not succeed keeps the data of every value but an enumeration: at most the type
  -- of a value without a type is taken from the argument.
  pub set_kept :
      (v arg : Value N)
      → type_eq v.type enum_type ≡ false
      → type_eq arg.type enum_type ≡ false
      → (set m v arg).0 ≢ success
      → (set m v arg).1 ≡ typed v arg
  unfolding set
  set_kept v arg n a s = elim (Bool-cases (type_eq (typed v arg).type arg.type)) [
    | inl same ↦
        rw (set, same)
          (set_as_kept (typed v arg).type (typed v arg) arg (ground arith) (rw (set, same) at s))
    | inr other ↦ rw (set, other) refl
  ]

  set_of :
      (v arg : Value N)
      → is_unset v.type ≡ false
      → type_eq v.type arg.type ≡ true
      → set m v arg ≡ set_as m v.type v arg
  unfolding set
  set_of v arg u same = rw (set, u, same)

  set_as_more :
      (t : ValueType) (v arg : Value N)
      → t ≡ enum_type
      → length v.enum_value.enumerators < length arg.enum_value.enumerators
      → m.same_enum arg.enum_value arg.enum_value ≡ true
      → set_as m t v arg ≡ (same_value, record v { enum_value = arg.enum_value })
  unfolding set_as set_enum assign_enum
  set_as_more t v arg e l same =
      rw e (
        simp (lt→ltb (length v.enum_value.enumerators) (length arg.enum_value.enumerators) l, same))

  -- A `set` of an enumeration that brings more enumerators replaces the whole message, its number
  -- unchecked, and reports that the value is the same.
  pub set_more_enumerators :
      (v arg : Value N)
      → v.type ≡ enum_type
      → arg.type ≡ enum_type
      → length v.enum_value.enumerators < length arg.enum_value.enumerators
      → m.same_enum arg.enum_value arg.enum_value ≡ true
      → set m v arg ≡ (same_value, record v { enum_value = arg.enum_value })
  unfolding type_code
  set_more_enumerators v arg e f l same =
      let numbered = ap type_code e ∙ sym (ap type_code f) in
      set_of v arg (ap is_unset e) ((eqb_iff (type_code v.type) (type_code arg.type)).1 numbered)
      ∙ set_as_more v.type v arg e l same

  set_as_frame :
      (t : ValueType) (v arg : Value N)
      → ((set_as m t v arg).1.access ≡ v.access) × ((set_as m t v arg).1.type ≡ v.type)
  unfolding set_as
  set_as_frame interval_type v arg = (refl, refl)
  set_as_frame uinterval_type v arg = (refl, refl)
  set_as_frame sinterval_type v arg = (refl, refl)
  set_as_frame usinterval_type v arg = (refl, refl)
  set_as_frame llinterval_type v arg = (refl, refl)
  set_as_frame ullinterval_type v arg = (refl, refl)
  set_as_frame dinterval_type v arg = (refl, refl)
  set_as_frame unset_type v arg = (refl, refl)
  set_as_frame unknown_type v arg = (refl, refl)
  set_as_frame bool_type v arg = (refl, refl)
  set_as_frame text_type v arg = (refl, refl)
  set_as_frame enum_type v arg = (refl, refl)
  set_as_frame udid_type v arg = (refl, refl)
  set_as_frame ipv4_type v arg = (refl, refl)
  set_as_frame eui48_type v arg = (refl, refl)
  set_as_frame ipv6_type v arg = (refl, refl)
  set_as_frame multi_type v arg = (refl, refl)
  set_as_frame container_type v arg = (refl, refl)
  set_as_frame add_to_type v arg = (refl, refl)
  set_as_frame remove_from_type v arg = (refl, refl)
  set_as_frame struct_type v arg = (refl, refl)
  set_as_frame time_val_type v arg = (refl, refl)
  set_as_frame time_spec_type v arg = (refl, refl)
  set_as_frame set_type v arg = (refl, refl)
  set_as_frame unordered_set_type v arg = (refl, refl)
  set_as_frame vector_type v arg = (refl, refl)

  -- `set` keeps the access.
  pub set_access : (v arg : Value N) → (set m v arg).1.access ≡ v.access
  unfolding set
  set_access v arg = ground (arith, (set_as_frame (typed v arg).type (typed v arg) arg).0)

  set_type-typed : (v arg : Value N) → (set m v arg).1.type ≡ (typed v arg).type
  unfolding set
  set_type-typed v arg = ground (arith, (set_as_frame (typed v arg).type (typed v arg) arg).1)

  -- `set` keeps the type of a value that has one.
  pub set_type_kept : (v arg : Value N) → is_unset v.type ≡ false → (set m v arg).1.type ≡ v.type
  set_type_kept v arg e = set_type-typed v arg ∙ rw e refl
