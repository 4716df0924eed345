-- ===== src/Variant/FromText/Numbers.antt =====
-- `VariantValue::set(std::string const&, SetUpdateType)` for the types of numbers with a sign.
use refer.Base.{ℕ, ◌≡◌, refl, false, ◌&&◌, ◌||◌, none, ◌∷◌}
use refer.Base.Call.{thrown}
use refer.Text.{Text}
use refer.Text.Number.{digits_from, stoll}
use refer.ValueData.{
  Value, ValueType, Messages, type_eq, is_unset, interval_type, sinterval_type, llinterval_type,
  container_type, struct_type, type_code,
}
use refer.Variant
use refer.Variant.{Variant, UpdateType, is_read_only, is_local}
use refer.Variant.FromText.{Texts, updated, pass_on, set_text}

-- The types that `std::stoll` reads.
pub data IsSigned : ValueType → Type 0 where
  interval : IsSigned interval_type
  sinterval : IsSigned sinterval_type
  llinterval : IsSigned llinterval_type

module _ {ℓ} {N : Type ℓ} (texts : Texts N) where
  updated-minus :
      (n : ℕ) (t : ValueType) (v : Value N) (rest : Text)
      → IsSigned t
      → digits_from none rest ≡ none
      → updated texts n t v (b'-' ∷ rest) ≡ thrown
  unfolding updated stoll
  updated-minus n t v rest interval none_read = rw (updated, stoll, none_read) refl
  updated-minus n t v rest sinterval none_read = rw (updated, stoll, none_read) refl
  updated-minus n t v rest llinterval none_read = rw (updated, stoll, none_read) refl

  signed_open :
      (t : ValueType)
      → IsSigned t
      → (is_unset t ≡ false) × ((type_eq t container_type || type_eq t struct_type) ≡ false)
  unfolding type_code
  signed_open t interval = (refl, refl)
  signed_open t sinterval = (refl, refl)
  signed_open t llinterval = (refl, refl)

  -- A text of a minus without a digit behind it makes `set` of a value of type Interval, SInterval or
  -- LLInterval throw, unless the value is read-only and the call is local.
  pub set_text-throws :
      (n : ℕ) (m : Messages N) (v : Variant N) (rest : Text) (update : UpdateType)
      → (is_read_only v.value.access && is_local update) ≡ false
      → IsSigned v.value.type
      → digits_from none rest ≡ none
      → set_text texts n m v (b'-' ∷ rest) update ≡ thrown
  unfolding set_text pass_on
  set_text-throws n m v rest update access h none_read =
      let (not_unset, not_container) = signed_open v.value.type h in
      rw
        (
          set_text,
          access,
          not_unset,
          not_container,
          updated-minus n v.value.type (Variant.get v) rest h none_read,
        )
        refl
