-- ===== src/Variant/FromText.antt =====
-- `VariantValue::set(std::string const&, SetUpdateType)`. The writes of a number or a text into a message
-- (`valueSet`), the times from a text (`ValueTime::fromString`) and the containers of keys come from
-- outside the repository: `Texts` is their interface.
pub mod Eui48
pub mod Numbers
pub mod Writes
use Prim.Native.Nat.{bit_or}
use refer.Base.{
  ℕ, zero, suc, ◌*◌, ◌%◌, ◌^◌, Bool, true, false, not, ◌&&◌, ◌||◌, Option, none, some, List, [],
  ◌∷◌, ◌++◌, eqb, length, if◌then◌else◌, ◌==◌, list_eq, nat_eq,
}
use refer.Base.Call.{Call, returned, thrown, running}
use refer.Text.{Text, take}
use refer.Text.Number.{Stream, is_digit, skip_spaces, stoll, stoull, int32, read_hex, read_char}
use refer.ValueData.{
  Value, ValueType, Results, Messages, Time, success, invalid_type, access_error, type_eq, is_unset,
  bool_type, text_type, enum_type, ipv4_type, ipv6_type, eui48_type, interval_type, sinterval_type,
  uinterval_type, usinterval_type, llinterval_type, udid_type, ullinterval_type, dinterval_type,
  time_val_type, time_spec_type, set_type, unordered_set_type, vector_type, container_type,
  struct_type, unset_type, unknown_type, multi_type, add_to_type, remove_from_type,
}
use refer.Variant
use refer.Variant.{Variant, UpdateType, is_read_only, is_local, signal, set_value}
use refer.Variant.Keys.{KeyParser, parse_container_keys}

pub record Texts {ℓ} (N : Type ℓ) : Type ℓ where
  pub put_bool : Value N → Bool → Value N
  pub put_text : Value N → Text → Value N
  pub put_int32 : Value N → ℕ → Value N
  pub put_int64 : Value N → ℕ → Value N
  pub put_uint64 : Value N → ℕ → Value N
  pub put_double : Value N → N → Value N
  pub put_time_val : Value N → Time → Value N
  pub put_time_spec : Value N → Time → Value N
  pub stod : Text → Option N
  pub time_val_of : Text → Time
  pub time_spec_of : Text → Time
  pub keys : KeyParser (List Text)

-- `arg[0]`, which is 0 for an empty text.
abbrev first_char : Text → ℕ
first_char [] = 0
first_char (c ∷ s) = c

-- `std::istringstream(arg) >> std::boolalpha >> argValue`
abbrev read_bool : Text → Bool
read_bool arg = take 4 (skip_spaces arg) == (b't' ∷ b'r' ∷ b'u' ∷ b'e' ∷ [])

-- The loop of the case `EUI48`, with the number so far; each round takes one unit of fuel.
pub eui48_from : ℕ → Stream → ℕ → Call ℕ
eui48_from zero strm eui48 = running
eui48_from (suc n) strm eui48 = elim strm.eof [
  | true ↦ returned eui48
  | false ↦
      let (byte, behind) = read_hex strm 0 in
      eui48_from n (read_char behind) (bit_or (eui48 * 2 ^ 8 % 2 ^ 64) byte)
]

abbrev pub stream_of : Text → Stream
stream_of arg = record { rest = arg; eof = false; fail = false }

module _ {ℓ} {N : Type ℓ} (texts : Texts N) where
  -- A number that the standard library reads from the text, or an exception.
  abbrev with_number {κ} : {A : Type κ} → Bool → Option A → (A → Value N) → Call (Option (Value N))
  with_number accepted n put =
      if not accepted
      then returned none
      else elim n [ none ↦ thrown | some k ↦ returned (some (put k)) ]

  abbrev with_text : Bool → Value N → Call (Option (Value N))
  with_text accepted v = returned (if accepted then some v else none)

  abbrev with_keys : Option (List Text) → (List Text → Value N) → Call (Option (Value N))
  with_keys none put = running
  with_keys (some keys) put = returned (some (put keys))

  abbrev with_eui48 : Value N → Call ℕ → Call (Option (Value N))
  with_eui48 v running = running
  with_eui48 v thrown = thrown
  with_eui48 v (returned n) = returned (some (texts.put_uint64 v n))

  -- The `switch` for the type of the value, whose message is `v`: the message that it passes on, or
  -- none if it returns `InvalidType`. A container and a struct do not come here.
  unfoldable pub updated : ℕ → ValueType → Value N → Text → Call (Option (Value N))
  updated n bool_type v arg =
      with_text (not (eqb (length arg) 0)) (texts.put_bool v (read_bool arg))
  updated n text_type v arg = with_text true (texts.put_text v arg)
  updated n enum_type v arg = with_text (not (eqb (length arg) 0)) (texts.put_text v arg)
  updated n ipv4_type v arg = with_text (not (eqb (length arg) 0)) (texts.put_text v arg)
  updated n ipv6_type v arg = with_text (not (eqb (length arg) 0)) (texts.put_text v arg)
  updated n eui48_type v arg =
      let number = eui48_from n (stream_of arg) 0 in
      if not (eqb (length arg) 17) then returned none else with_eui48 v number
  updated n interval_type v arg =
      with_number (is_digit (first_char arg) || eqb (first_char arg) b'-') (stoll arg)
        (λ k. texts.put_int32 v (int32 k))
  updated n sinterval_type v arg =
      with_number (is_digit (first_char arg) || eqb (first_char arg) b'-') (stoll arg)
        (λ k. texts.put_int32 v (int32 k))
  updated n uinterval_type v arg =
      with_number (is_digit (first_char arg)) (stoull arg) (λ k. texts.put_int32 v (int32 k))
  updated n usinterval_type v arg =
      with_number (is_digit (first_char arg)) (stoull arg) (λ k. texts.put_int32 v (int32 k))
  updated n llinterval_type v arg =
      with_number (is_digit (first_char arg) || eqb (first_char arg) b'-') (stoll arg)
        (λ k. texts.put_int64 v k)
  updated n udid_type v arg =
      with_number (is_digit (first_char arg)) (stoull arg) (λ k. texts.put_uint64 v k)
  updated n ullinterval_type v arg =
      with_number (is_digit (first_char arg)) (stoull arg) (λ k. texts.put_uint64 v k)
  updated n dinterval_type v arg =
      with_number (is_digit (first_char arg) || eqb (first_char arg) b'-') (texts.stod arg)
        (λ d. texts.put_double v d)
  updated n time_val_type v arg =
      with_text (is_digit (first_char arg)) (texts.put_time_val v (texts.time_val_of arg))
  updated n time_spec_type v arg =
      with_text (is_digit (first_char arg)) (texts.put_time_spec v (texts.time_spec_of arg))
  updated n set_type v arg =
      with_keys (parse_container_keys texts.keys v.set_value arg)
        (λ keys. record v { set_value = keys })
  updated n unordered_set_type v arg =
      with_keys (parse_container_keys texts.keys v.unordered_set_value arg)
        (λ keys. record v { unordered_set_value = keys })
  updated n vector_type v arg =
      with_keys (parse_container_keys texts.keys v.vector_value arg)
        (λ keys. record v { vector_value = keys })
  updated n container_type v arg = returned none
  updated n struct_type v arg = returned none
  updated n unset_type v arg = returned none
  updated n unknown_type v arg = returned none
  updated n multi_type v arg = returned none
  updated n add_to_type v arg = returned none
  updated n remove_from_type v arg = returned none

  -- The last line of `set`, with the result of the `switch`.
  unfoldable pub pass_on :
      Messages N → Variant N → UpdateType → Call (Option (Value N)) → Call (Results × Variant N)
  pass_on m v update running = running
  pass_on m v update thrown = thrown
  pass_on m v update (returned none) = returned (invalid_type, v)
  pass_on m v update (returned (some arg)) = returned (set_value m v arg update)

  -- `set(std::string const&, SetUpdateType)`; `n` is the fuel of the loop of `EUI48`.
  unfoldable pub set_text :
      ℕ → Messages N → Variant N → Text → UpdateType → Call (Results × Variant N)
  set_text n m v arg update =
      let asked = pass_on m v update (updated n v.value.type (Variant.get v) arg) in
      if is_read_only v.value.access && is_local update
      then returned (access_error, v)
      else (if is_unset v.value.type
          then returned (invalid_type, v)
          else (if type_eq v.value.type container_type || type_eq v.value.type struct_type
              then returned (success, signal v)
              else asked))
