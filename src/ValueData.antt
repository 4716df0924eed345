-- ===== src/ValueData.antt =====
-- company_ref_variant_valuestore_valuedata.{h,cpp}: the data of a value, `CompanEdgeProtocol::Value`
-- of company_ref_protocol.proto. The comparison of messages, the range of an enumeration and the order
-- of a container come from company_ref_protocol_utils, outside the repository: `Messages` is their
-- interface. `N` are the numbers of the seven interval types, which are stored and compared only.
pub mod Assign
use refer.Base.{
  ℕ, ◌+◌, Bool, true, false, not, ◌&&◌, ◌||◌, Option, none, some, List, [], ◌∷◌, eqb, ltb,
  if◌then◌else◌, length,
}
use refer.Text.{Text}

-- `Value_Type`
pub data ValueType : Type 0 where
  unset_type unknown_type bool_type text_type interval_type enum_type uinterval_type
        ullinterval_type :
      ValueType
  udid_type llinterval_type sinterval_type usinterval_type ipv4_type eui48_type ipv6_type :
      ValueType
  multi_type dinterval_type container_type add_to_type remove_from_type struct_type : ValueType
  time_val_type time_spec_type set_type unordered_set_type vector_type : ValueType

-- The numbers of `Value_Type` in the protocol.
unfoldable pub type_code : ValueType → ℕ
type_code unset_type = 0
type_code unknown_type = 1
type_code bool_type = 2
type_code text_type = 3
type_code interval_type = 4
type_code enum_type = 5
type_code uinterval_type = 6
type_code ullinterval_type = 7
type_code udid_type = 8
type_code llinterval_type = 9
type_code sinterval_type = 10
type_code usinterval_type = 11
type_code ipv4_type = 12
type_code eui48_type = 13
type_code ipv6_type = 14
type_code multi_type = 15
type_code dinterval_type = 16
type_code container_type = 17
type_code add_to_type = 18
type_code remove_from_type = 19
type_code struct_type = 20
type_code time_val_type = 21
type_code time_spec_type = 22
type_code set_type = 23
type_code unordered_set_type = 24
type_code vector_type = 25

abbrev pub type_eq : ValueType → ValueType → Bool
type_eq s t = eqb (type_code s) (type_code t)

-- `Value_Access`
pub data Access : Type 0 where
  access_unset read_write read_only write_once : Access

-- `ValueDataSet::Results`
pub data Results : Type 0 where
  success same_value invalid_type range_error enum_error access_error : Results

pub record Range {ℓ} (N : Type ℓ) : Type ℓ where
  pub value : N
  pub min : N
  pub max : N

pub record EnumValue : Type 0 where
  pub enumerators : List (ℕ × Text)
  pub chosen : ℕ

pub record Time : Type 0 where
  pub seconds : ℕ
  pub fraction : ℕ

-- A message has a field for each type, and `type` says which one counts; a request for a container has
-- its key, and its value if it adds one. The fields for unknown values and several values, and `kind`,
-- are left out: no assignment reads them.
pub record Value {ℓ} (N : Type ℓ) : Type ℓ where
  pub id : Text
  pub type : ValueType
  pub access : Access
  pub hash_token : ℕ
  pub bool_value : Bool
  pub text_value : Text
  pub interval_value : Range N
  pub uinterval_value : Range N
  pub sinterval_value : Range N
  pub usinterval_value : Range N
  pub llinterval_value : Range N
  pub ullinterval_value : Range N
  pub dinterval_value : Range N
  pub udid_value : ℕ
  pub eui48_value : ℕ
  pub enum_value : EnumValue
  pub ipv4_value : Text
  pub ipv6_value : Text
  pub time_val_value : Time
  pub time_spec_value : Time
  pub set_value : List Text
  pub unordered_set_value : List Text
  pub vector_value : List Text
  pub add_to_container : Option (Text × Text)
  pub remove_from_container : Option Text

-- What the code takes from company_ref_protocol_utils, and the tests on numbers.
pub record Messages {ℓ} (N : Type ℓ) : Type ℓ where
  pub lt : N → N → Bool
  pub is_set : N → Bool
  pub same_bool : Bool → Bool → Bool
  pub same_text : Text → Text → Bool
  pub same_number : ℕ → ℕ → Bool
  pub same_range : Range N → Range N → Bool
  pub same_time : Time → Time → Bool
  pub same_enum : EnumValue → EnumValue → Bool
  pub same_keys : List Text → List Text → Bool
  pub check_range : EnumValue → ℕ → Bool
  pub constrain_set : List Text → List Text
  pub constrain_unordered_set : List Text → List Text
  pub constrain_vector : List Text → List Text

-- `assignTo` of a simple value.
pub assign_simple {ℓ} : {A : Type ℓ} → (A → A → Bool) → A → A → Results × A
assign_simple same lhs rhs = if same lhs rhs then (same_value, lhs) else (success, rhs)

-- `assignTo` of a container.
pub assign_container :
    (List Text → List Text → Bool)
    → (List Text → List Text)
    → List Text
    → List Text
    → Results × List Text
assign_container same constrain lhs rhs =
    if same lhs rhs then (same_value, lhs) else (success, constrain rhs)

module _ {ℓ} {N : Type ℓ} (m : Messages N) where
  -- `assignTo` of a number in a range.
  unfoldable pub assign_range : Range N → Range N → Results × Range N
  assign_range lhs rhs =
      if m.same_range lhs rhs
      then (same_value, lhs)
      else (if (m.is_set lhs.min || m.is_set lhs.max)
            && (m.lt rhs.value lhs.min || m.lt lhs.max rhs.value)
          then (range_error, lhs)
          else (success, record lhs { value = rhs.value }))

  -- `assignTo` of an enumeration.
  pub assign_enum : EnumValue → EnumValue → Results × EnumValue
  assign_enum lhs rhs =
      if m.same_enum lhs rhs
      then (same_value, lhs)
      else (if not (m.check_range lhs rhs.chosen)
          then (enum_error, lhs)
          else (success, record lhs { chosen = rhs.chosen }))

  -- The case `Enum` of `set`: more enumerators replace the stored message first.
  pub set_enum : EnumValue → EnumValue → Results × EnumValue
  set_enum lhs rhs =
      assign_enum (if ltb (length lhs.enumerators) (length rhs.enumerators) then rhs else lhs) rhs

  -- The `switch` of `set`, by the type of the stored value.
  unfoldable pub set_as : ValueType → Value N → Value N → Results × Value N
  set_as bool_type v arg =
      let r = assign_simple m.same_bool v.bool_value arg.bool_value in
      (r.0, record v { bool_value = r.1 })
  set_as text_type v arg =
      let r = assign_simple m.same_text v.text_value arg.text_value in
      (r.0, record v { text_value = r.1 })
  set_as interval_type v arg =
      let r = assign_range v.interval_value arg.interval_value in
      (r.0, record v { interval_value = r.1 })
  set_as uinterval_type v arg =
      let r = assign_range v.uinterval_value arg.uinterval_value in
      (r.0, record v { uinterval_value = r.1 })
  set_as sinterval_type v arg =
      let r = assign_range v.sinterval_value arg.sinterval_value in
      (r.0, record v { sinterval_value = r.1 })
  set_as usinterval_type v arg =
      let r = assign_range v.usinterval_value arg.usinterval_value in
      (r.0, record v { usinterval_value = r.1 })
  set_as llinterval_type v arg =
      let r = assign_range v.llinterval_value arg.llinterval_value in
      (r.0, record v { llinterval_value = r.1 })
  set_as ullinterval_type v arg =
      let r = assign_range v.ullinterval_value arg.ullinterval_value in
      (r.0, record v { ullinterval_value = r.1 })
  set_as dinterval_type v arg =
      let r = assign_range v.dinterval_value arg.dinterval_value in
      (r.0, record v { dinterval_value = r.1 })
  set_as udid_type v arg =
      let r = assign_simple m.same_number v.udid_value arg.udid_value in
      (r.0, record v { udid_value = r.1 })
  set_as eui48_type v arg =
      let r = assign_simple m.same_number v.eui48_value arg.eui48_value in
      (r.0, record v { eui48_value = r.1 })
  set_as enum_type v arg =
      let r = set_enum v.enum_value arg.enum_value in (r.0, record v { enum_value = r.1 })
  set_as ipv4_type v arg =
      let r = assign_simple m.same_text v.ipv4_value arg.ipv4_value in
      (r.0, record v { ipv4_value = r.1 })
  set_as ipv6_type v arg =
      let r = assign_simple m.same_text v.ipv6_value arg.ipv6_value in
      (r.0, record v { ipv6_value = r.1 })
  set_as time_val_type v arg =
      let r = assign_simple m.same_time v.time_val_value arg.time_val_value in
      (r.0, record v { time_val_value = r.1 })
  set_as time_spec_type v arg =
      let r = assign_simple m.same_time v.time_spec_value arg.time_spec_value in
      (r.0, record v { time_spec_value = r.1 })
  set_as set_type v arg =
      let r = assign_container m.same_keys m.constrain_set v.set_value arg.set_value in
      (r.0, record v { set_value = r.1 })
  set_as unordered_set_type v arg =
      let r =
        assign_container m.same_keys m.constrain_unordered_set v.unordered_set_value
          arg.unordered_set_value in
      (r.0, record v { unordered_set_value = r.1 })
  set_as vector_type v arg =
      let r = assign_container m.same_keys m.constrain_vector v.vector_value arg.vector_value in
      (r.0, record v { vector_value = r.1 })
  set_as container_type v arg = (success, v)
  set_as struct_type v arg = (success, v)
  set_as unset_type v arg = (invalid_type, v)
  set_as unknown_type v arg = (invalid_type, v)
  set_as multi_type v arg = (invalid_type, v)
  set_as add_to_type v arg = (invalid_type, v)
  set_as remove_from_type v arg = (invalid_type, v)

abbrev pub is_unset : ValueType → Bool
is_unset t = type_eq t unset_type || type_eq t unknown_type

-- The first statement of `set`: a value without a type takes the type of the argument.
abbrev pub typed {ℓ} : {N : Type ℓ} → Value N → Value N → Value N
typed v arg = if is_unset v.type then record v { type = arg.type } else v

-- `CompanEdgeProtocolValueData::set`
unfoldable pub set {ℓ} : {N : Type ℓ} → Messages N → Value N → Value N → Results × Value N
set m v arg =
    let w = typed v arg in
    if not (type_eq w.type arg.type) then (invalid_type, w) else set_as m w.type w arg

is_empty {ℓ} : {A : Type ℓ} → List A → Bool
is_empty [] = true
is_empty (x ∷ xs) = false

-- The `switch` of `hasData`.
has_data_as {ℓ} : {N : Type ℓ} → ValueType → Value N → Bool
unfolding is_empty
has_data_as text_type v = not (is_empty v.text_value)
has_data_as ipv4_type v = not (is_empty v.ipv4_value)
has_data_as ipv6_type v = not (is_empty v.ipv6_value)
has_data_as set_type v = not (eqb (length v.set_value) 0)
has_data_as unordered_set_type v = not (eqb (length v.unordered_set_value) 0)
has_data_as vector_type v = not (eqb (length v.vector_value) 0)
has_data_as container_type v = false
has_data_as struct_type v = false
has_data_as unset_type v = false
has_data_as unknown_type v = false
has_data_as multi_type v = false
has_data_as add_to_type v = false
has_data_as remove_from_type v = false
has_data_as bool_type v = true
has_data_as interval_type v = true
has_data_as uinterval_type v = true
has_data_as sinterval_type v = true
has_data_as usinterval_type v = true
has_data_as llinterval_type v = true
has_data_as ullinterval_type v = true
has_data_as dinterval_type v = true
has_data_as udid_type v = true
has_data_as eui48_type v = true
has_data_as enum_type v = true
has_data_as time_val_type v = true
has_data_as time_spec_type v = true

-- `hasData`
pub has_data {ℓ} : {N : Type ℓ} → Value N → Bool
unfolding has_data_as
has_data v = if is_unset v.type then false else has_data_as v.type v
