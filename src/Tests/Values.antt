-- ===== src/Tests/Values.antt =====
-- Values, their access and their children at concrete inputs.
use refer.Base.{
  ℕ, ◌≡◌, ◌≢◌, refl, ap, arith, Bool, true, false, some, none, List, [], ◌∷◌, eqb, ltb, not,
  if◌then◌else◌, ◌==◌, list_eq, nat_eq,
}
use mathlib.Core.Bool.{false≢true}
use refer.Base.Table.{Table}
use refer.Text.{Text}
use refer.ValueId.{ValueId}
use refer.ValueData.{
  Value, ValueType, Access, Range, EnumValue, Messages, Results, success, same_value, interval_type,
  enum_type, container_type, remove_from_type, read_write, typed, set, type_code, set_as,
  assign_range,
}
use refer.ValueData.Assign.{Wrote, set_range, set_kept, set_more_enumerators}
use refer.Variant.{Variant, local}
use refer.MapValue.{MapValue, Requests, clear}
use refer.MapValue.Clear.{Answers, Requested, clear-Requested}
use refer.Variant.Keys.{KeyParser, parse_container_keys, parse_container_keys-join_keys}

-- The operations on messages, where two messages are the same if their numbers are.
abbrev pub numbers : Messages ℕ
numbers = record {
  lt = ltb;
  is_set = λ n. not (eqb n 0);
  same_bool = λ a b. if a then b else not b;
  same_text = λ a b. a == b;
  same_number = eqb;
  same_range = λ a b. eqb a.value b.value;
  same_time = λ a b. eqb a.seconds b.seconds;
  same_enum = λ a b. eqb a.chosen b.chosen;
  same_keys = λ a b. a == b;
  check_range = λ e n. ltb n 4;
  constrain_set = λ keys. keys;
  constrain_unordered_set = λ keys. keys;
  constrain_vector = λ keys. keys;
}

abbrev none_set : Range ℕ
none_set = record { value = 0; min = 0; max = 0 }

abbrev pub at : ValueType → Access → ℕ → EnumValue → Value ℕ
at type access n e = record {
  id = [];
  type = type;
  access = access;
  hash_token = 0;
  bool_value = false;
  text_value = [];
  interval_value = record { value = n; min = 1; max = 9 };
  uinterval_value = none_set;
  sinterval_value = none_set;
  usinterval_value = none_set;
  llinterval_value = none_set;
  ullinterval_value = none_set;
  dinterval_value = none_set;
  udid_value = 0;
  eui48_value = 0;
  enum_value = e;
  ipv4_value = [];
  ipv6_value = [];
  time_val_value = record { seconds = 0; fraction = 0 };
  time_spec_value = record { seconds = 0; fraction = 0 };
  set_value = [];
  unordered_set_value = [];
  vector_value = [];
  add_to_container = none;
  remove_from_container = none;
}

abbrev pub no_enum : EnumValue
no_enum = record { enumerators = []; chosen = 0 }

abbrev some_enum : EnumValue
some_enum = record { enumerators = (0, []) ∷ []; chosen = 3 }

set_range_example :
    Wrote numbers interval_type
      (record { value = 2; min = 1; max = 9 })
      (at interval_type read_write 5 no_enum)
      (set numbers
        (at interval_type read_write 2 no_enum)
        (at interval_type read_write 5 no_enum)).1
unfolding set set_as assign_range type_code
set_range_example =
    set_range numbers (at interval_type read_write 2 no_enum)
      (at interval_type read_write 5 no_enum) (record { value = 2; min = 1; max = 9 }) refl refl

abbrev was_success : Results → Bool
was_success success = true
was_success r = false

out_of_range :
    (set numbers (at interval_type read_write 2 no_enum) (at interval_type read_write 12 no_enum)).0
    ≢ success
unfolding set set_as assign_range type_code
out_of_range e = false≢true (ap was_success e)

set_kept_example :
    (set numbers (at interval_type read_write 2 no_enum) (at interval_type read_write 12 no_enum)).1
    ≡ typed (at interval_type read_write 2 no_enum) (at interval_type read_write 12 no_enum)
unfolding type_code
set_kept_example =
    set_kept numbers (at interval_type read_write 2 no_enum)
      (at interval_type read_write 12 no_enum) refl refl out_of_range

set_more_enumerators_example :
    set numbers (at enum_type read_write 2 no_enum) (at enum_type read_write 2 some_enum)
    ≡ (same_value, at enum_type read_write 2 some_enum)
set_more_enumerators_example =
    set_more_enumerators numbers (at enum_type read_write 2 no_enum)
      (at enum_type read_write 2 some_enum) refl refl (omega arith) refl

abbrev stored : Access → Variant ℕ
stored access = record {
  value = at interval_type access 2 no_enum;
  value_id = some (97 ∷ []);
  update_type = local;
  signals = 0;
}

abbrev children : Table ValueId ℕ
children = (97 ∷ [], 1) ∷ (99 ∷ [], 3) ∷ []

abbrev removal : Variant ℕ → ValueId → Variant ℕ
removal self key = record self {
  value = record self.value { type = remove_from_type; remove_from_container = some key };
}

abbrev requests : Requests ℕ
requests = record {
  make_add_to = λ self key update. none;
  make_remove_from = λ self key update. some (removal self key);
}

abbrev container : MapValue ℕ
container = record {
  self = record (stored read_write) { value = at container_type read_write 2 no_enum };
  children = children;
  added = [];
  removed = [];
  changed = [];
}

answered : Answers requests removal
unfolding type_code
answered self key = (refl, refl, refl)

clear-Requested_example : Requested removal children container (clear requests container)
unfolding type_code
clear-Requested_example = clear-Requested requests removal answered container (refl, refl)

-- Keys are collected in a list, the last one first, and nothing is trimmed.
abbrev collect : KeyParser (List Text)
collect = record {
  remove_brackets = λ s. s;
  trim = λ s. s;
  clear = λ keys. [];
  add = λ keys key. key ∷ keys;
}

parse_container_keys-join_keys_example :
    parse_container_keys collect [] (97 ∷ b',' ∷ 98 ∷ []) ≡ some ((98 ∷ []) ∷ (97 ∷ []) ∷ [])
parse_container_keys-join_keys_example =
    parse_container_keys-join_keys collect (97 ∷ b',' ∷ 98 ∷ []) (97 ∷ []) ((98 ∷ []) ∷ []) [] refl
      (refl, refl)
