-- ===== src/Tests/Clients.antt =====
-- A store with the values `a`, `b` and `b.c`, and clients of the server on it.
use refer.Base.{
  ℕ, ◌≡◌, ◌⊎◌, inl, inr, refl, arith, true, false, Option, some, none, [], ◌∷◌, list_eq, nat_eq,
}
use refer.Base.Call.{Call, returned, thrown, running}
use refer.Base.Table.{Table, find}
use refer.Text.{Text, codes}
use refer.HashToken.{HashToken}
use refer.ValueId.{ValueId, parent}
use refer.Bucketizer
use refer.ValueData.{ValueType, Access, interval_type, struct_type, read_write, read_only}
use refer.Variant.{local}
use refer.Variant.FromText.{Texts}
use refer.MapValue.{Requests}
use refer.Store
use refer.Store.{Store, Node}
use refer.Store.Delete.Frame.{IsBounded}
use refer.Protocol.{Handler, Outside, all_off}
use refer.Protocol.Notices.Parents.{IsClosed}
use refer.Tests.Values.{numbers, at, no_enum}

abbrev pub node_of : Text → Table ValueId ℕ → Option ℕ → ℕ → ValueType → Access → Node ℕ
node_of name children parent token type access = record {
  variant = record {
    value = record (at type access 2 no_enum) { hash_token = token };
    value_id = some name;
    update_type = local;
    signals = 0;
  };
  children = children;
  parent = parent;
  is_map = false;
  notifies = true;
  notifies_requests = false;
}

abbrev pub a : ValueId
a = codes "a"

abbrev pub b : ValueId
b = codes "b"

abbrev pub bc : ValueId
bc = codes "b.c"

abbrev pub node_a : Node ℕ
node_a = node_of a [] (some 0) 5 interval_type read_write

abbrev pub node_b : Node ℕ
node_b = node_of b ((codes "c", 3) ∷ []) (some 0) 6 struct_type read_write

abbrev pub node_bc : Node ℕ
node_bc = node_of bc [] (some 2) 7 interval_type read_only

abbrev pub heap : Table ℕ (Node ℕ)
heap =
    (0, node_of [] ((a, 1) ∷ (b, 2) ∷ []) none 0 struct_type read_write)
    ∷ (1, node_a)
    ∷ (2, node_b)
    ∷ (3, node_bc)
    ∷ []

abbrev pub store : Store ℕ
store = record {
  bucketizer = Bucketizer.new;
  ws_map = (a, 1) ∷ (b, 2) ∷ (bc, 3) ∷ [];
  heap = heap;
  fresh = 4;
  events = [];
}

pub store-IsBounded : IsBounded store
unfolding find
store-IsBounded p node e = ground arith

abbrev pub texts : Texts ℕ
texts = record {
  put_bool = λ v x. record v { bool_value = x };
  put_text = λ v x. record v { text_value = x };
  put_int32 = λ v n. record v { interval_value = record v.interval_value { value = n } };
  put_int64 = λ v n. record v { llinterval_value = record v.llinterval_value { value = n } };
  put_uint64 = λ v n. record v { eui48_value = n };
  put_double = λ v n. record v { dinterval_value = record v.dinterval_value { value = n } };
  put_time_val = λ v t. record v { time_val_value = t };
  put_time_spec = λ v t. record v { time_spec_value = t };
  stod = λ s. none;
  time_val_of = λ s. record { seconds = 0; fraction = 0 };
  time_spec_of = λ s. record { seconds = 0; fraction = 0 };
  keys = record { remove_brackets = λ s. s; trim = λ s. s; clear = λ c. []; add = λ c s. s ∷ c };
}

abbrev pub no_requests : Requests ℕ
no_requests = record { make_add_to = λ v k u. none; make_remove_from = λ v k u. none }

abbrev pub out : Outside ℕ
out = record {
  messages = numbers;
  texts = texts;
  requests = no_requests;
  blank = at struct_type read_write 0 no_enum;
  matches = λ pattern name. true;
  insert_child = λ s name key value update. returned (false, s);
}

abbrev pub token : ℕ → HashToken
token n = record { bucket = 0; id = n }

-- A client with a subscription to `b` alone, and one with none.
abbrev pub to_b : Handler ℕ
to_b = record {
  store = store;
  subscriptions = (0, (6, 2) ∷ []) ∷ [];
  listeners = all_off;
  sent = [];
}

abbrev pub fresh_client : Handler ℕ
fresh_client = record { store = store; subscriptions = []; listeners = all_off; sent = [] }

abbrev pub IsOneOf : ℕ → Type 0
IsOneOf q = (q ≡ 1) ⊎ (q ≡ 2) ⊎ (q ≡ 3)

pub get-cases : (k : ValueId) (q : ℕ) → Store.get store k ≡ some q → IsOneOf q
unfolding Store.get find
get-cases k q e = ground arith

pub store-IsClosed : IsClosed store
unfolding find
store-IsClosed k q e = elim (get-cases k q e) [
  | inl x ↦ (node_a, rw x refl)
  | inr (inl x) ↦ (node_b, rw x refl)
  | inr (inr x) ↦ (node_bc, rw x refl)
]

abbrev pub value_or {ℓ} : {A : Type ℓ} → Call A → A → A
value_or (returned x) y = x
value_or thrown y = y
value_or running y = y
