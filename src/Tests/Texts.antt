-- ===== src/Tests/Texts.antt =====
-- Values set from texts, and the destructor of the store, at concrete inputs.
use refer.Base.{ℕ, ◌+◌, ◌⊎◌, true, List, ◌≡◌, refl, arith, some, none, [], ◌∷◌, nat_eq, list_eq}
use refer.Base.Call.{returned, running}
use refer.Base.Table.{find}
use refer.Text.{codes, find_first, find_last}
use refer.ValueId.{leaf, trim_name, replace_double_dots}
use refer.Bucketizer
use refer.ValueData.{interval_type, type_code, write_once, eui48_type, struct_type, read_write}
use refer.Variant
use refer.Variant.{Variant, local, set_value, is_read_only}
use refer.Variant.FromText.{set_text}
use refer.Variant.FromText.Writes.{Write, by_value, by_text, local_writes, write_once_writes}
use refer.Variant.FromText.Eui48.{
  print_address, number_of, set_text-endless, set_text-print_address,
}
use refer.Store.{Store, Node}
use refer.Store.Delete.Frame.{IsBounded}
use refer.Store.Destroy.{destroy}
use refer.Store.Destroy.Endless.{IsStuck, destroy_endless}
use refer.Tests.Values.{numbers, at, no_enum}
use refer.Tests.Clients.{texts, no_requests, node_of}

abbrev address : Variant ℕ
address = record {
  value = at eui48_type read_write 0 no_enum;
  value_id = some (codes "mac");
  update_type = local;
  signals = 0;
}

set_text-endless_example :
    set_text texts 1000 numbers address (codes "zz:00:00:00:00:00") local ≡ running
set_text-endless_example =
    set_text-endless texts 1000 numbers address b'z' (codes "z:00:00:00:00:00") local refl refl refl
      (refl, refl, refl, refl)

set_text-print_address_example :
    set_text texts 7 numbers address (print_address 0 27 255 16 1 9) local
    ≡ returned (
        set_value numbers address
          (texts.put_uint64 (Variant.get address) (number_of 0 27 255 16 1 9))
          local)
set_text-print_address_example =
    set_text-print_address texts numbers address 0 27 255 16 1 9 local refl refl (omega arith)

-- A root with a child that has lost its id.
abbrev stuck_root : Node ℕ
stuck_root = node_of [] ((codes "b", 1) ∷ []) none 0 struct_type read_write

abbrev stuck_child : Node ℕ
stuck_child = record (node_of [] [] (some 0) 0 struct_type read_write) {
  variant = record {
    value = at struct_type read_write 0 no_enum;
    value_id = none;
    update_type = local;
    signals = 0;
  };
}

abbrev stuck : Store ℕ
stuck = record {
  bucketizer = Bucketizer.new;
  ws_map = ([], 1) ∷ [];
  heap = (0, stuck_root) ∷ (1, stuck_child) ∷ [];
  fresh = 2;
  events = [];
}

stuck-IsBounded : IsBounded stuck
unfolding find
stuck-IsBounded p node e = ground arith

stuck-IsStuck : IsStuck stuck
unfolding find Variant.id Variant.get_first leaf trim_name replace_double_dots find_first find_last
stuck-IsStuck = record {
  root = stuck_root;
  first = 1;
  child = stuck_child;
  bounded = stuck-IsBounded;
  at_root = refl;
  at_first = refl;
  at_child = refl;
  nameless = refl;
  not_linked = refl;
}

destroy_endless_example : destroy no_requests 1000 stuck ≡ none
destroy_endless_example = destroy_endless no_requests 1000 stuck stuck-IsStuck

abbrev once : Variant ℕ
once = record address { value = at interval_type write_once 2 no_enum }

-- A message out of the range, a text in the range, and a text behind the write.
abbrev calls : List (Write ℕ)
calls =
    by_value (at interval_type read_write 12 no_enum)
    ∷ by_text (codes "5")
    ∷ by_text (codes "6")
    ∷ []

write_once_writes_example :
    ((local_writes texts 7 numbers calls once).signals ≡ 0)
    ⊎ (((local_writes texts 7 numbers calls once).signals ≡ 0 + 1)
        × (is_read_only (local_writes texts 7 numbers calls once).value.access ≡ true))
unfolding type_code
write_once_writes_example = write_once_writes texts 7 numbers calls once refl refl
