-- ===== src/Tests/Stores.antt =====
-- The store at concrete inputs: a value `a` in an empty store, then `b`.
use refer.Base.{
  ℕ, ◌+◌, ◌*◌, ◌≡◌, refl, arith, Bool, Option, some, none, false, [], ◌∷◌, length, list_eq, nat_eq,
}
use refer.Base.Table.{find, put}
use refer.HashToken.{transport_token}
use refer.HashBucket.{create_token, collide, has_bucket}
use refer.TokenMap
use refer.Text.{find_first, find_last}
use refer.ValueId.{ValueId, trim_name, replace_double_dots, leaf, parent, is_empty}
use refer.Bucketizer
use refer.Bucketizer.{Bucketizer, new, make, make_new, find_by_id, has_id}
use refer.ValueData.{Value, interval_type, unset_type, read_write}
use refer.Variant
use refer.Variant.{Variant, UpdateType, local, of_value, add_child, emplace}
use refer.Store.{Store, new_node, alloc, empty_store, get, add, add_at, get_parent, link, register}
use refer.Store.Fuel.{add-fuel}
use refer.Store.Grows.{add-get_kept}
use refer.Tests.Values.{at, no_enum}

abbrev pub hash : ValueId → ℕ
hash [] = 0
hash (c ∷ s) = c + length s * 1000

abbrev pub blank : Value ℕ
blank = at unset_type read_write 0 no_enum

abbrev named : ValueId → Variant ℕ
named name = record {
  value = at interval_type read_write 2 no_enum;
  value_id = some name;
  update_type = local;
  signals = 0;
}

abbrev a : ValueId
a = 97 ∷ []

abbrev bc : ValueId
bc = 98 ∷ 46 ∷ 99 ∷ []

-- The store of a result.
abbrev store_of : Option (Option ℕ × Store ℕ) → Store ℕ → Store ℕ
store_of none s = s
store_of (some (r, s)) _ = s

abbrev s0 : Store ℕ
s0 = alloc (empty_store blank) (named a)

abbrev s1 : Store ℕ
s1 = store_of (add hash blank s0 1) s0

abbrev s2 : Store ℕ
s2 = alloc s1 (named bc)

abbrev s3 : Store ℕ
s3 = store_of (add hash blank s2 2) s2

added_bc : add hash blank s2 2 ≡ some (some 2, s3)
unfolding add add_at empty_store get_parent link register get Variant.id of_value add_child emplace
    leaf parent is_empty trim_name replace_double_dots find_first find_last make make_new find_by_id
    has_id has_bucket create_token collide TokenMap.insert TokenMap.get Bucketizer.get find put
    transport_token
added_bc = refl

still_a : get s2 a ≡ some 1
unfolding add add_at empty_store get_parent link register get Variant.id of_value add_child emplace
    leaf parent is_empty trim_name replace_double_dots find_first find_last make make_new find_by_id
    has_id has_bucket create_token collide TokenMap.insert TokenMap.get Bucketizer.get find put
    transport_token
still_a = refl

add-fuel_example : add hash blank s0 1 ≡ add_at hash blank 5 s0 1
unfolding add add_at empty_store get_parent link register get Variant.id of_value add_child emplace
    leaf parent is_empty trim_name replace_double_dots find_first find_last make make_new find_by_id
    has_id has_bucket create_token collide TokenMap.insert TokenMap.get Bucketizer.get find put
    transport_token
add-fuel_example = add-fuel hash blank 5 s0 1 (new_node (named a)) refl (omega arith)

add-get_kept_example : get s3 a ≡ some 1
add-get_kept_example = add-get_kept hash blank s2 s3 2 (some 2) a 1 added_bc still_a

-- The same value in an empty store, where all ids have one hash: the parent `b` is made first.
abbrev one_hash : ValueId → ℕ
one_hash name = 7

abbrev t0 : Store ℕ
t0 = alloc (empty_store blank) (named bc)

abbrev t1 : Store ℕ
t1 = store_of (add one_hash blank t0 1) t0

-- A factory without containers.
abbrev made : Value ℕ → UpdateType → Variant ℕ × Bool
made v update = (of_value v update, false)
