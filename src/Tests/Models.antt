-- ===== src/Tests/Models.antt =====
-- Data models in a concrete tree, and values made from them: a structure `aa`, and a container `bb`.
use refer.Base.{
  ℕ, ◌≡◌, refl, arith, Bool, true, false, Option, some, [], ◌∷◌, ◌++◌, list_eq, nat_eq,
}
use refer.Variant.{of_value, local}
use refer.Store
use refer.Variant
use refer.Bucketizer
use refer.Bucketizer.{make}
use refer.TokenMap
use refer.HashBucket.{has_bucket, create_token}
use refer.Store.{Store, empty_store}
use refer.Dmo.Helper.{
  Making, insert_store_value, insert_parts, insert_part, locate_parent, create_values,
}
use refer.Base.Table.{find, put}
use refer.ValueId.Segments.Walk.{elements}
use refer.Store.Set
use refer.Variant.{set_value}
use refer.Text.{find_first, find_last}
use refer.Dmo.Helper.Kept.{insert_store_value_lem}
use refer.Tests.Stores.{hash, blank}
use refer.Tests.Clients.{texts, no_requests, value_or}
use refer.Base.Call.{returned}
use refer.Text.{Text}
use refer.ValueId.{
  iterator_eq, begin, end, first, next, concat, parent, leaf, id_eq, trim_name, replace_double_dots,
  ValueId, value_id, separator, is_empty, add_assign,
}
use refer.ValueId.Segments.{IsSegment}
use refer.ValueData.{type_eq, type_code, Value, struct_type, container_type, text_type}
use refer.Dmo.{Definitions, delim, meta_data_loop, get_meta_data, get_meta_data_path, is_instance}
use refer.Dmo.Paths.{Located, get_meta_data_path-Located}
use refer.Dmo.Instances.{is_instance-fuel}
use refer.Dmo.Edit.{insert_value, remove_value}
use refer.Dmo.Edit.Refused.{meets, insert_value-Enters}
use refer.Dmo.Edit.Removal.{remove_value-kept}
use refer.ValueData.{type_code, unset_type, ValueType, read_write}
use refer.Tests.Values.{numbers, at, no_enum}
use refer.Tests.Trees.{Forest, bare, grow, Tree, tree, laws}

abbrev named : ValueType → Text → Value ℕ
named type name = record (at type read_write 0 no_enum) { id = name }

abbrev aa : Text
aa = 97 ∷ 97 ∷ []

abbrev bb : Text
bb = 98 ∷ 98 ∷ []

abbrev definition : Forest
definition = grow delim (named struct_type delim) bare bare

abbrev model : Tree
model = (
  at unset_type read_write 0 no_enum,
  grow aa (named struct_type aa) (grow bb (named text_type bb) bare bare)
      (grow bb (named container_type bb) definition bare),
)

abbrev definitions : Definitions ℕ
definitions = record {
  blank = at unset_type read_write 0 no_enum;
  init = λ v type. record v { type = type };
  is_valid = λ v. true;
}

aa-IsSegment : IsSegment aa
aa-IsSegment = (refl, refl, refl)

bb-IsSegment : IsSegment bb
bb-IsSegment = (refl, refl, refl)

get_meta_data_path-Located_example :
    (found : Option Tree) × (path : Text) × (get_meta_data tree 3 model (bb ++ separator ∷ aa)
      ≡ returned found)
    × (get_meta_data_path tree 3 model (bb ++ separator ∷ aa) ≡ returned path)
    × Located tree model found path
get_meta_data_path-Located_example =
    get_meta_data_path-Located tree model bb (aa ∷ []) (bb-IsSegment, (aa-IsSegment, tt))

is_instance-fuel_example :
    (b : Bool) × (is_instance tree 9 model (bb ++ separator ∷ aa) ≡ returned b)
is_instance-fuel_example = is_instance-fuel tree model 9 (bb ++ separator ∷ aa) (omega arith)

abbrev inserted : Value ℕ
inserted = named text_type (bb ++ separator ∷ aa)

insert_value-Enters_example :
    insert_value tree definitions 3 model inserted true ≡ returned (false, model)
unfolding add_assign is_empty type_code
insert_value-Enters_example =
    insert_value-Enters tree definitions model inserted bb (aa ∷ [])
      (bb-IsSegment, (aa-IsSegment, tt)) refl
      (meets {above = []} {e = bb} (named container_type bb, definition) refl refl)

remove_value-kept_example : remove_value tree 3 model aa ≡ returned (false, model)
remove_value-kept_example =
    remove_value-kept tree laws model aa
      (named struct_type aa, grow bb (named text_type bb) bare bare)
      (bb, (named text_type bb, bare)) [] aa-IsSegment refl refl refl

abbrev making : Making ℕ
making = record {
  messages = numbers;
  texts = texts;
  requests = no_requests;
  hash = hash;
  blank = blank;
  is_valid = λ v. true;
  factory = λ v update. (of_value v update, type_eq v.type container_type);
  trim = λ s. s;
}

-- The store behind the insertion of `bb.aa`, which the model defines below its container `bb`.
abbrev filled : Bool × Store ℕ
filled =
    value_or (insert_store_value tree making 9 model (empty_store blank) inserted local)
      (false, empty_store blank)

filled_ends :
    insert_store_value tree making 9 model (empty_store blank) inserted local
    ≡ returned (filled.0, filled.1)
unfolding insert_store_value Store.get find empty_store elements iterator_eq begin end first next
    concat insert_parts insert_part add_assign is_empty Store.has locate_parent get_meta_data
    meta_data_loop type_code create_values Store.Set.set Store.add Store.add_at Store.get_parent
    Store.link Store.register Store.connect Store.placeholder parent leaf id_eq trim_name
    replace_double_dots find_first find_last put set_value Variant.id of_value make has_bucket
    create_token Bucketizer.get TokenMap.get TokenMap.insert
filled_ends = refl

insert_store_value_lem_example :
    (filled.0 ≡ Store.has filled.1 (value_id inserted.id))
    × ((k : ValueId) (q : ℕ)
        → Store.get (empty_store blank) k ≡ some q
        → Store.get filled.1 k ≡ some q)
insert_store_value_lem_example =
    insert_store_value_lem tree making 9 model (empty_store blank) filled.1 inserted local filled.0
      filled_ends
