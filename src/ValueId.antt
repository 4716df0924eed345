-- ===== src/ValueId.antt =====
-- company_ref_variant_valuestore_valueid.{h,cpp}: dotted names, and the iterator over their parts.
pub mod Segments
pub mod Trim
pub mod Length
use refer.Base.{
  ℕ, zero, suc, ◌+◌, ◌-◌, ◌^◌, Bool, true, false, not, ◌&&◌, ◌||◌, Option, none, some, List, [],
  ◌∷◌, ◌++◌, eqb, ltb, if◌then◌else◌, ◌==◌, nat_eq, list_eq, length,
}
use refer.Text.{Text, take, drop, find_first, find_last, substr, text_lt}

-- `ValueId` holds its name alone.
abbrev pub ValueId : Type 0
ValueId = Text

abbrev pub separator : ℕ
separator = b'.'

abbrev pub is_separator : ℕ → Bool
is_separator c = eqb c b'.'

-- A character of `" ."`.
abbrev pub is_blank : ℕ → Bool
is_blank c = eqb c b' ' || eqb c b'.'

-- `std::regex_replace(name, "[.][.]", ".")`: pairs of dots from the left, each replaced by one.
unfoldable pub replace_double_dots : Text → Text
replace_double_dots [] = []
replace_double_dots (c ∷ []) = c ∷ []
replace_double_dots (c ∷ d ∷ s) = elim (is_separator c && is_separator d) [
  | true ↦ separator ∷ replace_double_dots s
  | false ↦ c ∷ replace_double_dots (d ∷ s)
]

-- `trimName`
unfoldable pub trim_name : Text → Text
unfolding replace_double_dots
trim_name [] = []
trim_name name = elim (find_last (λ c. not (is_blank c)) name) [
  | none ↦ []
  | some last ↦
      let end = last + 1 in
      let begin : ℕ = elim (find_first (λ c. not (is_blank c)) name) [ none ↦ 0 | some i ↦ i ] in
      replace_double_dots (substr name begin (end - begin))
]

-- `ValueId(std::string const&)`
abbrev pub value_id : Text → ValueId
value_id name = trim_name name

-- `ValueId(ValueId const& parent, std::string const& name)`
unfoldable pub concat : ValueId → Text → ValueId
concat parent name = trim_name (parent ++ separator ∷ trim_name name)

unfoldable pub is_empty : ValueId → Bool
is_empty [] = true
is_empty (c ∷ name) = false

-- `operator+=`
unfoldable pub add_assign : ValueId → ValueId → ValueId
unfolding is_empty
add_assign id src = if is_empty id then src else id ++ separator ∷ src

-- `operator==`
unfoldable pub id_eq : ValueId → ValueId → Bool
id_eq a b = a == b

-- `operator<`
unfoldable pub id_lt : ValueId → ValueId → Bool
id_lt a b = text_lt a b

unfoldable pub parent : ValueId → ValueId
parent name = elim (find_last is_separator name) [
  | none ↦ []
  | some pos ↦ value_id (substr name 0 pos)
]

unfoldable pub leaf : ValueId → ValueId
leaf name = elim (find_last is_separator name) [
  | none ↦ value_id name
  | some pos ↦ value_id (drop (pos + 1) name)
]

size : ValueId → ℕ
size name = length name

is_single_name : ValueId → Bool
is_single_name name = elim (find_last is_separator name) [ none ↦ true | some pos ↦ false ]

-- `ValueIdIterator`
pub record ValueIdIterator : Type 0 where
  pub current : ValueId
  pub name : Text
  pub pos : ℕ

-- `ValueIdIterator()`, whose position is `npos`.
abbrev new_iterator : ValueIdIterator
new_iterator = record { current = []; name = []; pos = 2 ^ 64 - 1 }

-- `first`, on a new iterator.
unfoldable pub first : Text → ValueIdIterator
unfolding size
first [] = new_iterator
first name =
    let current : ValueId = elim (find_first is_separator name) [
      | none ↦ value_id name
      | some pos ↦ value_id (substr name 0 pos)
    ] in
    record { current = current; name = name; pos = size current + 1 }

-- `next`
unfoldable pub next : ValueIdIterator → ValueIdIterator
unfolding size
next it =
    if ltb (length it.name) it.pos
    then record it { current = []; pos = length it.name + 2 }
    else (let rest = drop it.pos it.name in
        let current : ValueId = elim (find_first is_separator rest) [
          | none ↦ value_id rest
          | some n ↦ value_id (take n rest)
        ] in
        record it { current = current; pos = it.pos + (size current + 1) })

-- `operator+`
advance : ValueIdIterator → ℕ → ValueIdIterator
advance it zero = it
advance it (suc inc) = advance (next it) inc

unfoldable pub begin : ValueId → ValueIdIterator
begin id = first id

unfoldable pub end : ValueId → ValueIdIterator
end id = record { current = []; name = id; pos = length id + 2 }

-- `operator==` of iterators
unfoldable pub iterator_eq : ValueIdIterator → ValueIdIterator → Bool
iterator_eq a b = (a.name == b.name) && eqb a.pos b.pos
