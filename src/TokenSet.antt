-- ===== src/TokenSet.antt =====
-- company_ref_variant_valuestore_hashtoken_set.{h,cpp}: a set of valid hash tokens.
pub mod Member
use refer.Base.{
  ℕ, ◌+◌, Bool, true, false, not, Option, none, some, List, [], ◌∷◌, if◌then◌else◌, nat_eq, length,
}
use refer.Base.Table.{Table, find, put, erase, is_some}
use refer.HashToken.{HashToken, is_valid}

-- `HashIdSet` is a table of units, by bucket.
abbrev pub TokenSet : Type 0
TokenSet = Table ℕ (Table ℕ (Unit {0}))

abbrev pub ids_of : Option (Table ℕ (Unit {0})) → Table ℕ (Unit {0})
ids_of none = []
ids_of (some ids) = ids

pub has : TokenSet → HashToken → Bool
has m t = elim (find t.bucket m) [ none ↦ false | some ids ↦ is_some (find t.id ids) ]

-- `insert`: an invalid token is refused; `emplace` keeps an element that is there.
pub insert : TokenSet → HashToken → Bool × TokenSet
insert m t =
    let ids = ids_of (find t.bucket m) in
    if not (is_valid t)
    then (false, m)
    else (if is_some (find t.id ids)
        then (false, put t.bucket ids m)
        else (true, put t.bucket (put t.id tt ids) m))

pub remove : TokenSet → HashToken → TokenSet
remove m t = elim (find t.bucket m) [
  | none ↦ m
  | some ids ↦ elim (erase t.id ids) [
    | [] ↦ erase t.bucket m
    | x ∷ rest ↦ put t.bucket (x ∷ rest) m
  ]
]

size : TokenSet → ℕ
size [] = 0
size ((bucket, ids) ∷ m) = length ids + size m

empty : TokenSet → Bool
empty [] = true
empty (x ∷ m) = false
