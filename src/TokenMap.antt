-- ===== src/TokenMap.antt =====
-- company_ref_variant_valuestore_hashtoken_map.h: a map from hash tokens, as a map of maps.
pub mod Lookup
pub mod Size
use refer.Base.{
  ℕ, ◌+◌, Bool, true, false, not, Option, none, some, List, [], ◌∷◌, if◌then◌else◌, nat_eq, length,
}
use refer.Base.Table.{Table, find, put, erase, is_some}
use refer.HashToken.{HashToken}

-- `BucketMap`: bucket, then hash id. The locks of the class make each call atomic.
abbrev pub TokenMap {ℓ} : Type ℓ → Type ℓ
TokenMap T = Table ℕ (Table ℕ T)

-- `bucketMap_[bucket]` as a value; the element that it adds is written by the callers.
abbrev pub inner {ℓ} : {T : Type ℓ} → Option (Table ℕ T) → Table ℕ T
inner none = []
inner (some ids) = ids

unfoldable pub is_empty {ℓ} : {A : Type ℓ} → List A → Bool
is_empty [] = true
is_empty (x ∷ xs) = false

module _ {ℓ} {T : Type ℓ} where
  unfoldable pub has : TokenMap T → HashToken → Bool
  has [] t = false
  has m t = elim (find t.bucket m) [
    | none ↦ false
    | some [] ↦ false
    | some ids ↦ is_some (find t.id ids)
  ]

  -- `insert`: both overloads; true if the element went in.
  unfoldable pub insert : TokenMap T → HashToken → T → Bool × TokenMap T
  insert m t element =
      let ids = inner (find t.bucket m) in
      if is_some (find t.id ids)
      then (false, put t.bucket ids m)
      else (true, put t.bucket (put t.id element ids) m)

  unfoldable pub remove : TokenMap T → HashToken → TokenMap T
  unfolding is_empty
  remove m t = elim (find t.bucket m) [
    | none ↦ m
    | some ids ↦
        let ids' = erase t.id ids in if is_empty ids' then erase t.bucket m else put t.bucket ids' m
  ]

  -- `operator[]` for reading: a missing element is added with the default of its type.
  index : T → TokenMap T → HashToken → T × TokenMap T
  index default m t =
      let ids = inner (find t.bucket m) in
      elim (find t.id ids) [
        | none ↦ (default, put t.bucket (put t.id default ids) m)
        | some element ↦ (element, put t.bucket ids m)
      ]

  -- `get`, where `T()` of a shared pointer is `none`.
  unfoldable pub get : TokenMap T → HashToken → Option T
  get m t = elim (find t.bucket m) [ none ↦ none | some ids ↦ find t.id ids ]

  -- `getHashIdMap(BucketType)`
  hash_id_map : TokenMap T → ℕ → Table ℕ T × TokenMap T
  hash_id_map m bucket = let ids = inner (find bucket m) in (ids, put bucket ids m)

  -- The range from `hashIdBegin` to `hashIdEnd`.
  hash_ids : TokenMap T → ℕ → Table ℕ T
  hash_ids m bucket = inner (find bucket m)

  pub size : TokenMap T → ℕ
  size [] = 0
  size ((bucket, ids) ∷ m) = length ids + size m

  empty : TokenMap T → Bool
  unfolding is_empty
  empty m = is_empty m

  pub clear : TokenMap T → TokenMap T
  clear m = []
