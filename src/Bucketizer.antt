-- ===== src/Bucketizer.antt =====
-- company_ref_variant_valuestore_value_id_bucketizer.{h,cpp}: a token for each value id, and back.
pub mod Search
pub mod Made
pub mod Tokens
pub mod Make
pub mod Refused
use refer.Base.{
  ℕ, zero, suc, Bool, true, false, not, ◌&&◌, Option, none, some, List, [], ◌∷◌, ◌==◌, Eq, eqb,
  if◌then◌else◌, nat_eq,
}
use refer.Base.Table.{Table, find, put}
use refer.HashToken.{HashToken, invalid_bucket, invalid_token}
use refer.HashBucket
use refer.HashBucket.{HashBucket, create_token, remove_token, has_bucket, reset}
use refer.TokenMap
use refer.TokenMap.{TokenMap}

-- `ValueId::Ptr` is the id itself; `V` are the ids, `hf` is the hash function of the bucket.
pub record Bucketizer {ℓ} (V : Type ℓ) : Type ℓ where
  pub hash_bucket : HashBucket
  pub bucket_store : TokenMap V

abbrev pub new {ℓ} : {V : Type ℓ} → Bucketizer V
new = record { hash_bucket = HashBucket.empty; bucket_store = [] }

module _ {ℓ} {V : Type ℓ} ⦃e : Eq V⦄ where
  -- The inner loop of `findById`: is the id under this hash in the bucket?
  unfoldable pub has_id : Table ℕ V → ℕ → V → Bool
  has_id [] id value = false
  has_id ((hash_id, v) ∷ ids) id value = elim (eqb hash_id id && v == value) [
    | true ↦ true
    | false ↦ has_id ids id value
  ]

  -- `findById`, bucket by bucket in the order of the map.
  unfoldable pub find_by_id : TokenMap V → ℕ → V → ℕ
  unfolding has_id
  find_by_id [] id value = invalid_bucket
  find_by_id ((bucket, ids) ∷ m) id value = elim (has_id ids id value) [
    | true ↦ bucket
    | false ↦ find_by_id m id value
  ]

  -- The part of `make` behind the search.
  unfoldable pub make_new : Bucketizer V → ℕ → V → Option (HashToken × Bucketizer V)
  make_new b hash_id value = elim (create_token b.hash_bucket hash_id) [
    | none ↦ none
    | some (token, hash_bucket) ↦
        let (inserted, store) = TokenMap.insert b.bucket_store token value in
        some (
          if inserted then token else invalid_token,
          record { hash_bucket = hash_bucket; bucket_store = store },
        )
  ]

  -- `make`; `none` is the undefined shift of `addToBucket`.
  unfoldable pub make : (V → ℕ) → Bucketizer V → V → Option (HashToken × Bucketizer V)
  unfolding make_new
  make hf b value =
      let hash_id = hf value in
      let bucket = find_by_id b.bucket_store hash_id value in
      if has_bucket b.hash_bucket hash_id && not (eqb bucket invalid_bucket)
      then some (record { bucket = bucket; id = hash_id }, b)
      else make_new b hash_id value

module _ {ℓ} {V : Type ℓ} where
  unfoldable pub get : Bucketizer V → HashToken → Option V
  get b t = TokenMap.get b.bucket_store t

  pub remove : Bucketizer V → HashToken → Bucketizer V
  remove b t = record {
    hash_bucket = remove_token b.hash_bucket t;
    bucket_store = TokenMap.remove b.bucket_store t;
  }

  pub clear : Bucketizer V → Bucketizer V
  clear b = record {
    hash_bucket = reset b.hash_bucket;
    bucket_store = TokenMap.clear b.bucket_store;
  }

  size : Bucketizer V → ℕ
  size b = TokenMap.size b.bucket_store
