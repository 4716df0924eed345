-- ===== src/HashBucket.antt =====
-- company_ref_variant_valuestore_hash_bucket.{h,cpp}: the buckets of all hashes, with counters.
pub mod Digit
pub mod Written
pub mod Removal
pub mod Holders
pub mod Reuse
use refer.Base.{
  ℕ, ◌+◌, ◌-◌, ◌%◌, ◌^◌, max, Bool, true, false, not, Option, none, some, List, [], ◌∷◌, eqb,
  if◌then◌else◌,
}
use refer.Base.Table.{Table, find, put, erase, is_some}
use refer.Base.{nat_eq}
use refer.Word.{popcount}
use refer.HashToken.{
  HashToken, invalid_hash_id, invalid_bucket, invalid_token, is_valid, add_to_bucket,
  remove_from_bucket,
}

-- The counters are `size_t`, 64 bits wide. `words` is `hashBucket_`.
pub record HashBucket : Type 0 where
  pub size : ℕ
  pub collisions : ℕ
  pub buckets : ℕ
  pub errors : ℕ
  pub words : Table ℕ ℕ

abbrev pub empty : HashBucket
empty = record { size = 0; collisions = 0; buckets = 0; errors = 0; words = [] }

-- `reset`
pub reset : HashBucket → HashBucket
reset b = record b { size = 0; collisions = 0; buckets = 0; errors = 0; words = [] }

-- What `createToken` does with the word of a hash that it has.
unfoldable pub collide : HashBucket → ℕ → ℕ → Option (HashToken × HashBucket)
collide b hash_id word = elim (add_to_bucket word) [
  | none ↦ none
  | some (word', bucket) ↦
      let stored = put hash_id word' b.words in
      some (
        if eqb bucket invalid_bucket
        then (invalid_token, record b { errors = (b.errors + 1) % 2 ^ 64; words = stored })
        else (
          record { bucket = bucket; id = hash_id },
          record b {
            collisions = (b.collisions + 1) % 2 ^ 64;
            buckets = max b.buckets (popcount 32 word');
            size = (b.size + 1) % 2 ^ 64;
            words = stored;
          },
        ))
]

-- `createToken(HashIdType const&)`; `none` is the undefined shift of `addToBucket`.
unfoldable pub create_token : HashBucket → ℕ → Option (HashToken × HashBucket)
unfolding collide
create_token b hash_id =
    if eqb hash_id invalid_hash_id then some (invalid_token, b) else elim (find hash_id b.words) [
      | none ↦ some (
        record { bucket = 0; id = hash_id },
        record b { words = put hash_id 0 b.words; size = (b.size + 1) % 2 ^ 64 },
      )
      | some word ↦ collide b hash_id word
    ]

-- `createToken(std::string const&)`, over the hash function `hf_`.
create_token_of {ℓ} : {S : Type ℓ} → (S → ℕ) → HashBucket → S → Option (HashToken × HashBucket)
create_token_of hf b arg =
    let id = hf arg in
    if eqb id invalid_hash_id
    then some (invalid_token, record b { errors = (b.errors + 1) % 2 ^ 64 })
    else create_token b id

-- `removeToken`
pub remove_token : HashBucket → HashToken → HashBucket
remove_token b token = if not (is_valid token) then b else elim (find token.id b.words) [
  | none ↦ b
  | some word ↦
      let word' = remove_from_bucket word token.bucket in
      record b {
        size = (b.size + (2 ^ 64 - 1)) % 2 ^ 64;
        words = if eqb word' 0 then erase token.id b.words else put token.id word' b.words;
      }
]

-- `hasBucket`
unfoldable pub has_bucket : HashBucket → ℕ → Bool
has_bucket b id = is_some (find id b.words)

-- `getBucket`
get_bucket : HashBucket → ℕ → ℕ
get_bucket b id = elim (find id b.words) [ none ↦ invalid_bucket | some word ↦ word ]
