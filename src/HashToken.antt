-- ===== src/HashToken.antt =====
-- company_ref_variant_valuestore_hash_token.{h,cpp}: a hash token is a bucket identifier and a
-- 32-bit hash, and the bucket of a hash is a word whose digits are the identifiers in use.
pub mod Slot
pub mod Transport
use Prim.Native.Nat.{bit_and, bit_or, bit_xor}
use refer.Base.{
  ℕ, ◌-◌, ◌*◌, ◌/◌, ◌%◌, ◌^◌, Bool, not, ◌&&◌, ◌||◌, Option, none, some, eqb, ltb, if◌then◌else◌,
}
use refer.Word.{max_word, word_mod, clz, ctz, popcount}

-- `HashIdType` and `BucketType` are words below 2 ^ 32, `TransportType` is below 2 ^ 64.
pub record HashToken : Type 0 where
  pub bucket : ℕ
  pub id : ℕ

abbrev pub invalid_hash_id : ℕ
invalid_hash_id = max_word

abbrev pub invalid_bucket : ℕ
invalid_bucket = max_word

abbrev invalid_token_type : ℕ
invalid_token_type = 2 ^ 64 - 1

-- `HashToken()`
abbrev pub invalid_token : HashToken
invalid_token = record { bucket = invalid_bucket; id = invalid_hash_id }

-- `HashToken(TransportType const)`: the casts keep the low 32 bits.
unfoldable pub from_transport : ℕ → HashToken
from_transport arg = record { bucket = arg / 2 ^ 32 % word_mod; id = arg % word_mod }

-- `static_cast<TransportType>(bucket_) << 32 | id_`, where the shift keeps 64 bits.
unfoldable pub transport_token : HashToken → ℕ
transport_token t = bit_or (t.bucket * 2 ^ 32 % 2 ^ 64) t.id

-- `operator<`
pub token_lt : HashToken → HashToken → Bool
token_lt s t =
    if not (eqb s.bucket 0) || not (eqb t.bucket 0)
    then ltb s.id t.id || ltb s.bucket t.bucket
    else ltb s.id t.id

-- `operator==`
unfoldable pub token_eq : HashToken → HashToken → Bool
token_eq s t = eqb s.bucket t.bucket && eqb s.id t.id

is_any_bucket : HashToken → Bool
is_any_bucket t = eqb t.bucket 0

unfoldable pub is_valid : HashToken → Bool
is_valid t = not (eqb t.bucket invalid_bucket) && not (eqb t.id invalid_hash_id)

-- `addToBucket`: the new word behind the reference, and the returned identifier. `none` is the
-- undefined shift `1 << 32` of the last line, which a word of all ones meets.
unfoldable pub add_to_bucket : ℕ → Option (ℕ × ℕ)
unfolding clz
add_to_bucket arg =
    if eqb arg 0
    then some (1, 1)
    else (if not (eqb (32 - clz arg) (popcount 32 arg))
        then (let n = ctz 32 (bit_xor arg max_word) in
            let shift = 31 - n in some (bit_or arg (2 ^ n), max_word / 2 ^ shift))
        else (if eqb (clz arg) 0
            then none
            else (let added = bit_or arg (2 ^ (32 - clz arg)) in some (added, added))))

-- `removeFromBucket`: the new word behind the reference; `~ m` is `0xffffffff - m`.
unfoldable pub remove_from_bucket : ℕ → ℕ → ℕ
unfolding clz
remove_from_bucket arg bucket =
    if eqb bucket 0
    then arg
    else (let bit = 32 - clz bucket in bit_and arg (max_word - 2 ^ (bit - 1)))
