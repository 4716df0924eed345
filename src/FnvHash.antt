-- ===== src/FnvHash.antt =====
-- company_ref_variant_valuestore_hash_methods.cpp: the FNV-1a hashes of a text.
pub mod Tail
use Prim.Native.Nat.{bit_and, bit_xor}
use refer.Base.{
  ℕ, ◌+◌, ◌-◌, ◌*◌, ◌/◌, ◌%◌, ◌^◌, Bool, true, false, List, [], ◌∷◌, ltb, if◌then◌else◌,
}

-- A `char` as the unsigned word that `^=` meets: a negative char of a platform where `char` is
-- signed is extended by ones to the word's `m` values.
pub widen : Bool → ℕ → ℕ → ℕ
widen true m c = if ltb c 128 then c else m - 256 + c
widen false m c = c

-- `fnv1a_hash` on words of `m` values.
pub fnv1a_hash : Bool → ℕ → List ℕ → ℕ → ℕ → ℕ
fnv1a_hash signed m [] prime result = result
fnv1a_hash signed m (c ∷ text) prime result =
    fnv1a_hash signed m text prime (bit_xor result (widen signed m c) * prime % m)

pub as32 : Bool → List ℕ → ℕ
as32 signed text = fnv1a_hash signed (2 ^ 32) text 16777619 2166136261

pub as64 : Bool → List ℕ → ℕ
as64 signed text = fnv1a_hash signed (2 ^ 64) text 1099511628211 14695981039346656037

-- `Fold32to16`; the result is a `uint16_t`.
fold32_to16 : ℕ → ℕ
fold32_to16 arg = bit_xor (arg / 2 ^ 16) (bit_and arg 0xffff) % 2 ^ 16

as16 : Bool → List ℕ → ℕ
as16 signed text = fold32_to16 (as32 signed text)
