-- ===== src/HashToken/Slot.antt =====
-- `addToBucket` and `removeFromBucket` as a set of slots: slot `k` is digit `k` of the word, and
-- its identifier is the mask of the digits up to `k`.
use Prim.Native.Nat.{bit_or, bit_xor}
use native.Mathlib.Nat.{pow-suc, pow-le-pow_right, one-le-pow}
use refer.Base.{
  ℕ, zero, suc, ◌+◌, ◌-◌, ◌/◌, ◌^◌, ◌<◌, ◌≡◌, refl, ap, arith, Bool, true, false, ◌&&◌, none, some,
  eqb, eqb_iff, if◌then◌else◌, Bool-cases, inl, inr,
}
use refer.Word.{bit, bit_length, popcount, ctz, first_free, max_word}
use refer.Word.Digits.{
  bit-bit_and, bit-bit_or, bit-pow, bit-complement, bit_or-pow, bit_xor-ones, bit-le-one, bit_ext,
  bit_and-lt, add-pow-lt,
}
use refer.Word.Slots.{
  mask_of_full, first_free-lt, bit-first_free, bit_below-first_free, ctz-complement,
  bit_length-mask, bit_length-le,
}
use refer.HashToken.{add_to_bucket, remove_from_bucket}

-- The identifier of slot `k`.
abbrev pub slot_id : ℕ → ℕ
slot_id k = 2 ^ suc k - 1

every_below : (ℕ → Bool) → ℕ → Bool
every_below test zero = true
every_below test (suc bound) = every_below test bound && test bound

every_below_at :
    (test : ℕ → Bool) (bound i : ℕ) → i < bound → every_below test bound ≡ true → test i ≡ true
unfolding every_below
every_below_at test zero i l e = absurd (omega arith)
every_below_at test (suc bound) i l e = ground (arith, every_below_at test bound i)

shift_table : every_below (λ k. eqb (max_word / 2 ^ (31 - k)) (slot_id k)) 32 ≡ true
unfolding every_below
shift_table = refl

-- `0xffffffff >> (31 - k)`
shift_ones : (k : ℕ) → k < 32 → max_word / 2 ^ (31 - k) ≡ slot_id k
shift_ones k h = (eqb_iff _ _).0 (every_below_at _ 32 k h shift_table)

first_free_zero : first_free 32 0 ≡ 0
unfolding first_free
first_free_zero = refl

module _ (arg : ℕ) (h : arg < max_word) where
  width : 32 - (32 - bit_length 32 arg) ≡ bit_length 32 arg
  width = omega (arith, bit_length-le 32 arg)

  free_below : first_free 32 arg < 32
  free_below = first_free-lt 32 arg h

  or_free : bit_or arg (2 ^ first_free 32 arg) ≡ arg + 2 ^ first_free 32 arg
  or_free = bit_or-pow (first_free 32 arg) arg (bit-first_free 32 arg (omega arith))

  searched : ctz 32 (bit_xor arg max_word) ≡ first_free 32 arg
  searched = rw (bit_xor-ones 32 arg (omega arith)) (ctz-complement 32 arg (omega arith))

  -- The word is a mask: the counts agree.
  module _ (full : bit_length 32 arg ≡ popcount 32 arg) where
    counted : first_free 32 arg ≡ bit_length 32 arg
    counted = (mask_of_full 32 arg (omega arith) full).1

    filled : arg + 2 ^ first_free 32 arg ≡ slot_id (first_free 32 arg)
    filled = omega (
      arith,
      (mask_of_full 32 arg (omega arith) full).0,
      ap (λ (n : ℕ). 2 ^ n) counted,
      pow-suc 2 (first_free 32 arg),
    )

-- The three branches agree: the lowest free slot is taken, and its mask is returned.
pub add_to_bucket_lem :
    (arg : ℕ)
    → arg < max_word
    → add_to_bucket arg ≡ some (arg + 2 ^ first_free 32 arg, slot_id (first_free 32 arg))
unfolding add_to_bucket
add_to_bucket_lem arg h = elim (Bool-cases (eqb arg 0)) [
  | inl z ↦ let e : arg ≡ 0 = ground arith in rw (e, first_free_zero)
  | inr p ↦ elim (Bool-cases (eqb (32 - (32 - bit_length 32 arg)) (popcount 32 arg))) [
    | inl full ↦
        let same : bit_length 32 arg ≡ popcount 32 arg = ground (arith, width arg h) in
        let below : bit_length 32 arg < 32 = omega (arith, counted arg h same, free_below arg h) in
        let open_top : eqb (32 - bit_length 32 arg) 0 ≡ false = ground arith in
        rw (p, full, open_top, width arg h, ← counted arg h same, or_free arg h, filled arg h same)
    | inr holes ↦ rw (p, holes, searched arg h, or_free arg h, shift_ones _ (free_below arg h))
  ]
]

-- A word of all ones meets the undefined shift.
pub add_to_bucket_full : add_to_bucket max_word ≡ none
unfolding add_to_bucket bit_length popcount
add_to_bucket_full = refl

pub slot_id-ne-zero : (k : ℕ) → k < 32 → eqb (slot_id k) 0 ≡ false
slot_id-ne-zero k h = ground (arith, pow-suc 2 k, one-le-pow k 2)

pow-lt : (k : ℕ) → k < 32 → 2 ^ k < 2 ^ 32
pow-lt k h = omega (
  arith,
  pow-suc 2 k,
  one-le-pow k 2 (omega arith),
  pow-le-pow_right {n = 2} (omega arith) {i = suc k} {j = 32} h,
)

-- Removing slot `k` clears digit `k` and keeps the others.
pub bit-remove_from_bucket :
    (arg k i : ℕ)
    → arg < 2 ^ 32
    → k < 32
    → i < 32
    → bit i (remove_from_bucket arg (slot_id k)) ≡ (if eqb i k then 0 else bit i arg)
unfolding remove_from_bucket
bit-remove_from_bucket arg k i ha hk hi =
    let len : 32 - (32 - bit_length 32 (slot_id k)) ≡ suc k =
      omega (arith, bit_length-mask 32 (suc k) (omega arith)) in
    let at : suc k - 1 ≡ k = omega arith in
    rw
      (
        slot_id-ne-zero k hk,
        len,
        at,
        bit-bit_and i arg,
        bit-complement 32 i (2 ^ k) (pow-lt k hk) hi,
        bit-pow i k,
      )
      (ground (arith, bit-le-one i arg))

-- Taking slot `k` sets digit `k` and keeps the others.
bit-add : (x k i : ℕ) → bit k x ≡ 0 → bit i (x + 2 ^ k) ≡ (if eqb i k then 1 else bit i x)
bit-add x k i h =
    rw (← bit_or-pow k x h, bit-bit_or i x, bit-pow i k) (ground (arith, bit-le-one i x))

pub remove_from_bucket-lt : (arg b : ℕ) → arg < 2 ^ 32 → remove_from_bucket arg b < 2 ^ 32
unfolding remove_from_bucket
remove_from_bucket-lt arg b h =
    ground (arith, bit_and-lt 32 arg (max_word - 2 ^ (32 - (32 - bit_length 32 b) - 1)))

-- Giving an identifier back undoes the call that handed it out.
pub remove_from_bucket-add_to_bucket :
    (arg arg' b : ℕ)
    → arg < max_word
    → add_to_bucket arg ≡ some (arg', b)
    → remove_from_bucket arg' b ≡ arg
remove_from_bucket-add_to_bucket arg arg' b h e =
    let k = first_free 32 arg in
    let free = bit-first_free 32 arg (omega arith) in
    let kept = add-pow-lt 32 k arg (free_below arg h) (omega arith) free in
    let p : (arg + 2 ^ k ≡ arg') × (slot_id k ≡ b) = ground (arith, add_to_bucket_lem arg h) in
    rw (← p.0, ← p.1)
      (bit_ext 32 _ arg (remove_from_bucket-lt _ _ kept) (omega arith) (λ i l. ground (
        arith,
        bit-remove_from_bucket (arg + 2 ^ k) k i kept (free_below arg h) l,
        bit-add arg k i free,
      )))

-- A word that is not full gives out its lowest free slot: that digit was 0 and those below are 1,
-- the word gains that digit alone, and the identifier is the mask up to it.
pub add_to_bucket-lowest :
    (arg : ℕ)
    → arg < max_word
    → let k = first_free 32 arg in
      (k < 32)
      × (bit k arg ≡ 0)
      × ((i : ℕ) → i < k → bit i arg ≡ 1)
      × (add_to_bucket arg ≡ some (arg + 2 ^ k, slot_id k))
      × ((i : ℕ) → bit i (arg + 2 ^ k) ≡ (if eqb i k then 1 else bit i arg))
add_to_bucket-lowest arg h =
    let free = bit-first_free 32 arg (omega arith) in
    (
      free_below arg h,
      free,
      λ i l. bit_below-first_free 32 arg i l,
      add_to_bucket_lem arg h,
      λ i. bit-add arg (first_free 32 arg) i free,
    )

-- The identifiers of the slots below 31 are valid.
pub slot_id-valid : (k : ℕ) → k < 31 → eqb (slot_id k) max_word ≡ false
slot_id-valid k l = ground (arith, pow-suc 2 k, pow-lt (suc k))

-- Slots have different identifiers.
pub slot_id-injective : (j k : ℕ) → j < 32 → k < 32 → eqb (slot_id j) (slot_id k) ≡ eqb j k
slot_id-injective j k hj hk = ground (
  arith,
  eqb_iff (slot_id j) (slot_id k),
  bit_length-mask 32 (suc j),
  bit_length-mask 32 (suc k),
  ap slot_id {x = j} {y = k},
  ap (bit_length 32) {x = slot_id j} {y = slot_id k},
)
