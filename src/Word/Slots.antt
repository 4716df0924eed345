-- ===== src/Word/Slots.antt =====
-- The counting builtins: the lowest free digit is what the two searches of `addToBucket` find.
use native.Mathlib.Nat.{pow-suc, one-le-pow}
use refer.Base.{
  ℕ, zero, suc, ◌+◌, ◌-◌, ◌/◌, ◌%◌, ◌^◌, ◌≤◌, ◌<◌, ◌≡◌, refl, ap, arith, eqb, Bool-cases, inl, inr,
}
use refer.Word.{bit, bit_length, popcount, ctz, first_free}

popcount-zero : (w : ℕ) → popcount w 0 ≡ 0
unfolding popcount
popcount-zero zero = refl
popcount-zero (suc w) = omega (arith, popcount-zero w)

popcount-le-bit_length : (w x : ℕ) → popcount w x ≤ bit_length w x
unfolding popcount bit_length
popcount-le-bit_length zero x = omega arith
popcount-le-bit_length (suc w) x =
    let ih = popcount-le-bit_length w (x / 2) in
    elim (Bool-cases (eqb x 0)) [
      | inl z ↦ let e : x ≡ 0 = ground arith in rw (z, e) (omega (arith, popcount-zero w))
      | inr p ↦ rw p (omega arith)
    ]

-- Every digit up to the highest 1 is set exactly when the word is a mask; then the lowest free
-- digit is the one above.
pub mask_of_full :
    (w x : ℕ)
    → x < 2 ^ w
    → bit_length w x ≡ popcount w x
    → (x + 1 ≡ 2 ^ bit_length w x) × (first_free w x ≡ bit_length w x)
unfolding popcount bit_length first_free
mask_of_full zero x h e = (omega arith, refl)
mask_of_full (suc w) x h e = elim (Bool-cases (eqb x 0)) [
  | inl z ↦ let x0 : x ≡ 0 = ground arith in rw (z, x0) (omega arith, refl)
  | inr p ↦
      let q : suc (bit_length w (x / 2)) ≡ x % 2 + popcount w (x / 2) = rw p at e in
      let low = popcount-le-bit_length w (x / 2) in
      let ih = mask_of_full w (x / 2) (omega (arith, pow-suc 2 w)) (omega arith) in
      let odd : x % 2 ≡ 1 = omega arith in
      rw (p, odd) (omega (arith, ih.0, pow-suc 2 (bit_length w (x / 2))), ap suc ih.1)
]

pub first_free-lt : (w x : ℕ) → x < 2 ^ w - 1 → first_free w x < w
unfolding first_free
first_free-lt zero x h = omega arith
first_free-lt (suc w) x h = ground (arith, pow-suc 2 w, first_free-lt w (x / 2))

pub bit-first_free : (w x : ℕ) → x < 2 ^ w → bit (first_free w x) x ≡ 0
unfolding first_free bit
bit-first_free zero x h = omega arith
bit-first_free (suc w) x h = elim (Bool-cases (eqb (x % 2) 0)) [
  | inl z ↦ rw z (ground arith)
  | inr p ↦ rw p (bit-first_free w (x / 2) (omega (arith, pow-suc 2 w)))
]

-- `__builtin_ctz(~ x)`
pub ctz-complement : (w x : ℕ) → x < 2 ^ w → ctz w (2 ^ w - 1 - x) ≡ first_free w x
unfolding first_free ctz
ctz-complement zero x h = refl
ctz-complement (suc w) x h =
    let e : (2 ^ suc w - 1 - x) / 2 ≡ 2 ^ w - 1 - x / 2 = omega (arith, pow-suc 2 w) in
    let d : (2 ^ suc w - 1 - x) % 2 ≡ 1 - x % 2 = omega (arith, pow-suc 2 w) in
    rw (e, d) (ground (arith, ctz-complement w (x / 2) (omega (arith, pow-suc 2 w))))

-- The highest digit of the mask of `k` digits.
pub bit_length-mask : (w k : ℕ) → k ≤ w → bit_length w (2 ^ k - 1) ≡ k
unfolding bit_length
bit_length-mask zero k h = omega arith
bit_length-mask (suc w) zero h = refl
bit_length-mask (suc w) (suc k) h =
    let e : (2 ^ suc k - 1) / 2 ≡ 2 ^ k - 1 = omega (arith, pow-suc 2 k) in
    rw e (ground (arith, pow-suc 2 k, one-le-pow k 2, bit_length-mask w k))

pub bit_length-le : (w x : ℕ) → bit_length w x ≤ w
unfolding bit_length
bit_length-le zero x = omega arith
bit_length-le (suc w) x = ground (arith, bit_length-le w (x / 2))

-- Below the lowest free digit every digit is 1.
pub bit_below-first_free : (w x i : ℕ) → i < first_free w x → bit i x ≡ 1
unfolding first_free bit
bit_below-first_free zero x i h = absurd (omega arith)
bit_below-first_free (suc w) x zero h = ground arith
bit_below-first_free (suc w) x (suc i) h = elim (Bool-cases (eqb (x % 2) 0)) [
  | inl z ↦ absurd (omega (arith, rw z at h))
  | inr p ↦
      let q : suc i < suc (first_free w (x / 2)) = rw p at h in
      bit_below-first_free w (x / 2) i (omega arith)
]
