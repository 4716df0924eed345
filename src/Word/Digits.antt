-- ===== src/Word/Digits.antt =====
-- The digits of `&`, `|` and `^`, of powers of two and of masks, and words from their digits.
use Prim.Native.Nat.{
  bit_and, bit_or, bit_xor, digits, differ, bit_and-bitwise, bit_or-bitwise, bit_xor-bitwise,
}
use native.Mathlib.Nat.{pow-suc, one-le-pow}
use refer.Base.{
  ℕ, zero, suc, ◌+◌, ◌-◌, ◌*◌, ◌/◌, ◌%◌, ◌^◌, ◌≤◌, ◌<◌, min, max, ◌≡◌, refl, ap, arith, eqb,
  if◌then◌else◌,
}
use refer.Word.{bit}

module _ (z : ℕ → ℕ) (f : ℕ → ℕ → ℕ) where
  -- Any two amounts of fuel that reach the first word read the same digits.
  enough_digits : (x y k l : ℕ) → x ≤ k → x ≤ l → digits z f k x y ≡ digits z f l x y
  enough_digits zero y zero zero hk hl = refl
  enough_digits zero y (suc k) zero hk hl = refl
  enough_digits zero y zero (suc l) hk hl = refl
  enough_digits zero y (suc k) (suc l) hk hl = refl
  enough_digits (suc x) y zero l hk hl = absurd (omega arith)
  enough_digits (suc x) y (suc k) zero hk hl = absurd (omega arith)
  enough_digits (suc x) y (suc k) (suc l) hk hl =
      omega (arith, enough_digits (suc x / 2) (y / 2) k l (omega arith) (omega arith))

pub bit_or_step : (x y : ℕ) → bit_or x y ≡ bit_or (x / 2) (y / 2) * 2 + max (x % 2) (y % 2)
bit_or_step zero y = omega (arith, bit_or-bitwise 0 y, bit_or-bitwise 0 (y / 2))
bit_or_step (suc x) y = omega (
  arith,
  bit_or-bitwise (suc x) y,
  bit_or-bitwise (suc x / 2) (y / 2),
  enough_digits (λ c. c) max (suc x / 2) (y / 2) x (suc x / 2) (omega arith) (omega arith),
)

bit_and_step : (x y : ℕ) → bit_and x y ≡ bit_and (x / 2) (y / 2) * 2 + min (x % 2) (y % 2)
bit_and_step zero y = omega (arith, bit_and-bitwise 0 y, bit_and-bitwise 0 (y / 2))
bit_and_step (suc x) y = omega (
  arith,
  bit_and-bitwise (suc x) y,
  bit_and-bitwise (suc x / 2) (y / 2),
  enough_digits (λ c. 0) min (suc x / 2) (y / 2) x (suc x / 2) (omega arith) (omega arith),
)

pub bit-bit_or : (i a b : ℕ) → bit i (bit_or a b) ≡ max (bit i a) (bit i b)
unfolding bit
bit-bit_or zero a b = omega (arith, bit_or_step a b)
bit-bit_or (suc i) a b =
    let e : bit_or a b / 2 ≡ bit_or (a / 2) (b / 2) = omega (arith, bit_or_step a b) in
    rw e (bit-bit_or i (a / 2) (b / 2))

pub bit-bit_and : (i a b : ℕ) → bit i (bit_and a b) ≡ min (bit i a) (bit i b)
unfolding bit
bit-bit_and zero a b = omega (arith, bit_and_step a b)
bit-bit_and (suc i) a b =
    let e : bit_and a b / 2 ≡ bit_and (a / 2) (b / 2) = omega (arith, bit_and_step a b) in
    rw e (bit-bit_and i (a / 2) (b / 2))

pub bit-le-one : (i x : ℕ) → bit i x ≤ 1
unfolding bit
bit-le-one zero x = omega arith
bit-le-one (suc i) x = bit-le-one i (x / 2)

pub bit-zero : (i : ℕ) → bit i 0 ≡ 0
unfolding bit
bit-zero zero = refl
bit-zero (suc i) = bit-zero i

-- `1 << k`
pub bit-pow : (i k : ℕ) → bit i (2 ^ k) ≡ (if eqb i k then 1 else 0)
unfolding bit
bit-pow zero zero = refl
bit-pow (suc i) zero = ground (arith, bit-zero i)
bit-pow zero (suc k) = ground (arith, pow-suc 2 k)
bit-pow (suc i) (suc k) =
    let e : 2 ^ suc k / 2 ≡ 2 ^ k = omega (arith, pow-suc 2 k) in rw e (ground (arith, bit-pow i k))

-- The bits of `~ x` in a word of `w` digits.
pub bit-complement : (w i x : ℕ) → x < 2 ^ w → i < w → bit i (2 ^ w - 1 - x) ≡ 1 - bit i x
unfolding bit
bit-complement zero i x h l = absurd (omega arith)
bit-complement (suc w) zero x h l = omega (arith, pow-suc 2 w)
bit-complement (suc w) (suc i) x h l =
    let e : (2 ^ suc w - 1 - x) / 2 ≡ 2 ^ w - 1 - x / 2 = omega (arith, pow-suc 2 w) in
    rw e (bit-complement w i (x / 2) (omega (arith, pow-suc 2 w)) (omega arith))

-- A word has no digit at or above its width.
bit_above : (w i x : ℕ) → x < 2 ^ w → w ≤ i → bit i x ≡ 0
unfolding bit
bit_above zero i x h l = let e : x ≡ 0 = omega arith in rw e (bit-zero i)
bit_above (suc w) zero x h l = absurd (omega arith)
bit_above (suc w) (suc i) x h l = bit_above w i (x / 2) (omega (arith, pow-suc 2 w)) (omega arith)

bit_or-zero : (a : ℕ) (n : ℕ) → a ≤ n → bit_or a 0 ≡ a
bit_or-zero zero n h = bit_or-bitwise 0 0
bit_or-zero (suc a) zero h = absurd (omega arith)
bit_or-zero (suc a) (suc n) h =
    omega (arith, bit_or_step (suc a) 0, bit_or-zero (suc a / 2) n (omega arith))

-- `x |= 1 << k` where digit `k` is 0.
pub bit_or-pow : (k x : ℕ) → bit k x ≡ 0 → bit_or x (2 ^ k) ≡ x + 2 ^ k
unfolding bit
bit_or-pow zero x h = omega (arith, bit_or_step x 1, bit_or-zero (x / 2) (x / 2) (omega arith))
bit_or-pow (suc k) x h =
    let e : 2 ^ suc k / 2 ≡ 2 ^ k = omega (arith, pow-suc 2 k) in
    omega (
      arith,
      pow-suc 2 k,
      bit_or_step x (2 ^ suc k),
      ap (λ (t : ℕ). bit_or (x / 2) t) e,
      bit_or-pow k (x / 2) h,
    )

-- `hi << k | lo` where `lo` has `k` digits.
pub bit_or-shift : (k hi lo : ℕ) → lo < 2 ^ k → bit_or (hi * 2 ^ k) lo ≡ hi * 2 ^ k + lo
bit_or-shift zero hi lo h = ground (arith, bit_or-zero hi hi)
bit_or-shift (suc k) hi lo h =
    let d : hi * 2 ^ suc k ≡ 2 * (hi * 2 ^ k) =
      omega (arith, ap (λ (t : ℕ). hi * t) (pow-suc 2 k)) in
    let e : hi * 2 ^ suc k / 2 ≡ hi * 2 ^ k = omega arith in
    omega (
      arith,
      bit_or_step (hi * 2 ^ suc k) lo,
      ap (λ (t : ℕ). bit_or t (lo / 2)) e,
      bit_or-shift k hi (lo / 2) (omega (arith, pow-suc 2 k)),
    )

-- Words with the same digits are equal.
pub bit_ext : (w x y : ℕ) → x < 2 ^ w → y < 2 ^ w → ((i : ℕ) → i < w → bit i x ≡ bit i y) → x ≡ y
unfolding bit
bit_ext zero x y h k e = omega arith
bit_ext (suc w) x y h k e = omega (
  arith,
  e 0 (omega arith),
  bit_ext w (x / 2) (y / 2) (omega (arith, pow-suc 2 w)) (omega (arith, pow-suc 2 w))
      (λ i l. e (suc i) (omega arith)),
)

pub bit_and-lt : (w a b : ℕ) → a < 2 ^ w → bit_and a b < 2 ^ w
bit_and-lt zero a b h = let e : a ≡ 0 = omega arith in rw e (omega (arith, bit_and-bitwise 0 b))
bit_and-lt (suc w) a b h = omega (
  arith,
  pow-suc 2 w,
  bit_and_step a b,
  bit_and-lt w (a / 2) (b / 2) (omega (arith, pow-suc 2 w)),
)

differ-zero : (d : ℕ) → differ 0 d ≡ d
differ-zero d = refl

differ-one : (d : ℕ) → d ≤ 1 → differ d 1 ≡ 1 - d
differ-one zero h = refl
differ-one (suc zero) h = refl
differ-one (suc (suc d)) h = absurd (omega arith)

pub bit_xor_step : (a b : ℕ) → bit_xor a b ≡ bit_xor (a / 2) (b / 2) * 2 + differ (a % 2) (b % 2)
bit_xor_step zero b =
    omega (arith, bit_xor-bitwise 0 b, bit_xor-bitwise 0 (b / 2), differ-zero (b % 2))
bit_xor_step (suc a) b = omega (
  arith,
  bit_xor-bitwise (suc a) b,
  bit_xor-bitwise (suc a / 2) (b / 2),
  enough_digits (λ c. c) differ (suc a / 2) (b / 2) a (suc a / 2) (omega arith) (omega arith),
)

-- `x ^ 0xffffffff` is `~ x`, at every width.
pub bit_xor-ones : (w x : ℕ) → x < 2 ^ w → bit_xor x (2 ^ w - 1) ≡ 2 ^ w - 1 - x
bit_xor-ones zero x h = let e : x ≡ 0 = omega arith in rw e (bit_xor-bitwise 0 0)
bit_xor-ones (suc w) x h =
    let e : (2 ^ suc w - 1) / 2 ≡ 2 ^ w - 1 = omega (arith, pow-suc 2 w) in
    let o : (2 ^ suc w - 1) % 2 ≡ 1 = omega (arith, pow-suc 2 w, one-le-pow w 2 (omega arith)) in
    omega (
      arith,
      pow-suc 2 w,
      bit_xor_step x (2 ^ suc w - 1),
      ap (λ (t : ℕ). bit_xor (x / 2) t) e,
      ap (λ (t : ℕ). differ (x % 2) t) o,
      differ-one (x % 2) (omega arith),
      one-le-pow w 2 (omega arith),
      bit_xor-ones w (x / 2) (omega (arith, pow-suc 2 w)),
    )

-- Setting a free digit keeps a word within its width.
pub add-pow-lt : (w k x : ℕ) → k < w → x < 2 ^ w → bit k x ≡ 0 → x + 2 ^ k < 2 ^ w
unfolding bit
add-pow-lt zero k x l h z = absurd (omega arith)
add-pow-lt (suc w) zero x l h z = omega (arith, pow-suc 2 w)
add-pow-lt (suc w) (suc k) x l h z = omega (
  arith,
  pow-suc 2 w,
  pow-suc 2 k,
  add-pow-lt w k (x / 2) (omega arith) (omega (arith, pow-suc 2 w)) z,
)
