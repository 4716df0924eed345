-- ===== src/Word/Shift.antt =====
-- `|` of a shifted number and a number below the shift.
use Prim.Native.Nat.{bit_or, bit_or-bitwise}
use native.Mathlib.Nat.{pow-suc}
use refer.Base.{ℕ, zero, suc, ◌+◌, ◌*◌, ◌/◌, ◌%◌, ◌^◌, ◌≤◌, ◌<◌, max, ◌≡◌, arith}
use refer.Word.Digits.{bit_or_step}

bit_or-zero : (n x : ℕ) → x ≤ n → bit_or x 0 ≡ x
bit_or-zero zero x h = let e : x ≡ 0 = omega arith in rw e (omega (arith, bit_or-bitwise 0 0))
bit_or-zero (suc n) zero h = omega (arith, bit_or-bitwise 0 0)
bit_or-zero (suc n) (suc x) h =
    omega (arith, bit_or_step (suc x) 0, bit_or-zero n (suc x / 2) (omega arith))

shift_step : (y b : ℕ) → bit_or y (b / 2) ≡ y + b / 2 → bit_or (y * 2) b ≡ y * 2 + b
shift_step y b h =
    let e : y * 2 / 2 ≡ y = omega arith in
    let s : bit_or (y * 2) b ≡ bit_or y (b / 2) * 2 + max (y * 2 % 2) (b % 2) =
      rw e at (bit_or_step (y * 2) b) in
    omega (arith, s, h)

pub bit_or-shift : (k x b : ℕ) → b < 2 ^ k → bit_or (x * 2 ^ k) b ≡ x * 2 ^ k + b
bit_or-shift zero x b l =
    let e : b ≡ 0 = omega arith in
    let one : x * 2 ^ 0 ≡ x = omega arith in
    rw (e, one) (omega (arith, bit_or-zero x x (omega arith)))
bit_or-shift (suc k) x b l =
    let p : x * 2 ^ suc k ≡ x * 2 ^ k * 2 = rw (pow-suc 2 k) (omega arith) in
    let l' : b < 2 ^ k * 2 = rw (pow-suc 2 k) at l in
    let half : b / 2 < 2 ^ k = omega arith in
    rw p (shift_step (x * 2 ^ k) b (bit_or-shift k x (b / 2) half))
