-- ===== src/Word.antt =====
-- 32-bit words as native numbers: the binary digits of a word, and GCC's bit-counting builtins
-- (`__builtin_clz`, `__builtin_ctz`, `__builtin_popcount`) that the hash token code calls.
pub mod Digits
pub mod Slots
pub mod Shift
use refer.Base.{ℕ, zero, suc, ◌+◌, ◌-◌, ◌*◌, ◌/◌, ◌%◌, ◌^◌, eqb, if◌then◌else◌}

abbrev pub word_mod : ℕ
word_mod = 2 ^ 32

abbrev pub max_word : ℕ
max_word = 2 ^ 32 - 1

-- Digit `i` of `x`.
pub bit : ℕ → ℕ → ℕ
bit zero x = x % 2
bit (suc i) x = bit i (x / 2)

-- The digits up to the highest 1, of a word of `w` digits: `w - clz`.
unfoldable pub bit_length : ℕ → ℕ → ℕ
bit_length zero x = 0
bit_length (suc w) x = if eqb x 0 then 0 else suc (bit_length w (x / 2))

-- `__builtin_popcount`.
unfoldable pub popcount : ℕ → ℕ → ℕ
popcount zero x = 0
popcount (suc w) x = x % 2 + popcount w (x / 2)

-- `__builtin_clz` of a word that is not 0.
unfoldable pub clz : ℕ → ℕ
clz x = 32 - bit_length 32 x

-- `__builtin_ctz` of a word that is not 0.
pub ctz : ℕ → ℕ → ℕ
ctz zero x = 0
ctz (suc w) x = if eqb (x % 2) 1 then 0 else suc (ctz w (x / 2))

-- The lowest digit that is 0.
unfoldable pub first_free : ℕ → ℕ → ℕ
first_free zero x = 0
first_free (suc w) x = if eqb (x % 2) 0 then 0 else suc (first_free w (x / 2))
