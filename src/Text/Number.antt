-- ===== src/Text/Number.antt =====
-- The numbers that the source reads from a text with the standard library: `std::stoll`, `std::stoull`,
-- and the extractions `>>` of `std::istringstream`.
use refer.Base.{
  ℕ, ◌+◌, ◌-◌, ◌*◌, ◌%◌, ◌^◌, Bool, true, false, ◌&&◌, ◌||◌, Option, none, some, [], ◌∷◌, eqb, ltb,
  leb, if◌then◌else◌,
}
use refer.Text.{Text}

abbrev pub is_digit : ℕ → Bool
is_digit c = leb b'0' c && leb c b'9'

-- `isspace`
abbrev pub is_space : ℕ → Bool
is_space c = eqb c b' ' || (leb 9 c && leb c 13)

-- The value of a hexadecimal digit.
abbrev pub hex_digit : ℕ → Option ℕ
hex_digit c =
    if is_digit c
    then some (c - b'0')
    else (if leb b'a' c && leb c b'f'
        then some (c - b'a' + 10)
        else (if leb b'A' c && leb c b'F' then some (c - b'A' + 10) else none))

-- The number with one more digit in this base.
abbrev with_digit : ℕ → Option ℕ → ℕ → ℕ
with_digit base none d = d
with_digit base (some k) d = base * k + d

-- The number of the leading digits, from the digits before; `none` without any digit.
unfoldable pub digits_from : Option ℕ → Text → Option ℕ
digits_from n [] = n
digits_from n (c ∷ s) =
    let rest = digits_from (some (with_digit 10 n (c - b'0'))) s in if is_digit c then rest else n

-- `std::stoull` of a text that begins with a digit: a 64-bit word, or an exception.
pub stoull : Text → Option ℕ
stoull s = elim (digits_from none s) [
  | none ↦ none
  | some n ↦ if ltb n (2 ^ 64) then some n else none
]

-- `std::stoll` of a text that begins with a digit or a minus, in two's complement.
unfoldable pub stoll : Text → Option ℕ
stoll [] = none
stoll (c ∷ s) =
    if eqb c b'-'
    then elim (digits_from none s) [
      | none ↦ none
      | some n ↦ if leb n (2 ^ 63) then some ((2 ^ 64 - n) % 2 ^ 64) else none
    ]
    else elim (digits_from none (c ∷ s)) [
      | none ↦ none
      | some n ↦ if ltb n (2 ^ 63) then some n else none
    ]

-- `static_cast<int32_t>`, as a word.
abbrev pub int32 : ℕ → ℕ
int32 n = n % 2 ^ 32

-- `std::istringstream`: what is left, and the bits `eofbit` and `failbit`.
pub record Stream : Type 0 where
  pub rest : Text
  pub eof : Bool
  pub fail : Bool

unfoldable pub skip_spaces : Text → Text
skip_spaces [] = []
skip_spaces (c ∷ s) = let rest = skip_spaces s in if is_space c then rest else c ∷ s

-- The hexadecimal digits at the front, after those whose number is `n`: the number and the rest.
unfoldable pub hex_from : Option ℕ → Text → Option ℕ × Text
hex_from n [] = (n, [])
hex_from n (c ∷ s) = elim (hex_digit c) [
  | none ↦ (n, c ∷ s)
  | some d ↦ hex_from (some (with_digit 16 n d)) s
]

abbrev pub is_end : Text → Bool
is_end [] = true
is_end (c ∷ s) = false

-- The sign of a number: is it negative, and the text behind the sign.
abbrev sign : Text → Bool × Text
sign [] = (false, [])
sign (c ∷ s) = if eqb c b'-' then (true, s) else (if eqb c b'+' then (false, s) else (false, c ∷ s))

-- The prefix `0x` of a number.
abbrev pub past_prefix : Text → Text
past_prefix [] = []
past_prefix (c ∷ []) = c ∷ []
past_prefix (c ∷ x ∷ s) = if eqb c b'0' && (eqb x b'x' || eqb x b'X') then s else c ∷ x ∷ s

-- The value that an extraction of `uint16_t` gives for a number: out of range it fails.
abbrev pub uint16_of : Bool → Option ℕ → Option ℕ
uint16_of negative none = none
uint16_of negative (some n) =
    if ltb n (2 ^ 16) then some (if negative then (2 ^ 16 - n) % 2 ^ 16 else n) else none

-- The value written by a failed extraction: the largest for a number out of range, else 0.
abbrev failed_value : Option ℕ → ℕ
failed_value none = 0
failed_value (some n) = 2 ^ 16 - 1

-- What the extraction gives for the digits that it read, and the stream behind them.
unfoldable pub finish_number : Bool → Option ℕ × Text → ℕ × Stream
finish_number negative (n, rest) = elim (uint16_of negative n) [
  | none ↦ (failed_value n, record { rest = rest; eof = is_end rest; fail = true })
  | some k ↦ (k, record { rest = rest; eof = is_end rest; fail = false })
]

unfoldable pub read_number : Text → ℕ × Stream
read_number [] = (0, record { rest = []; eof = true; fail = true })
read_number (c ∷ s) =
    let signed = sign (c ∷ s) in finish_number signed.0 (hex_from none (past_prefix signed.1))

-- `>> std::hex >> number` of type `uint16_t`; a stream with a bit set leaves the number alone.
unfoldable pub read_hex : Stream → ℕ → ℕ × Stream
read_hex strm number =
    if strm.eof || strm.fail
    then (number, record strm { fail = true })
    else read_number (skip_spaces strm.rest)

-- `>> c` of type `char`, whose value is not used.
unfoldable pub read_char : Stream → Stream
read_char strm =
    let from = skip_spaces strm.rest in
    if strm.eof || strm.fail then record strm { fail = true } else elim from [
      | [] ↦ record { rest = []; eof = true; fail = true }
      | c ∷ s ↦ record { rest = s; eof = false; fail = false }
    ]
