-- ===== src/Variant/FromText/Eui48.antt =====
-- `VariantValue::set(std::string const&, SetUpdateType)` for hardware addresses of type EUI48.
use Prim.Native.Nat.{bit_or}
use refer.Base.{
  ℕ, zero, suc, ◌+◌, ◌-◌, ◌*◌, ◌/◌, ◌%◌, ◌^◌, ◌<◌, ◌≡◌, refl, ◌∙◌, arith, Bool, true, false, ◌&&◌,
  none, some, List, [], ◌∷◌, eqb, ltb, length, if◌then◌else◌,
}
use refer.Word.Shift.{bit_or-shift}
use refer.Base.Call.{running, returned}
use refer.Text.{Text}
use refer.Text.Number.{
  hex_digit, is_space, skip_spaces, hex_from, read_hex, read_char, past_prefix, is_end, read_number,
  finish_number, uint16_of,
}
use refer.ValueData.{Messages, eui48_type, type_code}
use refer.Variant
use refer.Variant.{Variant, UpdateType, is_read_only, is_local, set_value}
use refer.Variant.FromText.{Texts, eui48_from, stream_of, updated, pass_on, set_text}

-- A loop whose extraction has failed before the end of the text does not end.
failed_loop :
    (n eui48 : ℕ) (rest : Text)
    → eui48_from n (record { rest = rest; eof = false; fail = true }) eui48 ≡ running
unfolding eui48_from read_hex read_char
failed_loop zero eui48 rest = refl
failed_loop (suc n) eui48 rest = failed_loop n _ rest

-- A character that no extraction of a number accepts at the front.
abbrev pub IsAlien : ℕ → Type 0
IsAlien c =
    (hex_digit c ≡ none) × (is_space c ≡ false) × (eqb c b'-' ≡ false) × (eqb c b'+' ≡ false)

alien_prefix :
    (c : ℕ) (s : Text)
    → eqb c b'0' ≡ false
    → hex_digit c ≡ none
    → hex_from none (past_prefix (c ∷ s)) ≡ (none, c ∷ s)
unfolding hex_from
alien_prefix c [] z h = rw (hex_from, h) refl
alien_prefix c (x ∷ s) z h = rw (z, hex_from, h) refl

alien_number :
    (c : ℕ) (s : Text)
    → IsAlien c
    → read_number (c ∷ s) ≡ (0, record { rest = c ∷ s; eof = false; fail = true })
unfolding read_number finish_number
alien_number c s (h, sp, mi, pl) = rw (mi, pl, alien_prefix c s (ground arith) h) refl

alien_loop : (n : ℕ) (c : ℕ) (s : Text) → IsAlien c → eui48_from n (stream_of (c ∷ s)) 0 ≡ running
unfolding eui48_from read_hex read_char skip_spaces
alien_loop zero c s h = refl
alien_loop (suc n) c s (h, sp, mi, pl) =
    rw (sp, alien_number c s (h, sp, mi, pl)) (failed_loop n _ (c ∷ s))

module _ {ℓ} {N : Type ℓ} (texts : Texts N) where
  -- `set` of a value of type EUI48, unless it is read-only and the call is local, with a text of 17
  -- characters of which the first is neither a hexadecimal digit nor a space nor a sign, does not end.
  pub set_text-endless :
      (n : ℕ) (m : Messages N) (v : Variant N) (c : ℕ) (s : Text) (update : UpdateType)
      → (is_read_only v.value.access && is_local update) ≡ false
      → v.value.type ≡ eui48_type
      → length s ≡ 16
      → IsAlien c
      → set_text texts n m v (c ∷ s) update ≡ running
  unfolding set_text pass_on updated type_code
  set_text-endless n m v c s update access t l alien =
      rw (set_text, access, t, updated, l, alien_loop n c s alien) refl

-- A hexadecimal digit as a character.
abbrev pub hex_char : ℕ → ℕ
hex_char d = if ltb d 10 then b'0' + d else b'a' + (d - 10)

abbrev pub print_byte : ℕ → Text → Text
print_byte b s = hex_char (b / 16) ∷ hex_char (b % 16) ∷ s

-- Bytes behind a colon each.
abbrev pub print_more : List ℕ → Text
print_more [] = []
print_more (b ∷ bs) = b':' ∷ print_byte b (print_more bs)

hex_char-hex_digit : (d : ℕ) → d < 16 → hex_digit (hex_char d) ≡ some d
hex_char-hex_digit d l = ground arith

hex_char_plain :
    (d : ℕ)
    → d < 16
    → (is_space (hex_char d) ≡ false)
      × (eqb (hex_char d) b'-' ≡ false)
      × (eqb (hex_char d) b'+' ≡ false)
      × (eqb (hex_char d) b'x' ≡ false)
      × (eqb (hex_char d) b'X' ≡ false)
hex_char_plain d l = ground arith

print_more-hex_from :
    (n : ℕ) (bs : List ℕ) → hex_from (some n) (print_more bs) ≡ (some n, print_more bs)
unfolding hex_from
print_more-hex_from n [] = refl
print_more-hex_from n (b ∷ bs) = refl

print_byte-hex_from :
    (b : ℕ) (bs : List ℕ)
    → b < 256
    → hex_from none (print_byte b (print_more bs)) ≡ (some b, print_more bs)
unfolding hex_from
print_byte-hex_from b bs l =
    let back : 16 * (b / 16) + b % 16 ≡ b = omega arith in
    rw
      (
        hex_from,
        hex_char-hex_digit (b / 16) (omega arith),
        hex_char-hex_digit (b % 16) (omega arith),
      )
      (rw back (print_more-hex_from b bs))

and_false : (b : Bool) → (b && false) ≡ false
and_false true = refl
and_false false = refl

byte_uint16 : (b : ℕ) → b < 256 → uint16_of false (some b) ≡ some b
byte_uint16 b l = ground arith

-- Reading one byte.
print_byte-read_number :
    (b : ℕ) (bs : List ℕ)
    → b < 256
    → read_number (print_byte b (print_more bs))
      ≡ (b, record { rest = print_more bs; eof = is_end (print_more bs); fail = false })
unfolding read_number finish_number
print_byte-read_number b bs l =
    let (sp, mi, pl, x, y) = hex_char_plain (b / 16) (omega arith) in
    let (sp', mi', pl', x', y') = hex_char_plain (b % 16) (omega arith) in
    rw (mi, pl, x', y', and_false (eqb (hex_char (b / 16)) b'0'), print_byte-hex_from b bs l)
      (rw (finish_number, byte_uint16 b l) refl)

-- The number of bytes behind the number `n`.
abbrev pub append_bytes : ℕ → List ℕ → ℕ
append_bytes n [] = n
append_bytes n (b ∷ bs) = append_bytes (bit_or (n * 2 ^ 8 % 2 ^ 64) b) bs

abbrev pub AreBytes : List ℕ → Type 0
AreBytes [] = Unit
AreBytes (b ∷ bs) = (b < 256) × AreBytes bs

byte_round :
    (b : ℕ) (bs : List ℕ) (n eui48 : ℕ)
    → b < 256
    → eui48_from (suc n) (stream_of (print_byte b (print_more bs))) eui48
      ≡ eui48_from n
          (read_char (record { rest = print_more bs; eof = is_end (print_more bs); fail = false }))
          (bit_or (eui48 * 2 ^ 8 % 2 ^ 64) b)
unfolding eui48_from read_hex skip_spaces
byte_round b bs n eui48 l =
    let (sp, mi, pl, x, y) = hex_char_plain (b / 16) (omega arith) in
    rw (eui48_from, read_hex, skip_spaces, sp, print_byte-read_number b bs l) refl

bytes_loop :
    (b : ℕ) (bs : List ℕ) (n eui48 : ℕ)
    → b < 256
    → AreBytes bs
    → length bs < n
    → eui48_from (suc n) (stream_of (print_byte b (print_more bs))) eui48
      ≡ returned (append_bytes eui48 (b ∷ bs))
unfolding eui48_from read_hex read_char skip_spaces
bytes_loop b bs zero eui48 l h more = absurd (omega arith)
bytes_loop b [] (suc n) eui48 l h more = byte_round b [] (suc n) eui48 l
bytes_loop b (b' ∷ bs) (suc n) eui48 l (l', h) more =
    byte_round b (b' ∷ bs) (suc n) eui48 l
    ∙ bytes_loop b' bs n (bit_or (eui48 * 2 ^ 8 % 2 ^ 64) b) l' h (omega arith)

-- While the number fits, the shift drops nothing.
append_byte : (n b : ℕ) → n < 2 ^ 48 → b < 256 → bit_or (n * 2 ^ 8 % 2 ^ 64) b ≡ 256 * n + b
append_byte n b fits l =
    let whole : n * 2 ^ 8 % 2 ^ 64 ≡ n * 2 ^ 8 = omega arith in
    rw whole (omega (arith, bit_or-shift 8 n b (omega arith)))

-- The number of six bytes, the first one highest.
abbrev pub number_of : ℕ → ℕ → ℕ → ℕ → ℕ → ℕ → ℕ
number_of a b c d e f = 256 * (256 * (256 * (256 * (256 * a + b) + c) + d) + e) + f

append_six :
    (a b c d e f : ℕ)
    → AreBytes (a ∷ b ∷ c ∷ d ∷ e ∷ f ∷ [])
    → append_bytes 0 (a ∷ b ∷ c ∷ d ∷ e ∷ f ∷ []) ≡ number_of a b c d e f
append_six a b c d e f (la, (lb, (lc, (ld, (le, (lf, u)))))) =
    let n1 : bit_or (0 * 2 ^ 8 % 2 ^ 64) a ≡ a = omega (arith, append_byte 0 a (omega arith) la) in
    rw
      (
        n1,
        append_byte a b (omega arith) lb,
        append_byte (256 * a + b) c (omega arith) lc,
        append_byte (256 * (256 * a + b) + c) d (omega arith) ld,
        append_byte (256 * (256 * (256 * a + b) + c) + d) e (omega arith) le,
        append_byte (256 * (256 * (256 * (256 * a + b) + c) + d) + e) f (omega arith) lf,
      )
      refl

-- The six bytes as text, two digits each between colons.
abbrev pub print_address : ℕ → ℕ → ℕ → ℕ → ℕ → ℕ → Text
print_address a b c d e f = print_byte a (print_more (b ∷ c ∷ d ∷ e ∷ f ∷ []))

module _ {ℓ} {N : Type ℓ} (texts : Texts N) where
  -- `set` of a value of type EUI48, unless it is read-only and the call is local, with six bytes printed
  -- in hexadecimal between colons returns, and is the `set` of the message with the number of the bytes.
  pub set_text-print_address :
      (m : Messages N) (v : Variant N) (a b c d e f : ℕ) (update : UpdateType)
      → (is_read_only v.value.access && is_local update) ≡ false
      → v.value.type ≡ eui48_type
      → AreBytes (a ∷ b ∷ c ∷ d ∷ e ∷ f ∷ [])
      → set_text texts 7 m v (print_address a b c d e f) update
        ≡ returned (set_value m v (texts.put_uint64 (Variant.get v) (number_of a b c d e f)) update)
  unfolding set_text pass_on updated type_code
  set_text-print_address m v a b c d e f update access t (la, h) =
      rw
        (
          set_text,
          access,
          t,
          updated,
          bytes_loop a (b ∷ c ∷ d ∷ e ∷ f ∷ []) 6 0 la h (omega arith),
          append_six a b c d e f (la, h),
        )
        refl
