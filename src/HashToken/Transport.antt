-- ===== src/HashToken/Transport.antt =====
-- The transport form of a token, and its order.
use Prim.Native.Nat.{bit_or}
use refer.Base.{ℕ, ◌+◌, ◌*◌, ◌%◌, ◌^◌, ◌<◌, ◌≡◌, ap, arith, true, ltb}
use refer.Word.Digits.{bit_or-shift}
use refer.HashToken.{HashToken, from_transport, transport_token, token_lt}

-- The two parts of a token are words.
pub record IsWord (t : HashToken) : Type 0 where
  pub bucket_fits : t.bucket < 2 ^ 32
  pub id_fits : t.id < 2 ^ 32

transport_token_sum : (t : HashToken) → IsWord t → transport_token t ≡ t.bucket * 2 ^ 32 + t.id
unfolding transport_token
transport_token_sum t v =
    omega (arith, bit_or-shift 32 t.bucket t.id v.id_fits, ap (λ (n : ℕ). bit_or n t.id) fits)
  where
    fits : t.bucket * 2 ^ 32 % 2 ^ 64 ≡ t.bucket * 2 ^ 32
    fits = omega arith

-- A token survives its transport form.
from_transport-transport_token : (t : HashToken) → IsWord t → from_transport (transport_token t) ≡ t
unfolding from_transport
from_transport-transport_token t v = rw (transport_token_sum t v) (ground arith)

-- Every 64-bit value is the transport form of a token.
transport_token-from_transport : (n : ℕ) → n < 2 ^ 64 → transport_token (from_transport n) ≡ n
unfolding from_transport
transport_token-from_transport n h =
    rw
      (transport_token_sum (from_transport n)
        (record { bucket_fits = omega arith; id_fits = omega arith }))
      (omega arith)

-- The order is no order outside bucket 0: two tokens that differ both ways are each below the other.
pub token_lt_both :
    (s t : HashToken)
    → s.bucket < t.bucket
    → t.id < s.id
    → (token_lt s t ≡ true) × (token_lt t s ≡ true)
unfolding token_lt
token_lt_both s t hb hi = ground arith

-- Among the tokens of bucket 0 the order is that of the hashes.
token_lt_any : (s t : HashToken) → s.bucket ≡ 0 → t.bucket ≡ 0 → token_lt s t ≡ ltb s.id t.id
unfolding token_lt
token_lt_any s t hs ht = ground arith
