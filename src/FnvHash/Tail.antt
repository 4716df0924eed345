-- ===== src/FnvHash/Tail.antt =====
-- The rounds of FNV-1a as functions on words, and texts with a common tail.
use Prim.Native.Nat.{bit_xor, differ}
use native.Mathlib.Nat.{pow-suc}
use refer.Base.{
  ℕ, zero, suc, ◌+◌, ◌*◌, ◌/◌, ◌%◌, ◌^◌, ◌≤◌, ◌<◌, ◌≡◌, refl, sym, ap, ◌∙◌, ◌↔◌, inl, inr, arith,
  Bool, true, false, List, [], ◌∷◌, ◌++◌, ltb, Bool-cases,
}
use refer.Word.Digits.{bit_xor_step}
use refer.FnvHash.{widen, fnv1a_hash, as32, as64}

differ-cancel : (x y : ℕ) → x ≤ 1 → y ≤ 1 → differ (differ x y) y ≡ x
differ-cancel zero zero h k = refl
differ-cancel zero (suc zero) h k = refl
differ-cancel (suc zero) zero h k = refl
differ-cancel (suc zero) (suc zero) h k = refl
differ-cancel zero (suc (suc y)) h k = absurd (omega arith)
differ-cancel (suc zero) (suc (suc y)) h k = absurd (omega arith)
differ-cancel (suc (suc x)) y h k = absurd (omega arith)

differ-le-one : (x y : ℕ) → x ≤ 1 → y ≤ 1 → differ x y ≤ 1
differ-le-one zero y h k = k
differ-le-one (suc zero) zero h k = h
differ-le-one (suc zero) (suc zero) h k = omega arith
differ-le-one (suc zero) (suc (suc y)) h k = absurd (omega arith)
differ-le-one (suc (suc x)) y h k = absurd (omega arith)

bit_xor-cancel : (n a b : ℕ) → a ≤ n → b ≤ n → bit_xor (bit_xor a b) b ≡ a
bit_xor-cancel zero a b h k =
    let a0 : a ≡ 0 = omega arith in let b0 : b ≡ 0 = omega arith in rw (a0, b0) refl
bit_xor-cancel (suc n) a b h k =
    let low = differ-le-one (a % 2) (b % 2) (omega arith) (omega arith) in
    let half : bit_xor a b / 2 ≡ bit_xor (a / 2) (b / 2) = omega (arith, bit_xor_step a b) in
    let rest : bit_xor a b % 2 ≡ differ (a % 2) (b % 2) = omega (arith, bit_xor_step a b) in
    omega (
      arith,
      bit_xor_step (bit_xor a b) b,
      ap (λ (x : ℕ). bit_xor x (b / 2)) half,
      ap (λ (x : ℕ). differ x (b % 2)) rest,
      differ-cancel (a % 2) (b % 2) (omega arith) (omega arith),
      bit_xor-cancel n (a / 2) (b / 2) (omega arith) (omega arith),
    )

bit_xor-lt : (w a b : ℕ) → a < 2 ^ w → b < 2 ^ w → bit_xor a b < 2 ^ w
bit_xor-lt zero a b h k =
    let a0 : a ≡ 0 = omega arith in let b0 : b ≡ 0 = omega arith in rw (a0, b0) (omega arith)
bit_xor-lt (suc w) a b h k = omega (
  arith,
  pow-suc 2 w,
  bit_xor_step a b,
  differ-le-one (a % 2) (b % 2) (omega arith) (omega arith),
  bit_xor-lt w (a / 2) (b / 2) (omega (arith, pow-suc 2 w)) (omega (arith, pow-suc 2 w)),
)

-- All codes are those of a `char`.
abbrev IsBytes : List ℕ → Type 0
IsBytes [] = Unit
IsBytes (c ∷ text) = (c < 256) × IsBytes text

module _ (signed : Bool) (w : ℕ) (wide : 2 ^ 8 ≤ 2 ^ w) (prime inverse : ℕ)
    (inverts : (x : ℕ) → x < 2 ^ w → x * prime % 2 ^ w * inverse % 2 ^ w ≡ x) where
  widen-lt : (c : ℕ) → c < 256 → widen signed (2 ^ w) c < 2 ^ w
  unfolding widen
  widen-lt c h = elim signed as (λ sg. widen sg (2 ^ w) c < 2 ^ w) [
    | true ↦ elim (Bool-cases (ltb c 128)) [
      | inl e ↦ rw e (omega arith)
      | inr e ↦ rw e (omega arith)
    ]
    | false ↦ omega arith
  ]

  round-injective :
      (c r s : ℕ)
      → c < 256
      → r < 2 ^ w
      → s < 2 ^ w
      → bit_xor r (widen signed (2 ^ w) c) * prime % 2 ^ w
        ≡ bit_xor s (widen signed (2 ^ w) c) * prime % 2 ^ w
      → r ≡ s
  round-injective c r s hc hr hs e =
      let x = widen signed (2 ^ w) c in
      let hx = widen-lt c hc in
      let mixed : bit_xor r x ≡ bit_xor s x =
        sym (inverts (bit_xor r x) (bit_xor-lt w r x hr hx))
        ∙ ap (λ (y : ℕ). y * inverse % 2 ^ w) e
        ∙ inverts (bit_xor s x) (bit_xor-lt w s x hs hx) in
      sym (bit_xor-cancel (r + x) r x (omega arith) (omega arith))
      ∙ ap (λ (y : ℕ). bit_xor y x) mixed
      ∙ bit_xor-cancel (s + x) s x (omega arith) (omega arith)

  fnv1a_hash-injective :
      (text : List ℕ) (r s : ℕ)
      → IsBytes text
      → r < 2 ^ w
      → s < 2 ^ w
      → fnv1a_hash signed (2 ^ w) text prime r ≡ fnv1a_hash signed (2 ^ w) text prime s
      → r ≡ s
  unfolding fnv1a_hash
  fnv1a_hash-injective [] r s b hr hs e = e
  fnv1a_hash-injective (c ∷ text) r s b hr hs e =
      round-injective c r s b.0 hr hs
        (fnv1a_hash-injective text _ _ b.1 (omega arith) (omega arith) e)

  fnv1a_hash-lt :
      (text : List ℕ) (r : ℕ) → r < 2 ^ w → fnv1a_hash signed (2 ^ w) text prime r < 2 ^ w
  unfolding fnv1a_hash
  fnv1a_hash-lt [] r h = h
  fnv1a_hash-lt (c ∷ text) r h = fnv1a_hash-lt text _ (omega arith)

  fnv1a_hash-append :
      (s t : List ℕ) (r : ℕ)
      → fnv1a_hash signed (2 ^ w) (s ++ t) prime r
        ≡ fnv1a_hash signed (2 ^ w) t prime (fnv1a_hash signed (2 ^ w) s prime r)
  unfolding fnv1a_hash
  fnv1a_hash-append [] t r = refl
  fnv1a_hash-append (c ∷ s) t r = fnv1a_hash-append s t _

  same_tail :
      (s t tail : List ℕ) (r : ℕ)
      → IsBytes tail
      → r < 2 ^ w
      → (fnv1a_hash signed (2 ^ w) (s ++ tail) prime r
          ≡ fnv1a_hash signed (2 ^ w) (t ++ tail) prime r)
        ↔ (fnv1a_hash signed (2 ^ w) s prime r ≡ fnv1a_hash signed (2 ^ w) t prime r)
  same_tail s t tail r b h =
      let run = λ (x : ℕ). fnv1a_hash signed (2 ^ w) tail prime x in
      (
        λ e.
            fnv1a_hash-injective tail _ _ b (fnv1a_hash-lt s r h) (fnv1a_hash-lt t r h)
              (sym (fnv1a_hash-append s tail r) ∙ e ∙ fnv1a_hash-append t tail r),
        λ e. fnv1a_hash-append s tail r ∙ ap run e ∙ sym (fnv1a_hash-append t tail r),
      )

inverts32 : (x : ℕ) → x < 2 ^ 32 → x * 16777619 % 2 ^ 32 * 899433627 % 2 ^ 32 ≡ x
inverts32 x h = omega arith

inverts64 : (x : ℕ) → x < 2 ^ 64 → x * 1099511628211 % 2 ^ 64 * 14886173955864302971 % 2 ^ 64 ≡ x
inverts64 x h = omega arith

-- With the same tail, two texts have the same hash of 32 bits exactly when the parts before it have.
as32_same_tail :
    (signed : Bool) (s t tail : List ℕ)
    → IsBytes tail
    → (as32 signed (s ++ tail) ≡ as32 signed (t ++ tail)) ↔ (as32 signed s ≡ as32 signed t)
unfolding as32
as32_same_tail signed s t tail b =
    same_tail signed 32 (omega arith) 16777619 899433627 inverts32 s t tail 2166136261 b
      (omega arith)

-- So for the hash of 64 bits.
as64_same_tail :
    (signed : Bool) (s t tail : List ℕ)
    → IsBytes tail
    → (as64 signed (s ++ tail) ≡ as64 signed (t ++ tail)) ↔ (as64 signed s ≡ as64 signed t)
unfolding as64
as64_same_tail signed s t tail b =
    same_tail signed 64 (omega arith) 1099511628211 14886173955864302971 inverts64 s t tail
      14695981039346656037 b (omega arith)
