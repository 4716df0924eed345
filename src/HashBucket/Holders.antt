-- ===== src/HashBucket/Holders.antt =====
-- Histories of a hash bucket: tokens are handed out by `createToken`, and a holder gives its token
-- back by `removeToken`.
use refer.Base.{
  ℕ, ◌+◌, ◌-◌, ◌≤◌, ◌<◌, ◌≡◌, ◌≢◌, arith, true, false, ◌&&◌, some, eqb, eqb_iff, nat_eq,
  if◌then◌else◌, Bool-cases, ◌⊎◌, inl, inr,
}
use refer.HashToken.{HashToken, invalid_hash_id, is_valid, token_eq}
use refer.HashToken.Slot.{slot_id, slot_id-ne-zero, slot_id-injective}
use refer.Base.Table.{find}
use refer.HashBucket.{HashBucket, empty, create_token, remove_token}
use refer.HashBucket.Digit.{
  digit, digit-le-one, IsWords, Created, first, collision, create_token-Created,
}
use refer.HashBucket.Written.{create_token-IsWords, create_token-digit-le}
use refer.HashBucket.Removal.{digit-remove_token_any, digit-remove_token_slot, remove_token-IsWords}

-- How many holders a token has.
abbrev pub Held : Type 0
Held = HashToken → ℕ

abbrev pub gain : HashToken → Held → Held
gain t held s = if token_eq s t then held s + 1 else held s

abbrev pub lose : HashToken → Held → Held
lose t held s = if token_eq s t then held s - 1 else held s

-- `t` is handed out, or refused (invalid), or given back by one of its holders.
pub data Step (b : HashBucket) (held : Held) (b' : HashBucket) (held' : Held) : Type 0 where
  create :
      (h : ℕ) (t : HashToken)
      → create_token b h ≡ some (t, b')
      → is_valid t ≡ true
      → ((s : HashToken) → held' s ≡ gain t held s)
      → Step b held b' held'
  refuse :
      (h : ℕ) (t : HashToken)
      → create_token b h ≡ some (t, b')
      → is_valid t ≡ false
      → ((s : HashToken) → held' s ≡ held s)
      → Step b held b' held'
  release :
      (t : HashToken)
      → 0 < held t
      → b' ≡ remove_token b t
      → ((s : HashToken) → held' s ≡ lose t held s)
      → Step b held b' held'

pub data Reach : HashBucket → Held → Type 0 where
  start : Reach empty (λ _. 0)
  next :
      {b b' : HashBucket} {held held' : Held} → Reach b held → Step b held b' held' → Reach b' held'

-- A held token stands in bucket 0, or in a slot below 31, and has a valid hash.
abbrev IsSlot : HashToken → Type 0
IsSlot t =
    (eqb t.id invalid_hash_id ≡ false)
    × ((t.bucket ≡ 0) ⊎ ((k : ℕ) × (k < 31) × (t.bucket ≡ slot_id k)))

-- The tokens outside bucket 0 have one holder for each digit at most.
record Inv (b : HashBucket) (held : Held) : Type 0 where
  words : IsWords b
  shaped : (t : HashToken) → 0 < held t → IsSlot t
  counted : (h k : ℕ) → k < 32 → held (record { bucket = slot_id k; id = h }) ≤ digit b h k

start-Inv : Inv empty (λ _. 0)
unfolding find
start-Inv = record {
  words = λ h w e. cc;
  shaped = λ t l. absurd (omega arith);
  counted = λ h k l. omega arith;
}

module _ {b b' : HashBucket} {held held' : Held} (v : Inv b held) where
  create-counted :
      (h : ℕ) (t : HashToken)
      → Created b h t b'
      → ((s : HashToken) → held' s ≡ gain t held s)
      → (g k : ℕ) → k < 32
      → held' (record { bucket = slot_id k; id = g }) ≤ digit b' g k
  unfolding token_eq
  create-counted h t (first e _ d) gained g k l = ground (
    arith,
    gained (record { bucket = slot_id k; id = g }),
    d g k,
    v.counted g k,
    slot_id-ne-zero k l,
  )
  create-counted h t (collision j lj e free d) gained g k l = ground (
    arith,
    gained (record { bucket = slot_id k; id = g }),
    d g k,
    v.counted g k,
    slot_id-injective k j l,
    eqb_iff h g,
    eqb_iff k j,
    eqb_iff g h,
  )

  create-shaped :
      (h : ℕ) (t : HashToken)
      → Created b h t b'
      → is_valid t ≡ true
      → ((s : HashToken) → held' s ≡ gain t held s)
      → (s : HashToken) → 0 < held' s
      → IsSlot s
  unfolding token_eq is_valid
  create-shaped h t (first e _ d) good gained s l =
      ground (arith, gained s, v.shaped s, eqb_iff s.bucket t.bucket, eqb_iff s.id t.id)
  create-shaped h t (collision j lj e free d) good gained s l = elim (Bool-cases (token_eq s t)) [
    | inl same ↦
        (ground (arith, eqb_iff s.id t.id), inr (j, lj, ground (arith, eqb_iff s.bucket t.bucket)))
    | inr other ↦ v.shaped s (ground (arith, gained s))
  ]

  refuse-Inv :
      (h : ℕ) (t : HashToken)
      → create_token b h ≡ some (t, b')
      → is_valid t ≡ false
      → ((s : HashToken) → held' s ≡ held s)
      → Inv b' held'
  refuse-Inv h t c bad kept = record {
    words = create_token-IsWords b h t b' v.words c;
    shaped = λ s l. v.shaped s (omega (arith, kept s));
    counted = λ g k l. omega (
      arith,
      kept (record { bucket = slot_id k; id = g }),
      v.counted g k l,
      create_token-digit-le b h t b' v.words c g k,
    );
  }

  release-counted :
      (t : HashToken)
      → IsSlot t
      → b' ≡ remove_token b t
      → 0 < held t
      → ((s : HashToken) → held' s ≡ lose t held s)
      → (g k : ℕ) → k < 32
      → held' (record { bucket = slot_id k; id = g }) ≤ digit b' g k
  unfolding token_eq
  release-counted t (valid, inl z) e some_held lost g k l =
      let at : t ≡ record { bucket = 0; id = t.id } = ground arith in
      let same : digit b' g k ≡ digit b g k =
        rw (e, at) (digit-remove_token_any b t.id g k valid) in
      ground
        (arith, lost (record { bucket = slot_id k; id = g }), v.counted g k l, slot_id-ne-zero k l)
  release-counted t (valid, inr (j, lj, z)) e some_held lost g k l =
      let at : t ≡ record { bucket = slot_id j; id = t.id } = ground arith in
      let cleared : digit b' g k ≡ (if eqb t.id g && eqb k j then 0 else digit b g k) =
        rw (e, at) (digit-remove_token_slot b t.id j g k v.words valid lj l) in
      ground (
        arith,
        lost (record { bucket = slot_id k; id = g }),
        cleared,
        v.counted g k l,
        digit-le-one b g k,
        slot_id-injective k j l,
        eqb_iff t.id g,
        eqb_iff g t.id,
        eqb_iff k j,
      )

Step-Inv :
    {b b' : HashBucket} {held held' : Held} → Inv b held → Step b held b' held' → Inv b' held'
unfolding token_eq
Step-Inv {b} {b'} v (create h t c good gained) =
    let made = create_token-Created b h t b' v.words c good in
    record {
      words = create_token-IsWords b h t b' v.words c;
      shaped = create-shaped v h t made good gained;
      counted = create-counted v h t made gained;
    }
Step-Inv v (refuse h t c bad kept) = refuse-Inv v h t c bad kept
Step-Inv {b} v (release t some_held e lost) = record {
  words = rw e (remove_token-IsWords b t v.words);
  shaped = λ s l. v.shaped s (ground (arith, lost s));
  counted = release-counted v t (v.shaped t some_held) e some_held lost;
}

Reach-Inv : {b : HashBucket} {held : Held} → Reach b held → Inv b held
Reach-Inv start = start-Inv
Reach-Inv (next r s) = Step-Inv (Reach-Inv r) s

-- After any history, a token outside bucket 0 has one holder at most, and it is the identifier of a
-- slot below 31 whose digit is set in the word of its hash.
pub one_holder :
    (b : HashBucket) (held : Held) (t : HashToken)
    → Reach b held
    → t.bucket ≢ 0
    → 0 < held t
    → (held t ≡ 1) × ((k : ℕ) × (k < 31) × (t.bucket ≡ slot_id k) × (digit b t.id k ≡ 1))
one_holder b held t r other some_held = holder (Reach-Inv r) ((Reach-Inv r).shaped t some_held)
  where
    holder :
        Inv b held
        → IsSlot t
        → (held t ≡ 1) × ((k : ℕ) × (k < 31) × (t.bucket ≡ slot_id k) × (digit b t.id k ≡ 1))
    holder v (valid, inl z) = absurd (other z)
    holder v (valid, inr (k, l, z)) =
        let at : t ≡ record { bucket = slot_id k; id = t.id } = ground arith in
        let most : held t ≤ digit b t.id k = rw at (v.counted t.id k (omega arith)) in
        (omega (arith, digit-le-one b t.id k), (k, l, z, omega (arith, digit-le-one b t.id k)))
