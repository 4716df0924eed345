-- ===== src/Bucketizer/Made.antt =====
-- What a call of `make` does, on a bucketizer that is in order.
use refer.Base.{
  ℕ, ◌<◌, ◌≡◌, ◌≢◌, refl, sym, ap, ◌∙◌, arith, true, false, not, ◌&&◌, none, some, Eq, eqb,
  if◌then◌else◌, nat_eq, Bool-cases, Option-cases, inl, inr,
}
use mathlib.Core.Bool.{false≢true}
use mathlib.Core.Option.{none-ne-some, some-injective}
use refer.HashToken.{HashToken, invalid_bucket, invalid_hash_id, invalid_token, is_valid}
use refer.HashToken.Slot.{slot_id}
use refer.HashBucket.{HashBucket, create_token, has_bucket}
use refer.HashBucket.Digit.{digit, IsWords, Created, first, collision, create_token-Created}
use refer.HashBucket.Written.{create_token-invalid_token}
use refer.TokenMap
use refer.TokenMap.{TokenMap, inner}
use refer.TokenMap.Lookup.{get-insert, has-get}
use refer.TokenMap.Size.{IsWf}
use refer.Bucketizer.{Bucketizer, find_by_id, make_new, make}
use refer.Bucketizer.Search.{find_by_id-get, get-find_by_id}

module _ {ℓ} {V : Type ℓ} where
  abbrev pub Stored : Bucketizer V → HashToken → V → Type ℓ
  Stored b t v = TokenMap.get b.bucket_store t ≡ some v

  -- A stored token outside `HashToken()` is valid, carries the hash of its id, which is known to the
  -- hash bucket, and its slot is taken; and no id has two tokens.
  pub record IsOrdered (hf : V → ℕ) (b : Bucketizer V) : Type ℓ where
    pub words : IsWords b.hash_bucket
    pub wf : IsWf b.bucket_store
    pub valid : (t : HashToken) (v : V) → Stored b t v → is_valid t ≡ false → t ≡ invalid_token
    pub hashed : (t : HashToken) (v : V) → Stored b t v → is_valid t ≡ true → t.id ≡ hf v
    pub known :
        (t : HashToken) (v : V)
        → Stored b t v
        → is_valid t ≡ true
        → has_bucket b.hash_bucket t.id ≡ true
    pub slots :
        (h k : ℕ) (v : V)
        → k < 31
        → Stored b (record { bucket = slot_id k; id = h }) v
        → digit b.hash_bucket h k ≡ 1
    pub distinct :
        (s t : HashToken) (v : V)
        → Stored b s v
        → Stored b t v
        → is_valid s ≡ true
        → is_valid t ≡ true
        → s ≡ t

module _ {ℓ} {V : Type ℓ} ⦃e : Eq V⦄ (hf : V → ℕ) (b : Bucketizer V) (o : IsOrdered hf b)
    (value : V) (good : eqb (hf value) invalid_hash_id ≡ false) where
  -- The id has its token; or it gets one that was free; or the slots of its hash are used up.
  pub data Made (t : HashToken) (b' : Bucketizer V) : Type ℓ where
    found : is_valid t ≡ true → Stored b t value → b ≡ b' → Made t b'
    fresh :
        is_valid t ≡ true
        → create_token b.hash_bucket (hf value) ≡ some (t, b'.hash_bucket)
        → b'.bucket_store ≡ (TokenMap.insert b.bucket_store t value).1
        → TokenMap.get b.bucket_store t ≡ none
        → ((s : HashToken) → Stored b s value → is_valid s ≡ true → ⊥)
        → Made t b'
    exhausted :
        is_valid t ≡ false
        → create_token b.hash_bucket (hf value) ≡ some (invalid_token, b'.hash_bucket)
        → b'.bucket_store ≡ (TokenMap.insert b.bucket_store invalid_token value).1
        → Made t b'

  -- A token that the hash bucket hands out is not stored.
  created_free :
      (t : HashToken) (hb : HashBucket)
      → create_token b.hash_bucket (hf value) ≡ some (t, hb)
      → is_valid t ≡ true
      → TokenMap.get b.bucket_store t ≡ none
  unfolding has_bucket
  created_free t hb c v = elim (Option-cases (TokenMap.get b.bucket_store t)) [
    | inl n ↦ n
    | inr (w, g) ↦
        absurd (clash (create_token-Created b.hash_bucket (hf value) t hb o.words c v) w g)
  ]
    where
      clash : Created b.hash_bucket (hf value) t hb → (w : V) → Stored b t w → ⊥
      clash (first z n d) w g = let k = o.known t w g v in false≢true (ground (arith, z, n, k))
      clash (collision k l z free d) w g = omega (arith, o.slots (hf value) k w l (rw z at g))

  pub invalid_elsewhere :
      TokenMap.get b.bucket_store (record { bucket = invalid_bucket; id = hf value }) ≢ some value
  unfolding is_valid
  invalid_elsewhere g =
      let z = o.valid (record { bucket = invalid_bucket; id = hf value }) value g refl in
      false≢true (ground (arith, z))

  -- An id that the search missed has no valid token.
  missed_id :
      (has_bucket b.hash_bucket (hf value)
          && not (eqb (find_by_id b.bucket_store (hf value) value) invalid_bucket))
        ≡ false
      → (s : HashToken) → Stored b s value
      → is_valid s ≡ true
      → ⊥
  unfolding is_valid
  missed_id missed s g v =
      let same = o.hashed s value g v in
      let known = o.known s value g v in
      let hit =
        get-find_by_id b.bucket_store s value o.wf g (ground arith) (rw same invalid_elsewhere) in
      let hit' : eqb (find_by_id b.bucket_store (hf value) value) invalid_bucket ≡ false =
        rw same at hit in
      let known' : has_bucket b.hash_bucket (hf value) ≡ true = rw same at known in
      false≢true (ground arith)

  -- What `make` returns behind the search, from what the hash bucket handed out.
  outcome_from :
      (t t0 : HashToken) (hb : HashBucket) (b' : Bucketizer V)
      → ((s : HashToken) → Stored b s value → is_valid s ≡ true → ⊥)
      → create_token b.hash_bucket (hf value) ≡ some (t0, hb)
      → t ≡ (if (TokenMap.insert b.bucket_store t0 value).0 then t0 else invalid_token)
      → b'.hash_bucket ≡ hb
      → b'.bucket_store ≡ (TokenMap.insert b.bucket_store t0 value).1
      → Made t b'
  unfolding is_valid
  outcome_from t t0 hb b' missing c et eh es = elim (Bool-cases (is_valid t0)) [
    | inl v ↦
        let free = created_free t0 hb c v in
        let ins = (get-insert b.bucket_store t0 t0 value).0 in
        let same : t ≡ t0 = ground (arith, has-get b.bucket_store t0) in
        fresh (rw same v) (rw (same, eh) c) (rw same es) (rw same free) missing
    | inr bad ↦
        let none_made = create_token-invalid_token b.hash_bucket (hf value) t0 hb c bad in
        let same : t ≡ invalid_token = ground arith in
        exhausted (rw same refl) (rw (eh, ← none_made) c) (es ∙ rw none_made refl)
  ]

  outcome_new :
      (t : HashToken) (b' : Bucketizer V)
      → ((s : HashToken) → Stored b s value → is_valid s ≡ true → ⊥)
      → make_new b (hf value) value ≡ some (t, b')
      → Made t b'
  unfolding make_new
  outcome_new t b' missing m = elim (Option-cases (create_token b.hash_bucket (hf value))) [
    | inl e ↦ absurd (none-ne-some (t, b') (rw (e, make_new) at m))
    | inr ((t0, hb), c) ↦
        let p = some-injective (t, b') _ (sym (rw (c, make_new) at m)) in
        outcome_from t t0 hb b' missing c (ap (λ (r : HashToken × Bucketizer V). r.0) p)
          (ap (λ (r : HashToken × Bucketizer V). r.1.hash_bucket) p)
          (ap (λ (r : HashToken × Bucketizer V). r.1.bucket_store) p)
  ]

  -- Every call is one of the three.
  pub make-Made : (t : HashToken) (b' : Bucketizer V) → make hf b value ≡ some (t, b') → Made t b'
  unfolding make is_valid
  make-Made t b' m =
      elim (Bool-cases (
        has_bucket b.hash_bucket (hf value)
        && not (eqb (find_by_id b.bucket_store (hf value) value) invalid_bucket))) [
          | inl y ↦
              let p = some-injective _ (t, b') (rw (y, make) at m) in
              let stored =
                find_by_id-get b.bucket_store (hf value) value o.wf (ground (arith, y)) in
              found (rw (← ap (λ (r : HashToken × Bucketizer V). r.0) p) (ground (arith, y)))
                (rw (← ap (λ (r : HashToken × Bucketizer V). r.0) p) stored)
                (ap (λ (r : HashToken × Bucketizer V). r.1) p)
          | inr n ↦ outcome_new t b' (missed_id n) (rw n at m)
        ]
