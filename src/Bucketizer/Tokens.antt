-- ===== src/Bucketizer/Tokens.antt =====
-- `ValueIdBucketizer::make`: the store and the hash bucket after each kind of call.
use refer.Base.{
  ℕ, ◌<◌, ◌≡◌, refl, sym, ap, ◌∙◌, arith, true, false, some, Eq, eqb, eqb_iff, nat_eq, Bool-cases,
  inl, inr, ◌⊎◌,
}
use mathlib.Core.Bool.{false≢true}
use mathlib.Core.Option.{some-injective}
use refer.HashToken.{HashToken, invalid_hash_id, invalid_token, is_valid, token_eq}
use refer.HashToken.Slot.{slot_id, slot_id-injective, slot_id-ne-zero}
use refer.HashBucket.{has_bucket}
use refer.HashBucket.Digit.{
  digit, IsWords, digit-le-one, Created, first, collision, create_token-Created,
}
use refer.HashBucket.Written.{create_token-IsWords, create_token-digit-le, create_token-has_bucket}
use refer.TokenMap
use refer.TokenMap.Lookup.{get-insert}
use refer.TokenMap.Size.{IsWf, insert-IsWf}
use refer.Bucketizer.{Bucketizer}
use refer.Bucketizer.Made.{Stored, IsOrdered, Made, found, fresh, exhausted}

-- Two tokens that compare equal are one.
token_eq_lem : (s t : HashToken) → token_eq s t ≡ true → s ≡ t
unfolding token_eq
token_eq_lem s t e = ground (arith, eqb_iff s.bucket t.bucket, eqb_iff s.id t.id)

token_eq_refl : (s : HashToken) → token_eq s s ≡ true
unfolding token_eq
token_eq_refl s = ground arith

invalid_refused : is_valid invalid_token ≡ false
unfolding is_valid
invalid_refused = refl

module _ {ℓ} {V : Type ℓ} ⦃e : Eq V⦄ (hf : V → ℕ) (b : Bucketizer V) (o : IsOrdered hf b)
    (value : V) (good : eqb (hf value) invalid_hash_id ≡ false) (t : HashToken)
    (b' : Bucketizer V) where
  -- What was stored stays.
  pub kept : Made hf b o value good t b' → (s : HashToken) (v : V) → Stored b s v → Stored b' s v
  kept (found x y z) s v g = rw (← z) g
  kept (fresh x c p n y) s v g = rw p (
      ground (
        arith,
        get-insert b.bucket_store t s value,
        ap (TokenMap.get b.bucket_store) {x = t} {y = s},
        token_eq_lem t s,
      ))
  kept (exhausted x c p) s v g = rw p (
      ground (
        arith,
        get-insert b.bucket_store invalid_token s value,
        ap (TokenMap.get b.bucket_store) {x = invalid_token} {y = s},
        token_eq_lem invalid_token s,
      ))

  pub found_again : Made hf b o value good t b' → is_valid t ≡ true → Stored b' t value
  found_again (found x y z) v = rw (← z) y
  found_again (fresh x c p n y) v =
      rw p (ground (arith, get-insert b.bucket_store t t value, token_eq_refl t))
  found_again (exhausted x c p) v = absurd (false≢true (sym x ∙ v))

  -- What is stored under a valid token afterwards was stored before, or is the id under its new token.
  pub before :
      Made hf b o value good t b'
      → (s : HashToken) (v : V) → Stored b' s v
      → is_valid s ≡ true
      → Stored b s v ⊎ ((s ≡ t) × (v ≡ value))
  before (found x y z) s v g good_s = inl (rw z g)
  before (fresh x c p n y) s v g good_s =
      let g' : TokenMap.get (TokenMap.insert b.bucket_store t value).1 s ≡ some v = rw (← p) g in
      elim (Bool-cases (token_eq t s)) [
        | inl q ↦ inr (
          sym (token_eq_lem t s q),
          some-injective v value (sym g' ∙ ground (arith, get-insert b.bucket_store t s value)),
        )
        | inr q ↦ inl (ground (arith, get-insert b.bucket_store t s value))
      ]
  before (exhausted x c p) s v g good_s =
      let g' : TokenMap.get (TokenMap.insert b.bucket_store invalid_token value).1 s ≡ some v =
        rw (← p) g in
      elim (Bool-cases (token_eq invalid_token s)) [
        | inl q ↦
            absurd (false≢true (sym invalid_refused ∙ rw (token_eq_lem invalid_token s q) good_s))
        | inr q ↦ inl (ground (arith, get-insert b.bucket_store invalid_token s value))
      ]

  pub invalid_before :
      Made hf b o value good t b'
      → (s : HashToken) (v : V) → Stored b' s v
      → is_valid s ≡ false
      → s ≡ invalid_token
  invalid_before (found x y z) s v g bad = o.valid s v (rw z g) bad
  invalid_before (fresh x c p n y) s v g bad =
      let g' : TokenMap.get (TokenMap.insert b.bucket_store t value).1 s ≡ some v = rw (← p) g in
      elim (Bool-cases (token_eq t s)) [
        | inl q ↦ absurd (false≢true (sym bad ∙ rw (← token_eq_lem t s q) x))
        | inr q ↦ o.valid s v (ground (arith, get-insert b.bucket_store t s value)) bad
      ]
  invalid_before (exhausted x c p) s v g bad =
      let g' : TokenMap.get (TokenMap.insert b.bucket_store invalid_token value).1 s ≡ some v =
        rw (← p) g in
      elim (Bool-cases (token_eq invalid_token s)) [
        | inl q ↦ sym (token_eq_lem invalid_token s q)
        | inr q ↦ o.valid s v (ground (arith, get-insert b.bucket_store invalid_token s value)) bad
      ]

  -- What the call did to the hash bucket.
  pub bucket_after : Made hf b o value good t b' → IsWords b'.hash_bucket
  bucket_after (found x y z) = rw (← z) o.words
  bucket_after (fresh x c p n y) =
      create_token-IsWords b.hash_bucket (hf value) t b'.hash_bucket o.words c
  bucket_after (exhausted x c p) =
      create_token-IsWords b.hash_bucket (hf value) invalid_token b'.hash_bucket o.words c

  pub store_after : Made hf b o value good t b' → IsWf b'.bucket_store
  store_after (found x y z) = rw (← z) o.wf
  store_after (fresh x c p n y) = rw p (insert-IsWf b.bucket_store t value o.wf)
  store_after (exhausted x c p) = rw p (insert-IsWf b.bucket_store invalid_token value o.wf)

  pub known_after :
      Made hf b o value good t b'
      → (j : ℕ) → has_bucket b.hash_bucket j ≡ true
      → has_bucket b'.hash_bucket j ≡ true
  known_after (found x y z) j k = rw (← z) k
  known_after (fresh x c p n y) j k =
      ground
        (arith, create_token-has_bucket b.hash_bucket (hf value) t b'.hash_bucket o.words c good j)
  known_after (exhausted x c p) j k = ground (
    arith,
    create_token-has_bucket b.hash_bucket (hf value) invalid_token b'.hash_bucket o.words c good j,
  )

  pub digit_after :
      Made hf b o value good t b'
      → (h k : ℕ) → digit b.hash_bucket h k ≡ 1
      → digit b'.hash_bucket h k ≡ 1
  digit_after (found x y z) h k d = rw (← z) d
  digit_after (fresh x c p n y) h k d = omega (
    arith,
    create_token-digit-le b.hash_bucket (hf value) t b'.hash_bucket o.words c h k,
    digit-le-one b'.hash_bucket h k,
  )
  digit_after (exhausted x c p) h k d = omega (
    arith,
    create_token-digit-le b.hash_bucket (hf value) invalid_token b'.hash_bucket o.words c h k,
    digit-le-one b'.hash_bucket h k,
  )

  -- What the returned token is.
  pub new_hashed : Made hf b o value good t b' → is_valid t ≡ true → t.id ≡ hf value
  new_hashed (found x y z) v = o.hashed t value y x
  new_hashed (fresh x c p n y) v =
      of_created (create_token-Created b.hash_bucket (hf value) t b'.hash_bucket o.words c x)
    where
      of_created : Created b.hash_bucket (hf value) t b'.hash_bucket → t.id ≡ hf value
      of_created (first z n d) = ap (λ (r : HashToken). r.id) z
      of_created (collision k l z f d) = ap (λ (r : HashToken). r.id) z
  new_hashed (exhausted x c p) v = absurd (false≢true (sym x ∙ v))

  pub new_known :
      Made hf b o value good t b' → is_valid t ≡ true → has_bucket b'.hash_bucket (hf value) ≡ true
  new_known (found x y z) v = rw (← z, ← o.hashed t value y x) (o.known t value y x)
  new_known (fresh x c p n y) v = ground (
    arith,
    create_token-has_bucket b.hash_bucket (hf value) t b'.hash_bucket o.words c good (hf value),
  )
  new_known (exhausted x c p) v = absurd (false≢true (sym x ∙ v))

  pub new_slot :
      Made hf b o value good t b'
      → (h k : ℕ) → k < 31
      → record { bucket = slot_id k; id = h } ≡ t
      → is_valid t ≡ true
      → digit b'.hash_bucket h k ≡ 1
  new_slot (found x y z) h k l at v = rw (← z) (o.slots h k value l (rw at y))
  new_slot (fresh x c p n y) h k l at v =
      of_created (create_token-Created b.hash_bucket (hf value) t b'.hash_bucket o.words c x)
    where
      of_created : Created b.hash_bucket (hf value) t b'.hash_bucket → digit b'.hash_bucket h k ≡ 1
      of_created (first z n d) = absurd (
          false≢true (
            sym (slot_id-ne-zero k (omega arith))
            ∙ (eqb_iff (slot_id k) 0).1 (ap (λ (r : HashToken). r.bucket) (at ∙ z))))
      of_created (collision j m z f d) =
          let same_hash = ap (λ (r : HashToken). r.id) (at ∙ z) in
          let same_slot = ap (λ (r : HashToken). r.bucket) (at ∙ z) in
          ground (
            arith,
            d h k,
            slot_id-injective k j (omega arith) (omega arith),
            eqb_iff (slot_id k) (slot_id j),
            eqb_iff (hf value) h,
            eqb_iff k j,
          )
  new_slot (exhausted x c p) h k l at v = absurd (false≢true (sym x ∙ v))

  pub new_only :
      Made hf b o value good t b'
      → (s : HashToken) → Stored b s value
      → is_valid s ≡ true
      → is_valid t ≡ true
      → s ≡ t
  new_only (found x y z) s g good_s v = o.distinct s t value g y good_s x
  new_only (fresh x c p n y) s g good_s v = absurd (y s g good_s)
  new_only (exhausted x c p) s g good_s v = absurd (false≢true (sym x ∙ v))
