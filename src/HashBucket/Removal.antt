-- ===== src/HashBucket/Removal.antt =====
-- What `removeToken` does to the digits of every hash.
use refer.Base.{
  ℕ, ◌^◌, ◌<◌, ◌≡◌, refl, sym, ap, ◌∙◌, arith, true, false, ◌&&◌, none, some, eqb, eqb_iff, nat_eq,
  if◌then◌else◌, Bool-cases, Option-cases, inl, inr,
}
use refer.Base.Table.{find, put, erase, find-erase}
use refer.Word.{bit}
use refer.Word.Digits.{bit-zero}
use refer.HashToken.{HashToken, invalid_hash_id, is_valid, remove_from_bucket}
use refer.HashToken.Slot.{slot_id, slot_id-valid, bit-remove_from_bucket, remove_from_bucket-lt}
use refer.HashBucket.{HashBucket, remove_token}
use refer.HashBucket.Digit.{
  digit, IsWords, put-IsWords, digit-put, digit-erase, digit-absent, digit-present,
}

-- The word of `h` replaced by `w`, or dropped if `w` is 0.
abbrev Shrinks : HashBucket → ℕ → ℕ → HashBucket → Type 0
Shrinks b h w b' = b'.words ≡ (if eqb w 0 then erase h b.words else put h w b.words)

digit-Shrinks :
    (b b' : HashBucket) (h w : ℕ)
    → Shrinks b h w b'
    → (j i : ℕ) → digit b' j i ≡ (if eqb h j then bit i w else digit b j i)
digit-Shrinks b b' h w e j i = elim (Bool-cases (eqb w 0)) [
  | inl z ↦
      let w0 : w ≡ 0 = (eqb_iff w 0).0 z in
      digit-erase b b' h (rw z at e) j i ∙ rw w0 (ground (arith, bit-zero i))
  | inr p ↦ digit-put b b' h w (rw p at e) j i
]

remove_token-Shrinks :
    (b : HashBucket) (t : HashToken) (w : ℕ)
    → is_valid t ≡ true
    → find t.id b.words ≡ some w
    → Shrinks b t.id (remove_from_bucket w t.bucket) (remove_token b t)
unfolding remove_token
remove_token-Shrinks b t w v e = rw (v, e, remove_token)

remove_token_invalid : (b : HashBucket) (t : HashToken) → is_valid t ≡ false → remove_token b t ≡ b
unfolding remove_token
remove_token_invalid b t e = rw e

remove_token-absent :
    (b : HashBucket) (t : HashToken) → find t.id b.words ≡ none → remove_token b t ≡ b
unfolding remove_token
remove_token-absent b t e = ground arith

remove_from_bucket_any : (w : ℕ) → remove_from_bucket w 0 ≡ w
unfolding remove_from_bucket
remove_from_bucket_any w = refl

valid_any :
    (h : ℕ) → eqb h invalid_hash_id ≡ false → is_valid (record { bucket = 0; id = h }) ≡ true
unfolding is_valid
valid_any h v = ground arith

-- Removing a token of bucket 0 keeps every digit.
pub digit-remove_token_any :
    (b : HashBucket) (h j i : ℕ)
    → eqb h invalid_hash_id ≡ false
    → digit (remove_token b (record { bucket = 0; id = h })) j i ≡ digit b j i
digit-remove_token_any b h j i v = elim (Option-cases (find h b.words)) [
  | inl e ↦
      ap (λ (n : HashBucket). digit n j i) (remove_token-absent b (record { bucket = 0; id = h }) e)
  | inr (w, e) ↦
      digit-Shrinks b _ h (remove_from_bucket w 0)
        (remove_token-Shrinks b (record { bucket = 0; id = h }) w (valid_any h v) e) j i
      ∙ rw (remove_from_bucket_any w) (
          ground (
            arith,
            digit-present b h w e i,
            eqb_iff h j,
            ap (λ (n : ℕ). digit b n i) {x = h} {y = j},
          ))
]

valid_slot :
    (h k : ℕ)
    → eqb h invalid_hash_id ≡ false
    → k < 31
    → is_valid (record { bucket = slot_id k; id = h }) ≡ true
unfolding is_valid
valid_slot h k v l = rw (slot_id-valid k l, v)

-- Removing slot `k` of a hash clears that digit and keeps the others.
pub digit-remove_token_slot :
    (b : HashBucket) (h k j i : ℕ)
    → IsWords b
    → eqb h invalid_hash_id ≡ false
    → k < 31
    → i < 32
    → digit (remove_token b (record { bucket = slot_id k; id = h })) j i
      ≡ (if eqb h j && eqb i k then 0 else digit b j i)
digit-remove_token_slot b h k j i words v l li = elim (Option-cases (find h b.words)) [
  | inl e ↦
      ap (λ (n : HashBucket). digit n j i)
        (remove_token-absent b (record { bucket = slot_id k; id = h }) e)
      ∙ ground
          (arith, digit-absent b h i e, eqb_iff h j, ap (λ (n : ℕ). digit b n i) {x = h} {y = j})
  | inr (w, e) ↦
      digit-Shrinks b _ h (remove_from_bucket w (slot_id k))
        (remove_token-Shrinks b (record { bucket = slot_id k; id = h }) w (valid_slot h k v l) e) j
        i
      ∙ rw (bit-remove_from_bucket w k i (words h w e) (omega arith) li) (
          ground (
            arith,
            digit-present b h w e i,
            eqb_iff h j,
            ap (λ (n : ℕ). digit b n i) {x = h} {y = j},
          ))
]

erase-IsWords : (b b' : HashBucket) (h : ℕ) → IsWords b → b'.words ≡ erase h b.words → IsWords b'
erase-IsWords b b' h words e j x f =
    let g : (if eqb h j then none else find j b.words) ≡ some x =
      sym (find-erase h j b.words) ∙ sym (ap (find j) e) ∙ f in
    ground (arith, words j x)

Shrinks-IsWords :
    (b b' : HashBucket) (h w : ℕ) → IsWords b → w < 2 ^ 32 → Shrinks b h w b' → IsWords b'
Shrinks-IsWords b b' h w words l e = elim (Bool-cases (eqb w 0)) [
  | inl z ↦ erase-IsWords b b' h words (rw z at e)
  | inr p ↦ put-IsWords b b' h w words l (rw p at e)
]

-- A removal leaves words.
pub remove_token-IsWords : (b : HashBucket) (t : HashToken) → IsWords b → IsWords (remove_token b t)
remove_token-IsWords b t words = elim (Bool-cases (is_valid t)) [
  | inr bad ↦ rw (remove_token_invalid b t bad) words
  | inl v ↦ elim (Option-cases (find t.id b.words)) [
    | inl e ↦ rw (remove_token-absent b t e) words
    | inr (w, e) ↦
        Shrinks-IsWords b (remove_token b t) t.id (remove_from_bucket w t.bucket) words
          (remove_from_bucket-lt w t.bucket (words t.id w e)) (remove_token-Shrinks b t w v e)
  ]
]
