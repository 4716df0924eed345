-- ===== src/HashBucket/Digit.antt =====
-- What `createToken` and `removeToken` do to the digits of every hash.
use refer.Base.{
  ℕ, ◌+◌, ◌^◌, ◌<◌, ◌≤◌, ◌≡◌, sym, ap, ◌∙◌, arith, true, false, ◌&&◌, Option, none, some, eqb,
  eqb_iff, nat_eq, if◌then◌else◌, Bool-cases, Option-cases, inl, inr,
}
use mathlib.Core.Bool.{false≢true}
use mathlib.Core.Option.{none-ne-some}
use refer.Base.Table.{find, put, erase, find-put, find-erase}
use refer.Word.{bit, first_free, max_word}
use refer.Word.Digits.{bit-zero, bit-le-one}
use refer.HashToken.{HashToken, invalid_hash_id, invalid_bucket, is_valid, add_to_bucket}
use refer.HashToken.Slot.{slot_id, add_to_bucket-lowest, add_to_bucket_full}
use refer.HashBucket.{HashBucket, create_token, collide}

-- Digit `k` of the word of `h`, 0 where there is no word.
digit_of : Option ℕ → ℕ → ℕ
digit_of none k = 0
digit_of (some w) k = bit k w

pub digit : HashBucket → ℕ → ℕ → ℕ
digit b h k = digit_of (find h b.words) k

-- All words are words.
abbrev pub IsWords : HashBucket → Type 0
IsWords b = (h w : ℕ) → find h b.words ≡ some w → w < 2 ^ 32

-- What a valid token of a call did: the first token of a hash stands in bucket 0 and has no digit,
-- any other took a digit below 31 that was free.
pub data Created (b : HashBucket) (h : ℕ) (t : HashToken) (b' : HashBucket) : Type 0 where
  first :
      t ≡ record { bucket = 0; id = h }
      → find h b.words ≡ none
      → ((j i : ℕ) → digit b' j i ≡ digit b j i)
      → Created b h t b'
  collision :
      (k : ℕ)
      → k < 31
      → t ≡ record { bucket = slot_id k; id = h }
      → digit b h k ≡ 0
      → ((j i : ℕ) → digit b' j i ≡ (if eqb h j && eqb i k then 1 else digit b j i))
      → Created b h t b'

slot_id_last : (k : ℕ) → k < 32 → eqb (slot_id k) invalid_bucket ≡ false → k < 31
slot_id_last k l e = elim (Bool-cases (eqb k 31)) [
  | inl p ↦ let q : k ≡ 31 = ground arith in absurd (false≢true (sym (rw q at e)))
  | inr p ↦ ground arith
]

-- The digits after the word of `h` was replaced.
pub digit-put :
    (b b' : HashBucket) (h w : ℕ)
    → b'.words ≡ put h w b.words
    → (j i : ℕ) → digit b' j i ≡ (if eqb h j then bit i w else digit b j i)
unfolding digit digit_of
digit-put b b' h w e j i = rw (e, find-put h j w b.words) (ground arith)

pub digit-absent : (b : HashBucket) (j i : ℕ) → find j b.words ≡ none → digit b j i ≡ 0
unfolding digit digit_of
digit-absent b j i e = rw (e, digit_of)

pub digit-present :
    (b : HashBucket) (j w : ℕ) → find j b.words ≡ some w → (i : ℕ) → digit b j i ≡ bit i w
unfolding digit digit_of
digit-present b j w e i = rw (e, digit_of)

create_token_first :
    (b : HashBucket) (h : ℕ) (t : HashToken) (b' : HashBucket)
    → eqb h invalid_hash_id ≡ false
    → find h b.words ≡ none
    → create_token b h ≡ some (t, b')
    → Created b h t b'
unfolding create_token
create_token_first b h t b' v e c =
    let w : b'.words ≡ put h 0 b.words = ground arith in
    first (ground arith) e (λ j i.
      digit-put b b' h 0 w j i
      ∙ ground (
        arith,
        bit-zero i,
        digit-absent b j i,
        eqb_iff h j,
        ap (λ (n : ℕ). find n b.words) {x = h} {y = j},
      ))

collide_lem :
    (b : HashBucket) (h w w' s : ℕ) (t : HashToken) (b' : HashBucket)
    → add_to_bucket w ≡ some (w', s)
    → collide b h w ≡ some (t, b')
    → is_valid t ≡ true
    → (eqb s invalid_bucket ≡ false)
      × (t ≡ record { bucket = s; id = h })
      × (b'.words ≡ put h w' b.words)
unfolding collide is_valid
collide_lem b h w w' s t b' a c good = ground arith

create_token_collision :
    (b : HashBucket) (h w : ℕ) (t : HashToken) (b' : HashBucket)
    → eqb h invalid_hash_id ≡ false
    → find h b.words ≡ some w
    → w < max_word
    → create_token b h ≡ some (t, b')
    → is_valid t ≡ true
    → Created b h t b'
unfolding create_token
create_token_collision b h w t b' v e l c good =
    let k = first_free 32 w in
    let low = add_to_bucket-lowest w l in
    let run : collide b h w ≡ some (t, b') = rw (v, e, create_token) at c in
    let out = collide_lem b h w (w + 2 ^ k) (slot_id k) t b' low.3 run good in
    let here : (i : ℕ) → digit b h i ≡ bit i w = digit-present b h w e in
    collision k (slot_id_last k low.0 out.0) out.1 (here k ∙ low.1) (λ j i.
      digit-put b b' h (w + 2 ^ k) out.2 j i
      ∙ ground (arith, low.4 i, here i, eqb_iff h j, ap (λ (n : ℕ). digit b n i) {x = h} {y = j}))

pub create_token_full :
    (b : HashBucket) (h : ℕ)
    → eqb h invalid_hash_id ≡ false
    → find h b.words ≡ some max_word
    → create_token b h ≡ none
unfolding create_token
create_token_full b h v e = rw (v, e, create_token) (rw (add_to_bucket_full, collide))

-- A valid token of a call on words is accounted for.
pub create_token-Created :
    (b : HashBucket) (h : ℕ) (t : HashToken) (b' : HashBucket)
    → IsWords b
    → create_token b h ≡ some (t, b')
    → is_valid t ≡ true
    → Created b h t b'
unfolding create_token is_valid
create_token-Created b h t b' words c good = elim (Bool-cases (eqb h invalid_hash_id)) [
  | inl bad ↦ absurd (false≢true (ground arith))
  | inr v ↦ elim (Option-cases (find h b.words)) [
    | inl e ↦ create_token_first b h t b' v e c
    | inr (w, e) ↦ elim (Bool-cases (eqb w max_word)) [
      | inl full ↦
          let m : find h b.words ≡ some max_word = e ∙ ap some ((eqb_iff w max_word).0 full) in
          absurd (none-ne-some (t, b') (sym (create_token_full b h v m) ∙ c))
      | inr room ↦ create_token_collision b h w t b' v e (ground (arith, words h w e)) c good
    ]
  ]
]

pub put-IsWords :
    (b b' : HashBucket) (h w : ℕ) → IsWords b → w < 2 ^ 32 → b'.words ≡ put h w b.words → IsWords b'
put-IsWords b b' h w words l e j x f =
    let g : (if eqb h j then some w else find j b.words) ≡ some x =
      sym (find-put h j w b.words) ∙ sym (ap (find j) e) ∙ f in
    ground (arith, words j x)

pub collide-words :
    (b : HashBucket) (h w w' s : ℕ) (t : HashToken) (b' : HashBucket)
    → add_to_bucket w ≡ some (w', s)
    → collide b h w ≡ some (t, b')
    → b'.words ≡ put h w' b.words
unfolding collide
collide-words b h w w' s t b' a c = ground arith

pub digit-erase :
    (b b' : HashBucket) (h : ℕ)
    → b'.words ≡ erase h b.words
    → (j i : ℕ) → digit b' j i ≡ (if eqb h j then 0 else digit b j i)
unfolding digit digit_of
digit-erase b b' h e j i = rw (e, find-erase h j b.words) (ground arith)

pub digit-le-one : (b : HashBucket) (h k : ℕ) → digit b h k ≤ 1
digit-le-one b h k = elim (Option-cases (find h b.words)) [
  | inl e ↦ rw (digit-absent b h k e) (omega arith)
  | inr (w, e) ↦ rw (digit-present b h w e k) (bit-le-one k w)
]
