-- ===== src/HashBucket/Written.antt =====
-- What any call of `createToken` did to the words, and which hashes are known after it.
use mathlib.Core.Bool.{false≢true}
use mathlib.Core.Option.{none-ne-some}
use refer.Base.{
  ℕ, ◌+◌, ◌^◌, ◌<◌, ◌≤◌, ◌≡◌, sym, ap, ◌∙◌, arith, true, false, none, some, eqb, eqb_iff, nat_eq,
  if◌then◌else◌, Bool-cases, Option-cases, inl, inr,
}
use refer.Base.Table.{find, put, find-put}
use refer.Word.{first_free, max_word}
use refer.Word.Digits.{bit-le-one, add-pow-lt}
use refer.HashToken.{invalid_token, HashToken, invalid_hash_id, is_valid}
use refer.HashToken.Slot.{slot_id, add_to_bucket-lowest}
use refer.HashBucket.{HashBucket, create_token, has_bucket}
use refer.HashBucket.Digit.{
  digit, IsWords, put-IsWords, digit-put, digit-absent, digit-present, create_token_full,
  collide-words,
}

-- What any call did to the words.
pub data Written (b : HashBucket) (h : ℕ) (b' : HashBucket) : Type 0 where
  same : eqb h invalid_hash_id ≡ true → b ≡ b' → Written b h b'
  added : find h b.words ≡ none → b'.words ≡ put h 0 b.words → Written b h b'
  taken :
      (w : ℕ)
      → find h b.words ≡ some w
      → w < max_word
      → b'.words ≡ put h (w + 2 ^ first_free 32 w) b.words
      → Written b h b'

create_token-Written :
    (b : HashBucket) (h : ℕ) (t : HashToken) (b' : HashBucket)
    → IsWords b
    → create_token b h ≡ some (t, b')
    → Written b h b'
unfolding create_token
create_token-Written b h t b' words c = elim (Bool-cases (eqb h invalid_hash_id)) [
  | inl bad ↦ same bad (ground arith)
  | inr v ↦ elim (Option-cases (find h b.words)) [
    | inl e ↦ added e (ground arith)
    | inr (w, e) ↦ elim (Bool-cases (eqb w max_word)) [
      | inl full ↦
          let m : find h b.words ≡ some max_word = e ∙ ap some ((eqb_iff w max_word).0 full) in
          absurd (none-ne-some (t, b') (sym (create_token_full b h v m) ∙ c))
      | inr room ↦
          let l : w < max_word = ground (arith, words h w e) in
          taken w e l (
            collide-words b h w (w + 2 ^ first_free 32 w) (slot_id (first_free 32 w)) t b'
              (add_to_bucket-lowest w l).3 (rw (v, e, create_token) at c))
    ]
  ]
]

Written-IsWords :
    (b : HashBucket) (h : ℕ) (b' : HashBucket) → IsWords b → Written b h b' → IsWords b'
Written-IsWords b h b' words (same bad e) = rw (← e) words
Written-IsWords b h b' words (added e p) = put-IsWords b b' h 0 words (omega arith) p
Written-IsWords b h b' words (taken w e l p) =
    let low = add_to_bucket-lowest w l in
    put-IsWords b b' h (w + 2 ^ first_free 32 w) words
      (add-pow-lt 32 (first_free 32 w) w low.0 (omega arith) low.1) p

-- A call leaves words.
pub create_token-IsWords :
    (b : HashBucket) (h : ℕ) (t : HashToken) (b' : HashBucket)
    → IsWords b
    → create_token b h ≡ some (t, b')
    → IsWords b'
create_token-IsWords b h t b' words c =
    Written-IsWords b h b' words (create_token-Written b h t b' words c)

Written-digit-le :
    (b : HashBucket) (h : ℕ) (b' : HashBucket)
    → Written b h b'
    → (j i : ℕ) → digit b j i ≤ digit b' j i
Written-digit-le b h b' (same bad e) j i = rw (← e) (omega arith)
Written-digit-le b h b' (added e p) j i =
    ground (arith, digit-put b b' h 0 p j i, digit-absent b h i e, eqb_iff h j)
Written-digit-le b h b' (taken w e l p) j i = ground (
  arith,
  digit-put b b' h (w + 2 ^ first_free 32 w) p j i,
  digit-present b h w e i,
  (add_to_bucket-lowest w l).4 i,
  bit-le-one i w,
  eqb_iff h j,
)

-- No call clears a digit.
pub create_token-digit-le :
    (b : HashBucket) (h : ℕ) (t : HashToken) (b' : HashBucket)
    → IsWords b
    → create_token b h ≡ some (t, b')
    → (j i : ℕ) → digit b j i ≤ digit b' j i
create_token-digit-le b h t b' words c =
    Written-digit-le b h b' (create_token-Written b h t b' words c)

Written-has_bucket :
    (b : HashBucket) (h : ℕ) (b' : HashBucket)
    → Written b h b'
    → eqb h invalid_hash_id ≡ false
    → (j : ℕ) → has_bucket b' j ≡ (if eqb h j then true else has_bucket b j)
unfolding has_bucket
Written-has_bucket b h b' (same bad e) v j = absurd (false≢true (sym v ∙ bad))
Written-has_bucket b h b' (added e p) v j = ground (arith, find-put h j 0 b.words, ap (find j) p)
Written-has_bucket b h b' (taken w e l p) v j =
    ground (arith, find-put h j (w + 2 ^ first_free 32 w) b.words, ap (find j) p)

-- A call for a valid hash makes the hash known, and no other.
pub create_token-has_bucket :
    (b : HashBucket) (h : ℕ) (t : HashToken) (b' : HashBucket)
    → IsWords b
    → create_token b h ≡ some (t, b')
    → eqb h invalid_hash_id ≡ false
    → (j : ℕ) → has_bucket b' j ≡ (if eqb h j then true else has_bucket b j)
create_token-has_bucket b h t b' words c =
    Written-has_bucket b h b' (create_token-Written b h t b' words c)

-- A call for the invalid hash changes nothing.
create_token_invalid :
    (b : HashBucket) (h : ℕ) (t : HashToken) (b' : HashBucket)
    → create_token b h ≡ some (t, b')
    → eqb h invalid_hash_id ≡ true
    → (b ≡ b') × (is_valid t ≡ false)
unfolding create_token is_valid
create_token_invalid b h t b' c bad = ground arith

-- A call that hands out no valid token returns `HashToken()`.
pub create_token-invalid_token :
    (b : HashBucket) (h : ℕ) (t : HashToken) (b' : HashBucket)
    → create_token b h ≡ some (t, b')
    → is_valid t ≡ false
    → t ≡ invalid_token
unfolding create_token is_valid
create_token-invalid_token b h t b' c bad = ground arith
