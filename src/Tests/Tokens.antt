-- ===== src/Tests/Tokens.antt =====
-- Words, tokens, hash buckets and the bucketizer at concrete inputs.
use refer.Base.{ℕ, ◌+◌, ◌^◌, ◌<◌, ◌≡◌, refl, arith, true, some, nat_eq}
use refer.Word.{first_free}
use refer.HashToken.{HashToken, invalid_token, is_valid, token_eq, token_lt, remove_from_bucket}
use refer.HashToken.Slot.{slot_id, add_to_bucket_lem, remove_from_bucket-add_to_bucket}
use refer.HashToken.Transport.{token_lt_both}
use refer.HashBucket.{HashBucket}
use refer.HashBucket.Digit.{digit, IsWords, Created, create_token-Created}
use refer.HashBucket.Holders.{Held, Reach, start, next, create, gain, one_holder}
use refer.HashBucket.Reuse.{once, twice, any, collided, create_once, create_twice, two_holders}
use refer.Bucketizer.{Bucketizer, new, make, get, remove}
use refer.Bucketizer.Made.{IsOrdered}
use refer.Bucketizer.Make.{new-IsOrdered, make-IsOrdered, make-get, make-get_kept, make-make}
use refer.Bucketizer.Refused.{one, both, first_call, second_call, make_refused}

-- Every id has the hash 7.
abbrev seven : ℕ → ℕ
seven v = 7

abbrev first : HashToken
first = record { bucket = 0; id = 7 }

abbrev second : HashToken
second = record { bucket = 1; id = 7 }

abbrev b1 : Bucketizer ℕ
b1 = one 7 5 9

abbrev b2 : Bucketizer ℕ
b2 = both 7 5 9

first_ok : is_valid first ≡ true
unfolding is_valid
first_ok = refl

made_five : make seven new 5 ≡ some (first, b1)
made_five = first_call seven 7 5 9 refl refl refl refl

made_nine : make seven b1 9 ≡ some (second, b2)
made_nine = second_call seven 7 5 9 refl refl refl refl

b1-IsOrdered : IsOrdered seven b1
b1-IsOrdered = make-IsOrdered seven new (new-IsOrdered seven) 5 refl first b1 made_five

make-IsOrdered_example : IsOrdered seven b2
make-IsOrdered_example = make-IsOrdered seven b1 b1-IsOrdered 9 refl second b2 made_nine

make-get_example : get b2 second ≡ some 9
unfolding is_valid
make-get_example = make-get seven b1 b1-IsOrdered 9 refl second b2 made_nine refl

first_stored : get b1 first ≡ some 5
first_stored = make-get seven new (new-IsOrdered seven) 5 refl first b1 made_five first_ok

make-get_kept_example : get b2 first ≡ some 5
make-get_kept_example =
    make-get_kept seven b1 b1-IsOrdered 9 refl second b2 made_nine first 5 first_stored

make-make_example : make seven b2 9 ≡ some (second, b2)
unfolding is_valid
make-make_example = make-make seven b1 b1-IsOrdered 9 refl second b2 made_nine refl

make_refused_example :
    (b1 b2 b3 : Bucketizer ℕ) × (s t : HashToken) × (make seven new 5 ≡ some (s, b1))
    × (make seven b1 9 ≡ some (t, b2))
    × (get (remove b2 t) s ≡ some 5)
    × (make seven (remove b2 t) 5 ≡ some (invalid_token, b3))
make_refused_example = make_refused seven 7 5 9 refl refl refl refl

abbrev held : Held
held = gain (collided 7) (gain (any 7) (λ _. 0))

reached : Reach (twice 7) held
unfolding is_valid
reached =
    next (next start (create 7 (any 7) (create_once 7 refl) refl (λ s. refl)))
      (create 7 (collided 7) (create_twice 7 refl) refl (λ s. refl))

one_holder_example :
    (held (collided 7) ≡ 1) × ((k : ℕ) × (k < 31) × (1 ≡ slot_id k) × (digit (twice 7) 7 k ≡ 1))
unfolding token_eq
one_holder_example = one_holder (twice 7) held (collided 7) reached (omega arith) (omega arith)

two_holders_example :
    (b : HashBucket) × (held : Held) × Reach b held × (held (record { bucket = 0; id = 7 }) ≡ 2)
two_holders_example = two_holders 7 refl

once-IsWords : IsWords (once 7)
once-IsWords h w e = b1-IsOrdered.words h w e

create_token-Created_example : Created (once 7) 7 (collided 7) (twice 7)
unfolding is_valid
create_token-Created_example =
    create_token-Created (once 7) 7 (collided 7) (twice 7) once-IsWords (create_twice 7 refl) refl

remove_from_bucket-add_to_bucket_example :
    remove_from_bucket (11 + 2 ^ first_free 32 11) (slot_id (first_free 32 11)) ≡ 11
remove_from_bucket-add_to_bucket_example =
    remove_from_bucket-add_to_bucket 11 (11 + 2 ^ first_free 32 11) (slot_id (first_free 32 11))
      (omega arith) (add_to_bucket_lem 11 (omega arith))

token_lt_both_example :
    (token_lt (record { bucket = 0; id = 8 }) second ≡ true)
    × (token_lt second (record { bucket = 0; id = 8 }) ≡ true)
token_lt_both_example =
    token_lt_both (record { bucket = 0; id = 8 }) second (omega arith) (omega arith)
