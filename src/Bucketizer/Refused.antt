-- ===== src/Bucketizer/Refused.antt =====
-- `ValueIdBucketizer::make` after the removal of the last collision of a hash.
use refer.Base.{ℕ, ◌≡◌, arith, true, false, some, [], ◌∷◌, Eq, ◌==◌, eqb, nat_eq}
use refer.Base.Table.{find, put, erase}
use refer.HashToken.{HashToken, invalid_bucket, invalid_hash_id, invalid_token}
use refer.HashBucket.{has_bucket}
use refer.HashBucket.Reuse.{
  once, twice, back, again, create_once, create_twice, remove_collided, create_again,
}
use refer.TokenMap
use refer.Bucketizer.{Bucketizer, new, has_id, find_by_id, make_new, make, get, remove}

module _ {ℓ} {V : Type ℓ} (h : ℕ) (v w : V) where
  abbrev pub one : Bucketizer V
  one = record { hash_bucket = once h; bucket_store = (0, (h, v) ∷ []) ∷ [] }

  abbrev pub both : Bucketizer V
  both = record { hash_bucket = twice h; bucket_store = (0, (h, v) ∷ []) ∷ (1, (h, w) ∷ []) ∷ [] }

  abbrev left : Bucketizer V
  left = record { hash_bucket = back h; bucket_store = (0, (h, v) ∷ []) ∷ [] }

  abbrev after : Bucketizer V
  after = record { hash_bucket = again h; bucket_store = (0, (h, v) ∷ []) ∷ [] }

  same : eqb h h ≡ true
  same = ground arith

module _ {ℓ} {V : Type ℓ} ⦃e : Eq V⦄ (hf : V → ℕ) (h : ℕ) (v w : V) (hv : hf v ≡ h) (hw : hf w ≡ h)
    (differ : (v == w) ≡ false) (good : eqb h invalid_hash_id ≡ false) where
  pub first_call : make hf new v ≡ some (record { bucket = 0; id = h }, one h v w)
  unfolding make make_new find_by_id has_bucket TokenMap.insert find put
  first_call = rw (hv, make_new, create_once h good)

  search_w : find_by_id ((0, (h, v) ∷ []) ∷ []) h w ≡ invalid_bucket
  unfolding find_by_id has_id
  search_w = ground (arith, same h v w)

  known_once : has_bucket (once h) h ≡ true
  unfolding has_bucket find
  known_once = simp (same h v w)

  pub second_call : make hf (one h v w) w ≡ some (record { bucket = 1; id = h }, both h v w)
  unfolding make make_new TokenMap.insert find put
  second_call = rw (hw, make, known_once, search_w, make_new, create_twice h good)

  remove_w : remove (both h v w) (record { bucket = 1; id = h }) ≡ left h v w
  unfolding remove TokenMap.remove find put erase
  remove_w = simp (remove_collided h good, same h v w)

  make_again : make hf (left h v w) v ≡ some (invalid_token, after h v w)
  unfolding make make_new find_by_id has_bucket TokenMap.insert find put
  make_again = rw (hv, make_new, create_again h good) (simp (same h v w))

  -- Of two ids with one valid hash, after the second was made and removed, the first is still stored
  -- under its token, and `make` answers it with the invalid token.
  pub make_refused :
      (b1 b2 b3 : Bucketizer V) × (s t : HashToken) × (make hf new v ≡ some (s, b1))
      × (make hf b1 w ≡ some (t, b2))
      × (get (remove b2 t) s ≡ some v)
      × (make hf (remove b2 t) v ≡ some (invalid_token, b3))
  unfolding get TokenMap.get find
  make_refused = (
    one h v w,
    both h v w,
    after h v w,
    record { bucket = 0; id = h },
    record { bucket = 1; id = h },
    first_call,
    second_call,
    rw remove_w (simp (same h v w)),
    rw remove_w make_again,
  )
