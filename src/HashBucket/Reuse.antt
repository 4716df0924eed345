-- ===== src/HashBucket/Reuse.antt =====
-- `HashBucket::createToken` after the last collision of a hash was given back.
use refer.Base.{ℕ, ◌≡◌, refl, sym, arith, true, false, some, [], ◌∷◌, eqb, nat_eq}
use refer.Base.Table.{find, put, erase}
use refer.Word.{bit_length, popcount}
use refer.HashToken.{
  HashToken, invalid_hash_id, is_valid, token_eq, add_to_bucket, remove_from_bucket,
}
use refer.HashBucket.{HashBucket, empty, create_token, remove_token}
use refer.HashBucket.Holders.{Held, Reach, start, next, create, release, gain, lose}

module _ (h : ℕ) where
  abbrev pub any : HashToken
  any = record { bucket = 0; id = h }

  abbrev pub collided : HashToken
  collided = record { bucket = 1; id = h }

  abbrev pub once : HashBucket
  once = record { size = 1; collisions = 0; buckets = 0; errors = 0; words = (h, 0) ∷ [] }

  abbrev pub twice : HashBucket
  twice = record { size = 2; collisions = 1; buckets = 1; errors = 0; words = (h, 1) ∷ [] }

  abbrev pub back : HashBucket
  back = record { size = 1; collisions = 1; buckets = 1; errors = 0; words = [] }

  abbrev pub again : HashBucket
  again = record { size = 2; collisions = 1; buckets = 1; errors = 0; words = (h, 0) ∷ [] }

  abbrev two : Held
  two = gain any (lose collided (gain collided (gain any (λ _. 0))))

  same : eqb h h ≡ true
  same = ground arith

module _ (h : ℕ) (v : eqb h invalid_hash_id ≡ false) where
  pub create_once : create_token empty h ≡ some (any h, once h)
  unfolding create_token find put
  create_once = rw v

  pub create_twice : create_token (once h) h ≡ some (collided h, twice h)
  unfolding create_token find put add_to_bucket popcount
  create_twice = simp (v, same h)

  pub remove_collided : remove_token (twice h) (collided h) ≡ back h
  unfolding remove_token find put erase remove_from_bucket is_valid bit_length
  remove_collided = simp (v, same h)

  pub create_again : create_token (back h) h ≡ some (any h, again h)
  unfolding create_token find put
  create_again = rw v

  -- Of every valid hash there is a history at whose end two holders have the token of bucket 0: one
  -- from before the last collision was given back, one from after.
  pub two_holders :
      (b : HashBucket) × (held : Held) × Reach b held × (held (record { bucket = 0; id = h }) ≡ 2)
  unfolding token_eq is_valid
  two_holders = (
    again h,
    two h,
    next
        (next
          (next (next start (create h (any h) create_once (simp v) (λ s. refl)))
            (create h (collided h) create_twice (simp v) (λ s. refl)))
          (release (collided h) (simp (same h) (omega arith)) (sym remove_collided) (λ s. refl)))
        (create h (any h) create_again (simp v) (λ s. refl)),
    simp (same h),
  )
