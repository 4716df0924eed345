-- ===== src/TokenMap/Size.antt =====
-- `HashTokenMap::size` after the operations.
use refer.Base.{
  ℕ, ◌+◌, ◌≡◌, refl, arith, true, none, List, [], ◌∷◌, if◌then◌else◌, length, nat_eq, eqb_iff,
}
use mathlib.Core.Bool.{false≢true}
use refer.Base.Table.{
  Table, find-put, find-erase, find, put, erase, IsUnique, length-put, length-erase, erase-absent,
  put-IsUnique, erase-IsUnique,
}
use refer.HashToken.{HashToken}
use refer.TokenMap.{TokenMap, inner, is_empty, has, insert, remove, size}
use refer.TokenMap.Lookup.{get-inner, has-get, find-nil}

length-is_empty {ℓ} : {A : Type ℓ} (l : List A) → is_empty l ≡ true → length l ≡ 0
unfolding is_empty
length-is_empty [] e = refl
length-is_empty (x ∷ l) e = absurd (false≢true e)

module _ {ℓ} {T : Type ℓ} where
  -- No bucket stands twice, and no hash twice in a bucket.
  abbrev pub IsWf : TokenMap T → Type ℓ
  IsWf [] = Unit
  IsWf ((b, ids) ∷ m) = (find b m ≡ none) × IsUnique ids × IsWf m

  size-put :
      (b : ℕ) (ids : Table ℕ T) (m : TokenMap T)
      → size (put b ids m) + length (inner (find b m)) ≡ size m + length ids
  unfolding size put find
  size-put b ids [] = omega arith
  size-put b ids ((j, js) ∷ m) = ground (arith, size-put b ids m)

  size-erase :
      (b : ℕ) (m : TokenMap T) → IsWf m → size (erase b m) + length (inner (find b m)) ≡ size m
  unfolding size erase find
  size-erase b [] w = omega arith
  size-erase b ((j, js) ∷ m) w = ground (arith, size-erase b m, eqb_iff j b, erase-absent b m)

  inner-IsUnique : (b : ℕ) (m : TokenMap T) → IsWf m → IsUnique (inner (find b m))
  unfolding find
  inner-IsUnique b [] w = tt
  inner-IsUnique b ((j, js) ∷ m) w = ground (arith, inner-IsUnique b m)

  -- An insertion that says true adds one element, any other none.
  size-insert :
      (m : TokenMap T) (t : HashToken) (x : T)
      → size (insert m t x).1 ≡ (if (insert m t x).0 then size m + 1 else size m)
  unfolding insert
  size-insert m t x =
      let ids = inner (find t.bucket m) in
      ground (
        arith,
        size-put t.bucket ids m,
        size-put t.bucket (put t.id x ids) m,
        length-put t.id x ids,
      )

  -- A removal drops the one element of its token.
  size-remove :
      (m : TokenMap T) (t : HashToken)
      → IsWf m
      → size (remove m t) + (if has m t then 1 else 0) ≡ size m
  unfolding remove
  size-remove m t w =
      let ids = inner (find t.bucket m) in
      ground (
        arith,
        has-get m t,
        get-inner m t,
        find-nil {T = T} t.id,
        size-erase t.bucket m w,
        size-put t.bucket (erase t.id ids) m,
        length-erase t.id ids (inner-IsUnique t.bucket m w),
        length-is_empty (erase t.id ids),
      )

  put-IsWf : (b : ℕ) (ids : Table ℕ T) (m : TokenMap T) → IsUnique ids → IsWf m → IsWf (put b ids m)
  unfolding put find
  put-IsWf b ids [] u w = (refl, u, tt)
  put-IsWf b ids ((j, js) ∷ m) u w =
      ground (arith, eqb_iff j b, eqb_iff b j, find-put b j ids m, put-IsWf b ids m)

  erase-IsWf : (b : ℕ) (m : TokenMap T) → IsWf m → IsWf (erase b m)
  unfolding erase
  erase-IsWf b [] w = tt
  erase-IsWf b ((j, js) ∷ m) w = ground (arith, find-erase b j m, erase-IsWf b m)

  -- The operations keep the tables free of duplicates.
  pub insert-IsWf : (m : TokenMap T) (t : HashToken) (x : T) → IsWf m → IsWf (insert m t x).1
  unfolding insert
  insert-IsWf m t x w =
      let ids = inner (find t.bucket m) in
      let u = inner-IsUnique t.bucket m w in
      ground (
        arith,
        put-IsWf t.bucket ids m u,
        put-IsWf t.bucket (put t.id x ids) m (put-IsUnique t.id x ids u),
      )

  remove-IsWf : (m : TokenMap T) (t : HashToken) → IsWf m → IsWf (remove m t)
  unfolding remove
  remove-IsWf m t w =
      let ids = inner (find t.bucket m) in
      ground (
        arith,
        erase-IsWf t.bucket m,
        put-IsWf t.bucket (erase t.id ids) m
            (erase-IsUnique t.id ids (inner-IsUnique t.bucket m w)),
      )
