-- ===== src/Bucketizer/Search.antt =====
-- `ValueIdBucketizer::findById` against the map of tokens.
use refer.Base.{
  ℕ, ◌≡◌, ◌≢◌, refl, sym, ◌∙◌, arith, true, false, none, some, [], ◌∷◌, Eq, eqb, eqb_iff,
  if◌then◌else◌, nat_eq, Bool-cases, inl, inr,
}
use mathlib.Core.Option.{none-ne-some}
use refer.Base.Table.{Table, find, IsUnique}
use refer.HashToken.{HashToken, invalid_bucket}
use refer.TokenMap
use refer.TokenMap.{TokenMap, inner}
use refer.TokenMap.Size.{IsWf}
use refer.Bucketizer.{has_id, find_by_id}

module _ {ℓ} {V : Type ℓ} ⦃e : Eq V⦄ where
  -- The inner loop decides what the table says of the hash, if no hash stands twice.
  has_id-find :
      (ids : Table ℕ V) (id : ℕ) (value : V)
      → IsUnique ids
      → has_id ids id value ≡ true
      → find id ids ≡ some value
  unfolding has_id find
  has_id-find [] id value u h = cc
  has_id-find ((j, v) ∷ ids) id value u h =
      ground (arith, e.beq_iff v value, eqb_iff j id, has_id-find ids id value)

  find-has_id :
      (ids : Table ℕ V) (id : ℕ) (value : V) → find id ids ≡ some value → has_id ids id value ≡ true
  unfolding has_id find
  find-has_id [] id value h = cc
  find-has_id ((j, v) ∷ ids) id value h =
      ground (arith, e.beq_iff v value, eqb_iff j id, find-has_id ids id value)

  pub get-nil : (t : HashToken) → TokenMap.get {T = V} [] t ≡ none
  unfolding TokenMap.get find
  get-nil t = refl

  get-cons :
      (b : ℕ) (ids : Table ℕ V) (m : TokenMap V) (t : HashToken)
      → TokenMap.get ((b, ids) ∷ m) t ≡ (if eqb b t.bucket then find t.id ids else TokenMap.get m t)
  unfolding TokenMap.get find
  get-cons b ids m t = ground arith

  get-absent :
      (m : TokenMap V) (b id : ℕ)
      → find b m ≡ none
      → TokenMap.get m (record { bucket = b; id = id }) ≡ none
  unfolding TokenMap.get
  get-absent m b id h = ground arith

  -- A bucket that is found holds the id under its hash.
  pub find_by_id-get :
      (m : TokenMap V) (id : ℕ) (value : V)
      → IsWf m
      → eqb (find_by_id m id value) invalid_bucket ≡ false
      → TokenMap.get m (record { bucket = find_by_id m id value; id = id }) ≡ some value
  unfolding find_by_id
  find_by_id-get [] id value w h = cc
  find_by_id-get ((b, ids) ∷ m) id value w h = elim (Bool-cases (has_id ids id value)) [
    | inl y ↦
        rw (y, find_by_id)
          (get-cons b ids m (record { bucket = b; id = id })
            ∙ ground (arith, has_id-find ids id value w.1 y))
    | inr n ↦
        let k = find_by_id m id value in
        let h' : eqb k invalid_bucket ≡ false = rw (n, find_by_id) at h in
        let found = find_by_id-get m id value w.2 h' in
        rw (n, find_by_id)
          (get-cons b ids m (record { bucket = k; id = id })
            ∙ ground (arith, found, eqb_iff b k, get-absent m b id w.0))
  ]

  -- An id that is stored outside the invalid bucket is found.
  pub get-find_by_id :
      (m : TokenMap V) (t : HashToken) (value : V)
      → IsWf m
      → TokenMap.get m t ≡ some value
      → eqb t.bucket invalid_bucket ≡ false
      → TokenMap.get m (record { bucket = invalid_bucket; id = t.id }) ≢ some value
      → eqb (find_by_id m t.id value) invalid_bucket ≡ false
  unfolding find_by_id
  get-find_by_id [] t value w g v other = absurd (none-ne-some value (sym (get-nil t) ∙ g))
  get-find_by_id ((b, ids) ∷ m) t value w g v other = elim (Bool-cases (has_id ids t.id value)) [
    | inl y ↦
        let invalid = get-cons b ids m (record { bucket = invalid_bucket; id = t.id }) in
        rw (y, find_by_id) (ground (arith, invalid, has_id-find ids t.id value w.1 y))
    | inr n ↦
        let here = get-cons b ids m t in
        let invalid = get-cons b ids m (record { bucket = invalid_bucket; id = t.id }) in
        let g' : TokenMap.get m t ≡ some value = ground (arith, here, find-has_id ids t.id value) in
        let other' : TokenMap.get m (record { bucket = invalid_bucket; id = t.id }) ≢ some value =
          ground (arith, invalid, eqb_iff b invalid_bucket, get-absent m b t.id w.0) in
        rw (n, find_by_id) (get-find_by_id m t value w.2 g' v other')
  ]
