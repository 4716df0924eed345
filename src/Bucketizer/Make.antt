-- ===== src/Bucketizer/Make.antt =====
-- `ValueIdBucketizer::make` as its callers see it.
use refer.Base.{
  ℕ, ◌<◌, ◌≡◌, ◌≢◌, sym, ap, ◌∙◌, arith, true, false, some, Eq, eqb, eqb_iff, nat_eq, Bool-cases,
  inl, inr, ◌⊎◌,
}
use mathlib.Core.Bool.{false≢true}
use mathlib.Core.Option.{none-ne-some}
use refer.Base.Table.{find}
use refer.HashToken.{HashToken, invalid_bucket, invalid_hash_id, is_valid}
use refer.HashToken.Slot.{slot_id, slot_id-valid}
use refer.HashBucket.{has_bucket}
use refer.HashBucket.Digit.{digit}
use refer.TokenMap
use refer.Bucketizer.{Bucketizer, new, find_by_id, make, get}
use refer.Bucketizer.Search.{find_by_id-get, get-find_by_id, get-nil}
use refer.Bucketizer.Made.{Stored, IsOrdered, Made, make-Made, invalid_elsewhere}
use refer.Bucketizer.Tokens.{
  kept, found_again, before, invalid_before, bucket_after, store_after, known_after, digit_after,
  new_hashed, new_known, new_slot, new_only,
}

-- The bucketizer after its constructor is in order.
pub new-IsOrdered {ℓ} : {V : Type ℓ} ⦃e : Eq V⦄ (hf : V → ℕ) → IsOrdered {V = V} hf new
unfolding find
new-IsOrdered hf = record {
  words = λ h w e. absurd (none-ne-some w e);
  wf = tt;
  valid = λ t v g. absurd (none-ne-some v (sym (get-nil t) ∙ g));
  hashed = λ t v g. absurd (none-ne-some v (sym (get-nil t) ∙ g));
  known = λ t v g. absurd (none-ne-some v (sym (get-nil t) ∙ g));
  slots = λ h k v l g.
      absurd (none-ne-some v (sym (get-nil (record { bucket = slot_id k; id = h })) ∙ g));
  distinct = λ s t v g. absurd (none-ne-some v (sym (get-nil s) ∙ g));
}

module _ {ℓ} {V : Type ℓ} ⦃e : Eq V⦄ (hf : V → ℕ) (b : Bucketizer V) (o : IsOrdered hf b)
    (value : V) (good : eqb (hf value) invalid_hash_id ≡ false) (t : HashToken) (b' : Bucketizer V)
    (m : make hf b value ≡ some (t, b')) where
  made : Made hf b o value good t b'
  made = make-Made hf b o value good t b' m

  -- A token that is stored afterwards, from what it was before.
  after_hashed :
      (s : HashToken) (v : V)
      → is_valid s ≡ true
      → Stored b s v ⊎ ((s ≡ t) × (v ≡ value))
      → (s.id ≡ hf v) × (has_bucket b'.hash_bucket s.id ≡ true)
  after_hashed s v good_s (inl g) =
      (o.hashed s v g good_s, known_after hf b o value good t b' made s.id (o.known s v g good_s))
  after_hashed s v good_s (inr (same, w)) =
      let good_t = rw same at good_s in
      let id = new_hashed hf b o value good t b' made good_t in
      (rw (same, w) id, rw (same, id) (new_known hf b o value good t b' made good_t))

  after_slots :
      (h k : ℕ) (v : V)
      → k < 31
      → is_valid (record { bucket = slot_id k; id = h }) ≡ true
      → Stored b (record { bucket = slot_id k; id = h }) v
        ⊎ ((record { bucket = slot_id k; id = h } ≡ t) × (v ≡ value))
      → digit b'.hash_bucket h k ≡ 1
  after_slots h k v l good_s (inl g) =
      digit_after hf b o value good t b' made h k (o.slots h k v l g)
  after_slots h k v l good_s (inr (same, w)) =
      new_slot hf b o value good t b' made h k l same (rw (← same) good_s)

  any_slots :
      (h k : ℕ) (v : V)
      → k < 31
      → Stored b' (record { bucket = slot_id k; id = h }) v
      → digit b'.hash_bucket h k ≡ 1
  any_slots h k v l g = elim (Bool-cases (is_valid (record { bucket = slot_id k; id = h }))) [
    | inl good_s ↦
        after_slots h k v l good_s
          (before hf b o value good t b' made (record { bucket = slot_id k; id = h }) v g good_s)
    | inr bad ↦
        let at =
          invalid_before hf b o value good t b' made (record { bucket = slot_id k; id = h }) v g
            bad in
        absurd (
          false≢true (
            sym (slot_id-valid k l)
            ∙ (eqb_iff (slot_id k) invalid_bucket).1 (ap (λ (r : HashToken). r.bucket) at)))
  ]

  after_distinct :
      (s u : HashToken) (v : V)
      → is_valid s ≡ true
      → is_valid u ≡ true
      → Stored b s v ⊎ ((s ≡ t) × (v ≡ value))
      → Stored b u v ⊎ ((u ≡ t) × (v ≡ value))
      → s ≡ u
  after_distinct s u v good_s good_u (inl g) (inl f) = o.distinct s u v g f good_s good_u
  after_distinct s u v good_s good_u (inl g) (inr (same, w)) =
      new_only hf b o value good t b' made s (rw w at g) good_s (rw same at good_u) ∙ sym same
  after_distinct s u v good_s good_u (inr (same, w)) (inl g) =
      same ∙ sym (new_only hf b o value good t b' made u (rw w at g) good_u (rw same at good_s))
  after_distinct s u v good_s good_u (inr (same, w)) (inr (same', w')) = same ∙ sym same'

  -- A call for an id with a valid hash keeps a bucketizer in order, whether it returns a valid token or
  -- not.
  pub make-IsOrdered : IsOrdered hf b'
  make-IsOrdered = record {
    words = bucket_after hf b o value good t b' made;
    wf = store_after hf b o value good t b' made;
    valid = λ s v g. invalid_before hf b o value good t b' made s v g;
    hashed = λ s v g x. (after_hashed s v x (before hf b o value good t b' made s v g x)).0;
    known = λ s v g x. (after_hashed s v x (before hf b o value good t b' made s v g x)).1;
    slots = any_slots;
    distinct = λ s u v g f x y.
        after_distinct s u v x y (before hf b o value good t b' made s v g x)
          (before hf b o value good t b' made u v f y);
  }

  -- On a bucketizer in order, a call for an id with a valid hash that returns a valid token stores the
  -- id under it.
  pub make-get : is_valid t ≡ true → get b' t ≡ some value
  unfolding get
  make-get good_t = found_again hf b o value good t b' made good_t

  -- On a bucketizer in order, a call for an id with a valid hash keeps what every token leads to.
  pub make-get_kept : (s : HashToken) (v : V) → get b s ≡ some v → get b' s ≡ some v
  unfolding get
  make-get_kept s v g = kept hf b o value good t b' made s v g

  -- On a bucketizer in order, after a call for an id with a valid hash that returned a valid token, no
  -- other valid token leads to the id.
  make-get_only :
      (s : HashToken) → is_valid t ≡ true → is_valid s ≡ true → get b' s ≡ some value → s ≡ t
  unfolding get
  make-get_only s good_t good_s g =
      make-IsOrdered.distinct s t value g (found_again hf b o value good t b' made good_t) good_s
        good_t

  -- On a bucketizer in order, after a call for an id with a valid hash that returned a valid token, a
  -- second call for the id returns the same token and changes nothing.
  pub make-make : is_valid t ≡ true → make hf b' value ≡ some (t, b')
  unfolding make is_valid
  make-make good_t =
      let o' = make-IsOrdered in
      let g = found_again hf b o value good t b' made good_t in
      let id = new_hashed hf b o value good t b' made good_t in
      let known = o'.known t value g good_t in
      let elsewhere : TokenMap.get b'.bucket_store (record { bucket = invalid_bucket; id = t.id })
          ≢ some value =
        λ f. invalid_elsewhere hf b' o' value good (rw id at f) in
      let hit = get-find_by_id b'.bucket_store t value o'.wf g (ground arith) elsewhere in
      let there = find_by_id-get b'.bucket_store t.id value o'.wf hit in
      let same =
        o'.distinct (record { bucket = find_by_id b'.bucket_store t.id value; id = t.id }) t value
          there g (ground arith) good_t in
      rw (make, ← id, known, hit) (ap (λ (r : HashToken). some (r, b')) same)
