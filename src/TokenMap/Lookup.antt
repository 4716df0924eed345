-- ===== src/TokenMap/Lookup.antt =====
-- The operations against a partial function from tokens.
use refer.Base.{
  ℕ, ◌≡◌, refl, sym, ap, ◌∙◌, arith, true, not, Option, none, some, [], ◌∷◌, if◌then◌else◌, nat_eq,
  eqb, eqb_iff,
}
use mathlib.Core.Bool.{false≢true}
use refer.Base.Table.{Table, find, put, erase, is_some, find-put, find-erase}
use refer.HashToken.{HashToken, token_eq}
use refer.TokenMap.{TokenMap, inner, is_empty, has, insert, remove, get}

-- `a` where there is one, else `b`.
abbrev pub or_some {ℓ} : {A : Type ℓ} → Option A → A → A
or_some none b = b
or_some (some a) b = a

module _ {ℓ} {T : Type ℓ} where
  -- `has` says whether `get` finds an element.
  pub has-get : (m : TokenMap T) (t : HashToken) → has m t ≡ is_some (get m t)
  unfolding has get find
  has-get [] t = refl
  has-get ((b, ids) ∷ m) t = ground arith

  pub get-inner : (m : TokenMap T) (t : HashToken) → get m t ≡ find t.id (inner (find t.bucket m))
  unfolding get find
  get-inner m t = ground arith

  get-put :
      (m : TokenMap T) (b : ℕ) (ids : Table ℕ T) (s : HashToken)
      → get (put b ids m) s ≡ (if eqb b s.bucket then find s.id ids else get m s)
  unfolding get
  get-put m b ids s = ground (arith, find-put b s.bucket ids m)

  get-erase :
      (m : TokenMap T) (b : ℕ) (s : HashToken)
      → get (erase b m) s ≡ (if eqb b s.bucket then none else get m s)
  unfolding get
  get-erase m b s = ground (arith, find-erase b s.bucket m)

  pub find-nil : (k : ℕ) → find {V = T} k [] ≡ none
  unfolding find
  find-nil k = refl

  find-is_empty : (k : ℕ) (ids : Table ℕ T) → is_empty ids ≡ true → find k ids ≡ none
  unfolding find is_empty
  find-is_empty k [] e = refl
  find-is_empty k (x ∷ ids) e = absurd (false≢true e)

  -- The inner table of another token of the same bucket.
  get-beside :
      (m : TokenMap T) (t s : HashToken)
      → eqb t.bucket s.bucket ≡ true
      → get m s ≡ find s.id (inner (find t.bucket m))
  get-beside m t s e =
      get-inner m s
      ∙ ap (λ (b : ℕ). find s.id (inner (find b m))) (sym ((eqb_iff t.bucket s.bucket).0 e))

  -- An insertion keeps the element that the token has, and says whether it had none.
  pub get-insert :
      (m : TokenMap T) (t s : HashToken) (x : T)
      → ((insert m t x).0 ≡ not (has m t))
        × (get (insert m t x).1 s ≡ (if token_eq t s then some (or_some (get m t) x) else get m s))
  unfolding insert token_eq
  get-insert m t s x =
      let ids = inner (find t.bucket m) in
      ground (
        arith,
        has-get m t,
        get-inner m t,
        get-inner m s,
        get-put m t.bucket ids s,
        get-put m t.bucket (put t.id x ids) s,
        find-put t.id s.id x ids,
        eqb_iff t.bucket s.bucket,
        eqb_iff t.id s.id,
        get-beside m t s,
      )

  -- A removal forgets the token alone.
  get-remove :
      (m : TokenMap T) (t s : HashToken)
      → get (remove m t) s ≡ (if token_eq t s then none else get m s)
  unfolding remove token_eq
  get-remove m t s =
      let ids = inner (find t.bucket m) in
      ground (
        arith,
        get-inner m t,
        get-inner m s,
        get-erase m t.bucket s,
        get-put m t.bucket (erase t.id ids) s,
        find-erase t.id s.id ids,
        find-is_empty s.id (erase t.id ids),
        find-nil s.id,
        eqb_iff t.bucket s.bucket,
        eqb_iff t.id s.id,
        get-beside m t s,
      )
