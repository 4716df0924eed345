-- ===== src/TokenSet/Member.antt =====
-- The operations against a set of tokens.
use refer.Base.{
  ℕ, ◌≡◌, refl, sym, ap, ◌∙◌, arith, true, false, not, ◌&&◌, ◌||◌, none, [], if◌then◌else◌, nat_eq,
  eqb, eqb_iff,
}
use refer.Base.Table.{Table, find, put, erase, is_some, find-put, find-erase}
use refer.HashToken.{HashToken, token_eq, is_valid}
use refer.TokenSet.{TokenSet, ids_of, has, insert, remove}

has-ids : (m : TokenSet) (t : HashToken) → has m t ≡ is_some (find t.id (ids_of (find t.bucket m)))
unfolding has find
has-ids m t = ground arith

has-put :
    (m : TokenSet) (b : ℕ) (ids : Table ℕ (Unit {0})) (s : HashToken)
    → has (put b ids m) s ≡ (if eqb b s.bucket then is_some (find s.id ids) else has m s)
unfolding has
has-put m b ids s = ground (arith, find-put b s.bucket ids m)

has-erase :
    (m : TokenSet) (b : ℕ) (s : HashToken)
    → has (erase b m) s ≡ (if eqb b s.bucket then false else has m s)
unfolding has
has-erase m b s = ground (arith, find-erase b s.bucket m)

has-beside :
    (m : TokenSet) (t s : HashToken)
    → eqb t.bucket s.bucket ≡ true
    → has m s ≡ is_some (find s.id (ids_of (find t.bucket m)))
has-beside m t s e =
    has-ids m s
    ∙ ap (λ (b : ℕ). is_some (find s.id (ids_of (find b m))))
        (sym ((eqb_iff t.bucket s.bucket).0 e))

find-nil : (k : ℕ) → find {V = Unit {0}} k [] ≡ none
unfolding find
find-nil k = refl

-- A valid token is a member after its insertion, which says whether it was none; an invalid token
-- changes nothing.
has-insert :
    (m : TokenSet) (t s : HashToken)
    → ((insert m t).0 ≡ (is_valid t && not (has m t)))
      × (has (insert m t).1 s ≡ ((is_valid t && token_eq t s) || has m s))
unfolding insert token_eq
has-insert m t s =
    let ids = ids_of (find t.bucket m) in
    ground (
      arith,
      has-ids m t,
      has-ids m s,
      has-put m t.bucket ids s,
      has-put m t.bucket (put t.id tt ids) s,
      find-put t.id s.id tt ids,
      eqb_iff t.bucket s.bucket,
      eqb_iff t.id s.id,
      has-beside m t s,
    )

-- A token is no member after its removal, and the others stay as they were.
has-remove : (m : TokenSet) (t s : HashToken) → has (remove m t) s ≡ (not (token_eq t s) && has m s)
unfolding remove token_eq
has-remove m t s =
    let ids = ids_of (find t.bucket m) in
    ground (
      arith,
      has-ids m t,
      has-ids m s,
      has-erase m t.bucket s,
      has-put m t.bucket (erase t.id ids) s,
      find-erase t.id s.id ids,
      find-nil s.id,
      find-nil t.id,
      eqb_iff t.bucket s.bucket,
      eqb_iff t.id s.id,
      has-beside m t s,
    )
