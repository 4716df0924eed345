-- ===== src/Text/Search.antt =====
-- Where the searches stop, and what stands around that position.
use refer.Base.{
  ℕ, zero, suc, ◌+◌, ◌-◌, ◌≤◌, ◌≡◌, refl, ap, arith, Bool, true, not, none, some, List, [], ◌∷◌,
  ◌++◌, length,
}
use refer.Text.{Text, take, drop, find_first, find_last, all}

module _ {ℓ} {A : Type ℓ} where
  pub take-length : (a b : List A) → take (length a) (a ++ b) ≡ a
  take-length [] b = refl
  take-length (x ∷ a) b = ap (◌∷◌ x) (take-length a b)

  drop-length : (a b : List A) → drop (length a) (a ++ b) ≡ b
  drop-length [] b = refl
  drop-length (x ∷ a) b = drop-length a b

  pub drop_past : (a : List A) (c : A) (b : List A) → drop (length a + 1) (a ++ c ∷ b) ≡ b
  drop_past [] c b = refl
  drop_past (x ∷ a) c b =
      let e : suc (length a) + 1 ≡ suc (length a + 1) = omega arith in rw e (drop_past a c b)

  pub length-drop : (n : ℕ) (a : List A) → length (drop n a) ≡ length a - n
  length-drop zero a = omega arith
  length-drop (suc n) [] = omega arith
  length-drop (suc n) (x ∷ a) = omega (arith, length-drop n a)

  pub take_all : (a : List A) (n : ℕ) → length a ≤ n → take n a ≡ a
  take_all [] zero h = refl
  take_all [] (suc n) h = refl
  take_all (x ∷ a) zero h = absurd (omega arith)
  take_all (x ∷ a) (suc n) h = ap (◌∷◌ x) (take_all a n (omega arith))

  pub drop-drop : (m n : ℕ) (a : List A) → drop n (drop m a) ≡ drop (m + n) a
  drop-drop zero n a = let e : 0 + n ≡ n = omega arith in rw e refl
  drop-drop (suc m) zero [] = let e : suc m + 0 ≡ suc m = omega arith in rw e refl
  drop-drop (suc m) (suc n) [] = let e : suc m + suc n ≡ suc (m + suc n) = omega arith in rw e refl
  drop-drop (suc m) n (x ∷ a) =
      let e : suc m + n ≡ suc (m + n) = omega arith in rw e (drop-drop m n a)

module _ (p : ℕ → Bool) where
  pub find_first-append :
      (a b : Text) (c : ℕ)
      → all (λ x. not (p x)) a ≡ true
      → p c ≡ true
      → find_first p (a ++ c ∷ b) ≡ some (length a)
  unfolding find_first
  find_first-append [] b c h e = rw e
  find_first-append (x ∷ a) b c h e = ground (arith, find_first-append a b c)

  pub find_first-none : (a : Text) → all (λ x. not (p x)) a ≡ true → find_first p a ≡ none
  unfolding find_first
  find_first-none [] h = refl
  find_first-none (x ∷ a) h = ground (arith, find_first-none a)

  pub find_last-none : (a : Text) → all (λ x. not (p x)) a ≡ true → find_last p a ≡ none
  unfolding find_last
  find_last-none [] h = refl
  find_last-none (x ∷ a) h = ground (arith, find_last-none a)

  pub find_last-append :
      (a b : Text) (c : ℕ)
      → all (λ x. not (p x)) b ≡ true
      → p c ≡ true
      → find_last p (a ++ c ∷ b) ≡ some (length a)
  unfolding find_last
  find_last-append [] b c h e = ground (arith, find_last-none b)
  find_last-append (x ∷ a) b c h e = ground (arith, find_last-append a b c)
