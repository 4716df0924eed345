-- ===== src/Variant/Order.antt =====
-- `operator<` of ids, the order of the children.
use refer.Base.{◌≡◌, refl, arith, true, false, [], ◌∷◌, ◌==◌, list_eq, nat_eq, eqb_iff}
use refer.Text.{Text, text_lt}

pub text_lt_irrefl : (s : Text) → text_lt s s ≡ false
unfolding text_lt
text_lt_irrefl [] = refl
text_lt_irrefl (x ∷ s) = ground (arith, text_lt_irrefl s)

pub text_lt_trans : (s t u : Text) → text_lt s t ≡ true → text_lt t u ≡ true → text_lt s u ≡ true
unfolding text_lt
text_lt_trans [] [] u h k = cc
text_lt_trans [] (y ∷ t) [] h k = cc
text_lt_trans [] (y ∷ t) (z ∷ u) h k = refl
text_lt_trans (x ∷ s) [] u h k = cc
text_lt_trans (x ∷ s) (y ∷ t) [] h k = cc
text_lt_trans (x ∷ s) (y ∷ t) (z ∷ u) h k = ground (arith, text_lt_trans s t u)

pub text_lt_total : (s t : Text) → (s == t) ≡ false → text_lt s t ≡ false → text_lt t s ≡ true
unfolding text_lt
text_lt_total [] [] h k = cc
text_lt_total [] (y ∷ t) h k = cc
text_lt_total (x ∷ s) [] h k = refl
text_lt_total (x ∷ s) (y ∷ t) h k = ground (arith, text_lt_total s t, eqb_iff x y)
