-- ===== src/ValueId/Length.antt =====
-- The lengths of trimmed names and of parents.
use refer.Base.{
  ℕ, zero, suc, ◌+◌, ◌-◌, ◌≤◌, ◌<◌, ◌≡◌, refl, sym, ◌∙◌, arith, Bool, true, false, not, ◌&&◌, none,
  some, List, [], ◌∷◌, length, Bool-cases, Option-cases, inl, inr,
}
use mathlib.Core.Bool.{false≢true}
use mathlib.Core.Option.{none-ne-some, some-injective}
use refer.Text.{Text, take, drop, find_first, find_last, substr}
use refer.Text.Search.{length-drop}
use refer.ValueId.{is_separator, is_blank, replace_double_dots, trim_name, parent, is_empty}

length-take-le {ℓ} : {A : Type ℓ} (n : ℕ) (s : List A) → length (take n s) ≤ length s
length-take-le zero s = omega arith
length-take-le (suc n) [] = omega arith
length-take-le (suc n) (c ∷ s) = omega (arith, length-take-le n s)

length-take-bound {ℓ} : {A : Type ℓ} (n : ℕ) (s : List A) → length (take n s) ≤ n
length-take-bound zero s = omega arith
length-take-bound (suc n) [] = omega arith
length-take-bound (suc n) (c ∷ s) = omega (arith, length-take-bound n s)

length-replace : (s : Text) → length (replace_double_dots s) ≤ length s
unfolding replace_double_dots
length-replace [] = omega arith
length-replace (c ∷ []) = omega arith
length-replace (c ∷ d ∷ s) = elim (Bool-cases (is_separator c && is_separator d)) [
  | inl y ↦ rw (y, replace_double_dots) (omega (arith, length-replace s))
  | inr n ↦ rw (n, replace_double_dots) (omega (arith, length-replace (d ∷ s)))
]

length-substr : (s : Text) (pos n : ℕ) → length (substr s pos n) ≤ length s
length-substr s pos n = omega (arith, length-take-le n (drop pos s), length-drop pos s)

-- Trimming does not lengthen a name.
pub length-trim_name : (s : Text) → length (trim_name s) ≤ length s
unfolding trim_name
length-trim_name [] = omega arith
length-trim_name (c ∷ s) = elim (Option-cases (find_last (λ c. not (is_blank c)) (c ∷ s))) [
  | inl e ↦ rw (e, trim_name) (omega arith)
  | inr (i, e) ↦
      let begin : ℕ = elim (find_first (λ c. not (is_blank c)) (c ∷ s)) [ none ↦ 0 | some i ↦ i ] in
      rw (e, trim_name)
        (omega (
          arith,
          length-replace (substr (c ∷ s) begin (i + 1 - begin)),
          length-substr (c ∷ s) begin (i + 1 - begin),
        ))
]

find_last-lt : (p : ℕ → Bool) (s : Text) (i : ℕ) → find_last p s ≡ some i → i < length s
unfolding find_last
find_last-lt p [] i e = absurd (none-ne-some i e)
find_last-lt p (c ∷ s) i e = elim (Option-cases (find_last p s)) [
  | inl n ↦ ground arith
  | inr (j, f) ↦
      omega (arith, some-injective (suc j) i (rw (f, find_last) at e), find_last-lt p s j f)
]

-- The parent of a name that is not empty is shorter.
length-parent : (name : Text) → is_empty name ≡ false → length (parent name) < length name
unfolding parent is_empty
length-parent [] n = absurd (false≢true (sym n))
length-parent (c ∷ s) n = elim (Option-cases (find_last is_separator (c ∷ s))) [
  | inl e ↦ rw (e, parent) (omega arith)
  | inr (i, e) ↦
      rw (e, parent)
        (omega (
          arith,
          length-trim_name (substr (c ∷ s) 0 i),
          length-take-bound i (c ∷ s),
          find_last-lt is_separator (c ∷ s) i e,
        ))
]

parent_nil : is_empty (parent []) ≡ true
unfolding parent is_empty find_last
parent_nil = refl

-- A parent that is not empty is shorter than its child.
pub parent-shorter :
    (name : Text) → is_empty (parent name) ≡ false → length (parent name) < length name
unfolding is_empty
parent-shorter [] n = absurd (false≢true (sym n ∙ parent_nil))
parent-shorter (c ∷ s) n = length-parent (c ∷ s) refl
