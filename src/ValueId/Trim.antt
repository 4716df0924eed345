-- ===== src/ValueId/Trim.antt =====
-- `trimName` on names that are not in order: its ends, and runs of dots.
use refer.Base.{
  ℕ, zero, suc, ◌+◌, ◌-◌, ◌≤◌, ◌≡◌, refl, ap, ◌∙◌, ◌⊎◌, inl, inr, arith, Bool, true, not, ◌&&◌,
  some, [], ◌∷◌, ◌++◌, Bool-cases, Option-cases,
}
use mathlib.Core.Bool.{false≢true}
use mathlib.Core.Option.{none-ne-some}
use refer.Text.{Text, take, drop, find_first, find_last}
use refer.ValueId.{separator, is_separator, is_blank, replace_double_dots, trim_name}
use refer.ValueId.Segments.{no_dot, head_ok, last_ok, IsSegment}
use refer.ValueId.Segments.Names.{
  trim_name-ends, replace-no_double, head_ok-append, last_ok-append, no_double_of_no_dot,
}

-- The first pair of dots behind a text without dots becomes one dot.
replace-pair :
    (s u : Text)
    → no_dot s ≡ true
    → replace_double_dots (s ++ separator ∷ separator ∷ u) ≡ s ++ separator ∷ replace_double_dots u
unfolding replace_double_dots
replace-pair [] u n = refl
replace-pair (c ∷ []) u n = ground (arith, replace-pair [] u refl)
replace-pair (c ∷ d ∷ s) u n = ground (arith, replace-pair (d ∷ s) u)

replace-single : (t : Text) → IsSegment t → replace_double_dots (separator ∷ t) ≡ separator ∷ t
unfolding replace_double_dots
replace-single [] v = refl
replace-single (c ∷ t) v =
    replace-no_double (separator ∷ c ∷ t) (ground (arith, v.1, no_double_of_no_dot (c ∷ t) v.0))

-- Between two parts, two dots become one, and three dots become two: a double dot stays.
pub trim_name-dots :
    (s t : Text)
    → IsSegment s
    → IsSegment t
    → (trim_name (s ++ separator ∷ separator ∷ t) ≡ s ++ separator ∷ t)
      × (trim_name (s ++ separator ∷ separator ∷ separator ∷ t) ≡ s ++ separator ∷ separator ∷ t)
trim_name-dots s t v w =
    let two = last_ok-append (separator ∷ separator ∷ []) t w.2 in
    let three = last_ok-append (separator ∷ separator ∷ separator ∷ []) t w.2 in
    (
      trim_name-ends _ (head_ok-append s (separator ∷ separator ∷ t) v.1)
            (last_ok-append s (separator ∷ separator ∷ t) two)
          ∙ replace-pair s t v.0
          ∙ ap (λ (x : Text). s ++ separator ∷ x) (replace-no_double t (no_double_of_no_dot t w.0)),
      trim_name-ends _ (head_ok-append s (separator ∷ separator ∷ separator ∷ t) v.1)
            (last_ok-append s (separator ∷ separator ∷ separator ∷ t) three)
          ∙ replace-pair s (separator ∷ t) v.0
          ∙ ap (λ (x : Text). s ++ separator ∷ x) (replace-single t w),
    )

abbrev not_blank : ℕ → Bool
not_blank c = not (is_blank c)

head_ok-drop : (s : Text) (i : ℕ) → find_first not_blank s ≡ some i → head_ok (drop i s) ≡ true
unfolding find_first
head_ok-drop [] i e = cc
head_ok-drop (c ∷ s) i e = elim (Bool-cases (not_blank c)) [
  | inl y ↦ let z : i ≡ 0 = ground arith in rw z y
  | inr n ↦ elim (Option-cases (find_first not_blank s)) [
    | inl f ↦ absurd (none-ne-some i (ground arith))
    | inr (j, f) ↦ let z : suc j ≡ i = ground arith in rw (← z) (head_ok-drop s j f)
  ]
]

last_ok-take : (s : Text) (j : ℕ) → find_last not_blank s ≡ some j → last_ok (take (suc j) s) ≡ true
unfolding find_last
last_ok-take [] j e = cc
last_ok-take (c ∷ s) j e = elim (Option-cases (find_last not_blank s)) [
  | inr (k, f) ↦
      let z : suc k ≡ j = ground arith in
      rw (← z) (last_ok-append (c ∷ []) (take (suc k) s) (last_ok-take s k f))
  | inl f ↦ elim (Bool-cases (not_blank c)) [
    | inl y ↦ let z : j ≡ 0 = ground arith in rw z y
    | inr n ↦ absurd (none-ne-some j (ground arith))
  ]
]

first_le_last :
    (s : Text) (i j : ℕ) → find_first not_blank s ≡ some i → find_last not_blank s ≡ some j → i ≤ j
unfolding find_first find_last
first_le_last [] i j e f = cc
first_le_last (c ∷ s) i j e f = elim (Bool-cases (not_blank c)) [
  | inl y ↦ let z : i ≡ 0 = ground arith in omega arith
  | inr n ↦ elim (Option-cases (find_first not_blank s)) [
    | inl a ↦ absurd (none-ne-some i (ground arith))
    | inr (k, a) ↦ elim (Option-cases (find_last not_blank s)) [
      | inl b ↦ absurd (none-ne-some j (ground arith))
      | inr (l, b) ↦ ground (arith, first_le_last s k l a b)
    ]
  ]
]

-- The two searches find a character together.
first_of_last :
    (s : Text) (j : ℕ)
    → find_last not_blank s ≡ some j
    → (i : ℕ) × (find_first not_blank s ≡ some i)
unfolding find_first find_last
first_of_last [] j f = absurd (none-ne-some j f)
first_of_last (c ∷ s) j f = elim (Bool-cases (not_blank c)) [
  | inl y ↦ (0, rw (y, find_first))
  | inr n ↦ elim (Option-cases (find_last not_blank s)) [
    | inl b ↦ absurd (none-ne-some j (ground arith))
    | inr (l, b) ↦ let (i, a) = first_of_last s l b in (suc i, rw (n, a, find_first))
  ]
]

take_nil : (n : ℕ) → take {A = ℕ} n [] ≡ []
take_nil zero = refl
take_nil (suc n) = refl

take-drop : (n i : ℕ) (s : Text) → take (n - i) (drop i s) ≡ drop i (take n s)
take-drop n zero s = let e : n - 0 ≡ n = omega arith in rw e refl
take-drop zero (suc i) s = let e : 0 - suc i ≡ 0 = omega arith in rw e refl
take-drop (suc n) (suc i) [] =
    let e : suc n - suc i ≡ n - i = omega arith in rw (e, take_nil (n - i))
take-drop (suc n) (suc i) (c ∷ s) =
    let e : suc n - suc i ≡ n - i = omega arith in rw e (take-drop n i s)

last_ok-drop_nil : (i : ℕ) → head_ok (drop {A = ℕ} i []) ≡ true → last_ok (drop {A = ℕ} i []) ≡ true
last_ok-drop_nil zero h = h
last_ok-drop_nil (suc i) h = h

last_ok-drop :
    (i : ℕ) (u : Text) → head_ok (drop i u) ≡ true → last_ok u ≡ true → last_ok (drop i u) ≡ true
last_ok-drop zero u h l = l
last_ok-drop (suc i) [] h l = cc
last_ok-drop (suc i) (c ∷ []) h l = last_ok-drop_nil i h
last_ok-drop (suc i) (c ∷ d ∷ u) h l = last_ok-drop i (d ∷ u) h l

head_ok-take : (n : ℕ) (s : Text) → head_ok s ≡ true → head_ok (take (suc n) s) ≡ true
head_ok-take n [] h = h
head_ok-take n (c ∷ s) h = h

head_ok-replace : (s : Text) → head_ok s ≡ true → head_ok (replace_double_dots s) ≡ true
unfolding replace_double_dots
head_ok-replace [] h = h
head_ok-replace (c ∷ []) h = h
head_ok-replace (c ∷ d ∷ s) h = ground arith

last_ok-replace : (s : Text) → last_ok s ≡ true → last_ok (replace_double_dots s) ≡ true
unfolding replace_double_dots
last_ok-replace [] h = h
last_ok-replace (c ∷ []) h = h
last_ok-replace (c ∷ d ∷ []) h = elim (Bool-cases (is_separator c && is_separator d)) [
  | inl y ↦ absurd (false≢true (ground arith))
  | inr n ↦ rw (n, replace_double_dots) h
]
last_ok-replace (c ∷ d ∷ e ∷ s) h = elim (Bool-cases (is_separator c && is_separator d)) [
  | inl y ↦
      rw (y, replace_double_dots)
        (last_ok-append (separator ∷ []) (replace_double_dots (e ∷ s)) (last_ok-replace (e ∷ s) h))
  | inr n ↦
      rw (n, replace_double_dots)
        (last_ok-append (c ∷ []) (replace_double_dots (d ∷ e ∷ s)) (last_ok-replace (d ∷ e ∷ s) h))
]

-- A trimmed name is empty, or begins and ends with a character that is neither a space nor a dot.
trim_name-ends_ok :
    (s : Text)
    → (trim_name s ≡ []) ⊎ ((head_ok (trim_name s) ≡ true) × (last_ok (trim_name s) ≡ true))
unfolding trim_name
trim_name-ends_ok [] = inl refl
trim_name-ends_ok (c ∷ s) = elim (Option-cases (find_last not_blank (c ∷ s))) [
  | inl f ↦ inl (rw (f, trim_name))
  | inr (j, f) ↦
      let (i, a) = first_of_last (c ∷ s) j f in
      let le = first_le_last (c ∷ s) i j a f in
      let n : j + 1 - i ≡ suc (j - i) = omega arith in
      let e : j + 1 ≡ suc j = omega arith in
      let head : head_ok (take (j + 1 - i) (drop i (c ∷ s))) ≡ true =
        rw n (head_ok-take (j - i) (drop i (c ∷ s)) (head_ok-drop (c ∷ s) i a)) in
      let at = take-drop (j + 1) i (c ∷ s) in
      let last : last_ok (take (j + 1 - i) (drop i (c ∷ s))) ≡ true =
        rw at (
          last_ok-drop i (take (j + 1) (c ∷ s)) (rw at at head)
            (rw e (last_ok-take (c ∷ s) j f))) in
      inr (
        rw (f, a, trim_name)
          (
            head_ok-replace (take (j + 1 - i) (drop i (c ∷ s))) head,
            last_ok-replace (take (j + 1 - i) (drop i (c ∷ s))) last,
          ))
]
