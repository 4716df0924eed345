-- ===== src/ValueId/Segments/Names.antt =====
-- `trimName` on names that are in order, and what it leaves of others.
use refer.Base.{
  ℕ, ◌+◌, ◌-◌, ◌≡◌, refl, sym, ap, ◌∙◌, arith, true, not, some, List, [], ◌∷◌, ◌++◌, length,
}
use mathlib.Core.List.{append_assoc}
use refer.Text.{Text, take, find_first, find_last}
use refer.Text.Search.{take_all}
use refer.ValueId.{separator, is_blank, replace_double_dots, trim_name}
use refer.ValueId.Segments.{no_dot, head_ok, last_ok, no_double, IsSegments, join}

pub replace-no_double : (s : Text) → no_double s ≡ true → replace_double_dots s ≡ s
unfolding replace_double_dots
replace-no_double [] h = refl
replace-no_double (c ∷ []) h = refl
replace-no_double (c ∷ d ∷ s) h = ground (arith, replace-no_double (d ∷ s))

pub find_last-last_ok :
    (c : ℕ) (s : Text)
    → last_ok (c ∷ s) ≡ true
    → find_last (λ x. not (is_blank x)) (c ∷ s) ≡ some (length s)
unfolding find_last
find_last-last_ok c [] h = rw h
find_last-last_ok c (d ∷ s) h = rw (find_last-last_ok d s h, find_last)

pub find_first_head :
    (c : ℕ) (s : Text)
    → head_ok (c ∷ s) ≡ true
    → find_first (λ x. not (is_blank x)) (c ∷ s) ≡ some 0
unfolding find_first
find_first_head c s h = rw (h, find_first)

-- A name whose ends are in order loses its double dots only.
pub trim_name-ends :
    (s : Text) → head_ok s ≡ true → last_ok s ≡ true → trim_name s ≡ replace_double_dots s
unfolding trim_name
trim_name-ends [] h l = cc
trim_name-ends (c ∷ s) h l =
    let whole : take (length s + 1 - 0) (c ∷ s) ≡ c ∷ s = take_all (c ∷ s) _ (omega arith) in
    rw (find_last-last_ok c s l, find_first_head c s h, trim_name) (ap replace_double_dots whole)

pub head_ok-append : (s t : Text) → head_ok s ≡ true → head_ok (s ++ t) ≡ true
head_ok-append [] t h = cc
head_ok-append (c ∷ s) t h = h

pub last_ok-append : (s t : Text) → last_ok t ≡ true → last_ok (s ++ t) ≡ true
last_ok-append [] t h = h
last_ok-append (c ∷ []) [] h = cc
last_ok-append (c ∷ []) (d ∷ t) h = h
last_ok-append (c ∷ d ∷ s) t h = last_ok-append (d ∷ s) t h

no_double-append :
    (s t : Text)
    → no_dot s ≡ true
    → head_ok t ≡ true
    → no_double t ≡ true
    → no_double (s ++ separator ∷ t) ≡ true
no_double-append [] [] n h d = cc
no_double-append [] (c ∷ t) n h d = ground arith
no_double-append (x ∷ []) t n h d = ground (arith, no_double-append [] t refl h d)
no_double-append (x ∷ y ∷ s) t n h d = ground (arith, no_double-append (y ∷ s) t)

pub no_double_of_no_dot : (s : Text) → no_dot s ≡ true → no_double s ≡ true
no_double_of_no_dot [] n = refl
no_double_of_no_dot (x ∷ []) n = refl
no_double_of_no_dot (x ∷ y ∷ s) n = ground (arith, no_double_of_no_dot (y ∷ s))

last_ok-cons : (c : ℕ) (t : Text) → last_ok t ≡ true → last_ok (c ∷ t) ≡ true
last_ok-cons c t h = last_ok-append (c ∷ []) t h

-- The name of at least one part is in order.
pub join-ok :
    (s : Text) (ss : List Text)
    → IsSegments (s ∷ ss)
    → (head_ok (join (s ∷ ss)) ≡ true)
      × (last_ok (join (s ∷ ss)) ≡ true)
      × (no_double (join (s ∷ ss)) ≡ true)
join-ok s [] w = (w.0.1, w.0.2, no_double_of_no_dot s w.0.0)
join-ok s (t ∷ ss) w =
    let rest = join-ok t ss w.1 in
    (
      head_ok-append s _ w.0.1,
      last_ok-append s _ (last_ok-cons separator (join (t ∷ ss)) rest.1),
      no_double-append s _ w.0.0 rest.0 rest.2,
    )

-- The name of a list of parts is left as it is.
pub trim_name-join : (ss : List Text) → IsSegments ss → trim_name (join ss) ≡ join ss
unfolding trim_name
trim_name-join [] w = refl
trim_name-join (s ∷ ss) w =
    let ok = join-ok s ss w in
    trim_name-ends (join (s ∷ ss)) ok.0 ok.1 ∙ replace-no_double (join (s ∷ ss)) ok.2

-- The name of two lists of parts, neither empty.
pub join-append :
    (s : Text) (ss : List Text) (t : Text) (ts : List Text)
    → join ((s ∷ ss) ++ t ∷ ts) ≡ join (s ∷ ss) ++ separator ∷ join (t ∷ ts)
join-append s [] t ts = refl
join-append s (r ∷ ss) t ts =
    ap (λ (x : Text). s ++ separator ∷ x) (join-append r ss t ts)
    ∙ sym (append_assoc s (separator ∷ join (r ∷ ss)) (separator ∷ join (t ∷ ts)))

pub IsSegments-append : (ss ts : List Text) → IsSegments ss → IsSegments ts → IsSegments (ss ++ ts)
IsSegments-append [] ts v w = w
IsSegments-append (s ∷ ss) ts v w = (v.0, IsSegments-append ss ts v.1 w)
