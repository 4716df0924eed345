-- ===== src/ValueId/Segments/Parts.antt =====
-- `parent`, `leaf` and the concatenations on lists of parts.
use mathlib.Core.List.{append-nil}
use refer.Base.{
  ℕ, suc, ◌+◌, ◌-◌, ◌≡◌, refl, sym, ap, ◌∙◌, arith, true, false, not, some, List, [], ◌∷◌, ◌++◌,
  length,
}
use refer.Text.{Text, take, drop, find_first, find_last}
use refer.Text.Search.{take-length, drop_past, take_all, find_last-append, find_last-none}
use refer.ValueId.{
  separator, is_separator, is_blank, replace_double_dots, trim_name, concat, add_assign, is_empty,
  parent, leaf,
}
use refer.ValueId.Segments.{no_dot, head_ok, last_ok, no_double, IsSegment, IsSegments, join}
use refer.ValueId.Segments.Names.{
  find_last-last_ok, find_first_head, replace-no_double, trim_name-join, join-append,
  IsSegments-append, join-ok,
}

last_dot :
    (s : Text) (ss : List Text) (t : Text)
    → no_dot t ≡ true
    → find_last is_separator (join ((s ∷ ss) ++ t ∷ [])) ≡ some (length (join (s ∷ ss)))
last_dot s ss t n =
    rw (join-append s ss t []) (find_last-append is_separator (join (s ∷ ss)) t separator n refl)

-- The parent of a name of parts drops the last part, the leaf is the last part.
pub parent-leaf-join :
    (ss : List Text) (t : Text)
    → IsSegments ss
    → IsSegment t
    → (parent (join (ss ++ t ∷ [])) ≡ join ss) × (leaf (join (ss ++ t ∷ [])) ≡ t)
unfolding parent leaf
parent-leaf-join [] t w v =
    let absent = find_last-none is_separator t v.0 in
    (rw (absent, parent), rw (absent, leaf) (trim_name-join (t ∷ []) (v, tt)))
parent-leaf-join (s ∷ ss) t w v =
    let found = last_dot s ss t v.0 in
    let whole = join-append s ss t [] in
    let before : take (length (join (s ∷ ss))) (join ((s ∷ ss) ++ t ∷ [])) ≡ join (s ∷ ss) =
      rw whole (take-length (join (s ∷ ss)) (separator ∷ t)) in
    let behind : drop (length (join (s ∷ ss)) + 1) (join ((s ∷ ss) ++ t ∷ [])) ≡ t =
      rw whole (drop_past (join (s ∷ ss)) separator t) in
    (
      rw (found, parent) (ap trim_name before ∙ trim_name-join (s ∷ ss) w),
      rw (found, leaf) (ap trim_name behind ∙ trim_name-join (t ∷ []) (v, tt)),
    )

find_first_leading :
    (c : ℕ) (s : Text)
    → head_ok (c ∷ s) ≡ true
    → find_first (λ x. not (is_blank x)) (separator ∷ c ∷ s) ≡ some 1
unfolding find_first
find_first_leading c s h = rw (h, find_first)

find_last_leading :
    (c : ℕ) (s : Text)
    → last_ok (c ∷ s) ≡ true
    → find_last (λ x. not (is_blank x)) (separator ∷ c ∷ s) ≡ some (suc (length s))
unfolding find_last
find_last_leading c s h = rw (find_last-last_ok c s h, find_last)

find_last_trailing :
    (c : ℕ) (s : Text)
    → last_ok (c ∷ s) ≡ true
    → find_last (λ x. not (is_blank x)) (c ∷ s ++ separator ∷ []) ≡ some (length s)
unfolding find_last
find_last_trailing c [] h = rw (h, find_last)
find_last_trailing c (d ∷ s) h = rw (find_last_trailing d s h, find_last)

-- A name of parts with a separator in front, or behind, is that name.
trim_name-leading :
    (n : Text)
    → head_ok n ≡ true
    → last_ok n ≡ true
    → no_double n ≡ true
    → trim_name (separator ∷ n) ≡ n
unfolding trim_name
trim_name-leading [] h l d = cc
trim_name-leading (c ∷ s) h l d =
    let whole : take (suc (length s) + 1 - 1) (c ∷ s) ≡ c ∷ s = take_all (c ∷ s) _ (omega arith) in
    rw (find_last_leading c s l, find_first_leading c s h, trim_name)
      (ap replace_double_dots whole ∙ replace-no_double (c ∷ s) d)

trim_name-trailing :
    (n : Text)
    → head_ok n ≡ true
    → last_ok n ≡ true
    → no_double n ≡ true
    → trim_name (n ++ separator ∷ []) ≡ n
unfolding trim_name
trim_name-trailing [] h l d = cc
trim_name-trailing (c ∷ s) h l d =
    let e : length s + 1 - 0 ≡ length (c ∷ s) = omega arith in
    let whole : take (length s + 1 - 0) (c ∷ s ++ separator ∷ []) ≡ c ∷ s =
      rw e (take-length (c ∷ s) (separator ∷ [])) in
    rw (find_last_trailing c s l, find_first_head c (s ++ separator ∷ []) h, trim_name)
      (ap replace_double_dots whole ∙ replace-no_double (c ∷ s) d)

trim_name_dot : trim_name (separator ∷ []) ≡ []
unfolding trim_name find_last
trim_name_dot = refl

-- The constructor from a parent and a name joins the parts of both.
concat-join :
    (ss ts : List Text)
    → IsSegments ss
    → IsSegments ts
    → concat (join ss) (join ts) ≡ join (ss ++ ts)
unfolding concat trim_name
concat-join [] [] v w = trim_name_dot
concat-join [] (t ∷ ts) v w =
    let ok = join-ok t ts w in
    rw (trim_name-join (t ∷ ts) w) (trim_name-leading (join (t ∷ ts)) ok.0 ok.1 ok.2)
concat-join (s ∷ ss) [] v w =
    let ok = join-ok s ss v in
    rw (trim_name-join [] tt, append-nil ss) (trim_name-trailing (join (s ∷ ss)) ok.0 ok.1 ok.2)
concat-join (s ∷ ss) (t ∷ ts) v w =
    rw (trim_name-join (t ∷ ts) w, ← join-append s ss t ts)
      (trim_name-join ((s ∷ ss) ++ t ∷ ts) (IsSegments-append (s ∷ ss) (t ∷ ts) v w))

pub is_empty-head_ok : (n : Text) → head_ok n ≡ true → is_empty n ≡ false
unfolding is_empty
is_empty-head_ok [] h = cc
is_empty-head_ok (c ∷ n) h = refl

-- `+=` joins the parts of both, if there are parts to add.
add_assign-join :
    (ss : List Text) (t : Text) (ts : List Text)
    → IsSegments ss
    → add_assign (join ss) (join (t ∷ ts)) ≡ join (ss ++ t ∷ ts)
unfolding add_assign
add_assign-join [] t ts v = refl
add_assign-join (s ∷ ss) t ts v =
    rw (is_empty-head_ok (join (s ∷ ss)) (join-ok s ss v).0, add_assign)
      (sym (join-append s ss t ts))
