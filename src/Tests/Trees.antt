-- ===== src/Tests/Trees.antt =====
-- A concrete property tree, with the laws that a removal relies on.
use mathlib.Core.Bool.{false≢true}
use mathlib.Core.Option.{none-ne-some, some-injective}
use refer.Base.{
  sym, ap, ℕ, ◌+◌, ◌≡◌, refl, true, Option, some, none, List, [], ◌∷◌, ◌==◌, if◌then◌else◌, list_eq,
  nat_eq, Bool-cases, inl, inr,
}
use refer.Text.{Text}
use refer.ValueId.{is_separator}
use refer.ValueId.Segments.{no_dot, IsSegment}
use refer.ValueData.{Value}
use refer.Dmo.{PropertyTree}
use refer.Dmo.Edit.Removal.{TreeLaws}

-- The children of a node: each with its key, its value, its own children, and the nodes behind it.
pub data Forest : Type 0 where
  bare : Forest
  grow : Text → Value ℕ → Forest → Forest → Forest

abbrev pub Tree : Type 0
Tree = Value ℕ × Forest

abbrev list_of : Forest → List (Text × Tree)
list_of bare = []
list_of (grow key v g f) = (key, (v, g)) ∷ list_of f

abbrev forest_of : List (Text × Tree) → Forest
forest_of [] = bare
forest_of ((key, (v, g)) ∷ rest) = grow key v g (forest_of rest)

abbrev push : ℕ → List Text → List Text
push c [] = (c ∷ []) ∷ []
push c (part ∷ parts) = (c ∷ part) ∷ parts

abbrev parts_of : Text → List Text
parts_of [] = []
parts_of (c ∷ s) = if is_separator c then [] ∷ parts_of s else push c (parts_of s)

abbrev found : Value ℕ → Forest → List Text → Option Tree → Option Tree
found v g [] below = some (v, g)
found v g (k ∷ ks) below = below

abbrev get_in : Forest → List Text → Option Tree
get_in bare ks = none
get_in (grow key v g f) [] = none
get_in (grow key v g f) (k ∷ ks) =
    let below = get_in g ks in
    let behind = get_in f (k ∷ ks) in if key == k then found v g ks below else behind

abbrev placed : Text → Value ℕ → Forest → Forest → List Text → Tree → Forest → Forest
placed key v below f [] t g = grow key t.0 t.1 f
placed key v below f (k ∷ ks) t g = grow key v below f

abbrev put_in : Forest → List Text → Tree → Forest
put_in bare ks t = bare
put_in (grow key v g f) [] t = grow key v g f
put_in (grow key v g f) (k ∷ ks) t =
    let below = put_in g ks t in
    let behind = put_in f (k ∷ ks) t in
    if key == k then placed key v below f ks t g else grow key v g behind

abbrev erase_in : Forest → Text → Forest × ℕ
erase_in bare key = (bare, 0)
erase_in (grow k v g f) key =
    let (rest, count) = erase_in f key in
    if k == key then (rest, count + 1) else (grow k v g rest, count)

abbrev within : Tree → Text → Option Tree
within t [] = some t
within t (c ∷ path) = get_in t.1 (parts_of (c ∷ path))

abbrev replaced : Tree → Text → Tree → Tree
replaced root [] t = t
replaced root (c ∷ path) t = (root.0, put_in root.1 (parts_of (c ∷ path)) t)

-- A path that leads nowhere is left as it is.
abbrev pub tree : PropertyTree Tree (Value ℕ)
tree = record {
  value = λ t. t.0;
  children = λ t. list_of t.1;
  with_value = λ t v. (v, t.1);
  with_children = λ t l. (t.0, forest_of l);
  get_child_optional = within;
  put_child = replaced;
  put = λ root path v. elim (within root path) [
    | none ↦ (root.0, grow path v bare root.1)
    | some t ↦ replaced root path (v, t.1)
  ];
  find = λ t key. get_in t.1 (key ∷ []);
  erase = λ t key. let (f, count) = erase_in t.1 key in ((t.0, f), count);
  sort = λ t. t;
}

erase_in-absent : (f : Forest) (key : Text) → get_in f (key ∷ []) ≡ none → erase_in f key ≡ (f, 0)
erase_in-absent bare key e = refl
erase_in-absent (grow k v g f) key e = elim (Bool-cases (k == key)) [
  | inl same ↦ absurd (none-ne-some (v, g) (sym (rw same at e)))
  | inr other ↦ rw (other, erase_in-absent f key (rw other at e)) refl
]

put_in-get_in : (f : Forest) (ks : List Text) (t : Tree) → get_in f ks ≡ some t → put_in f ks t ≡ f
put_in-get_in bare ks t e = refl
put_in-get_in (grow key v g f) [] t e = refl
put_in-get_in (grow key v g f) (k ∷ []) t e = elim (Bool-cases (key == k)) [
  | inl same ↦
      let z = some-injective (v, g) t (rw same at e) in
      rw same (ap (λ (t : Tree). grow key t.0 t.1 f) (sym z))
  | inr other ↦
      rw other (ap (λ (x : Forest). grow key v g x) (put_in-get_in f (k ∷ []) t (rw other at e)))
]
put_in-get_in (grow key v g f) (k ∷ k' ∷ ks) t e = elim (Bool-cases (key == k)) [
  | inl same ↦
      rw same (ap (λ (x : Forest). grow key v x f) (put_in-get_in g (k' ∷ ks) t (rw same at e)))
  | inr other ↦
      rw other
        (ap (λ (x : Forest). grow key v g x) (put_in-get_in f (k ∷ k' ∷ ks) t (rw other at e)))
]

parts_of-no_dot : (c : ℕ) (s : Text) → no_dot (c ∷ s) ≡ true → parts_of (c ∷ s) ≡ (c ∷ s) ∷ []
parts_of-no_dot c [] e = elim (Bool-cases (is_separator c)) [
  | inl dot ↦ absurd (false≢true (rw dot at e))
  | inr plain ↦ rw plain refl
]
parts_of-no_dot c (d ∷ s) e = elim (Bool-cases (is_separator c)) [
  | inl dot ↦ absurd (false≢true (rw dot at e))
  | inr plain ↦ rw (plain, parts_of-no_dot d s (rw plain at e)) refl
]

pub laws : TreeLaws tree
laws = record {
  erase_absent = λ t key e. rw (erase_in-absent t.1 key e) refl;
  put_child_same = λ root t path e. same_at root t path e;
  path_of_key = λ root key w. key_path root key w;
}
  where
    same_at :
        (root t : Tree) (path : Text) → within root path ≡ some t → replaced root path t ≡ root
    same_at root t [] e = sym (some-injective root t e)
    same_at root t (c ∷ path) e =
        ap (λ (f : Forest). (root.0, f)) (put_in-get_in root.1 (parts_of (c ∷ path)) t e)

    key_path :
        (root : Tree) (key : Text) → IsSegment key → within root key ≡ get_in root.1 (key ∷ [])
    key_path root [] w = absurd (false≢true w.1)
    key_path root (c ∷ s) w = ap (λ (ks : List Text). get_in root.1 ks) (parts_of-no_dot c s w.0)
