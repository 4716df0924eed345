-- ===== src/ValueId/Segments/Walk.antt =====
-- The range of the iterator against the list of parts.
use mathlib.Core.Option
use refer.Base.{
  ℕ, zero, suc, ◌+◌, ◌≤◌, ◌≡◌, refl, sym, ap, ◌∙◌, arith, true, false, Option, none, some, List, [],
  ◌∷◌, ◌++◌, ltb, nat_eq, list_eq, length, length-append,
}
use refer.Base.Equality.{beq_refl}
use refer.Text.{Text, take, drop, find_first}
use refer.Text.Search.{
  take-length, drop_past, drop-drop, length-drop, find_first-append, find_first-none,
}
use refer.ValueId.{
  ValueIdIterator, separator, is_separator, trim_name, first, next, begin, end, iterator_eq,
}
use refer.ValueId.Segments.{IsSegment, IsSegments, join}
use refer.ValueId.Segments.Names.{trim_name-join}

-- What `for` reads from one iterator up to another; `none` means that the fuel ran out.
unfoldable pub elements : ℕ → ValueIdIterator → ValueIdIterator → Option (List Text)
elements zero it stop = none
elements (suc fuel) it stop = elim (iterator_eq it stop) [
  | true ↦ some []
  | false ↦ Option.map (◌∷◌ it.current) (elements fuel (next it) stop)
]

elements_step :
    (fuel : ℕ) (it stop : ValueIdIterator)
    → iterator_eq it stop ≡ false
    → elements (suc fuel) it stop ≡ Option.map (◌∷◌ it.current) (elements fuel (next it) stop)
unfolding elements
elements_step fuel it stop e = rw (e, elements)

elements_stop :
    (fuel : ℕ) (it stop : ValueIdIterator)
    → iterator_eq it stop ≡ true
    → elements (suc fuel) it stop ≡ some []
unfolding elements
elements_stop fuel it stop e = rw (e, elements)

module _ (name : Text) where
  -- `rest` stands at `pos`.
  abbrev At : ℕ → List Text → Type 0
  At pos [] = pos ≡ length name + 1
  At pos (r ∷ rest) = (drop pos name ≡ join (r ∷ rest)) × (pos ≤ length name)

  abbrev at : Text → ℕ → ValueIdIterator
  at t pos = record { current = t; name = name; pos = pos }

  At-length :
      (pos : ℕ) (r : Text) (rest : List Text)
      → At pos (r ∷ rest)
      → length name ≡ pos + length (join (r ∷ rest))
  At-length pos r rest h = omega (arith, ap length h.0, length-drop pos name)

  At-next :
      (pos : ℕ) (r : Text) (rest : List Text) → At pos (r ∷ rest) → At (pos + (length r + 1)) rest
  At-next pos r [] h = omega (arith, At-length pos r [] h)
  At-next pos r (q ∷ rest) h = (
    sym (drop-drop pos (length r + 1) name)
        ∙ ap (drop (length r + 1)) h.0
        ∙ drop_past r separator (join (q ∷ rest)),
    omega (arith, At-length pos r (q ∷ rest) h, length-append r (separator ∷ join (q ∷ rest))),
  )

  end_is_end : iterator_eq (end name) (end name) ≡ true
  unfolding iterator_eq end
  end_is_end = ground (arith, beq_refl name)

  -- One step of the iterator stands on the next part.
  next_part :
      (t : Text) (pos : ℕ) (r : Text) (rest : List Text)
      → IsSegment r
      → At pos (r ∷ rest)
      → next (at t pos) ≡ at r (pos + (length r + 1))
  unfolding next
  next_part t pos r [] v h =
      let inside : ltb (length name) pos ≡ false = ground (arith, h.1) in
      let found : find_first is_separator (drop pos name) ≡ none =
        rw h.0 (find_first-none is_separator r v.0) in
      let part : trim_name (drop pos name) ≡ r = rw h.0 (trim_name-join (r ∷ []) (v, tt)) in
      rw (inside, found, part)
  next_part t pos r (q ∷ rest) v h =
      let inside : ltb (length name) pos ≡ false = ground (arith, h.1) in
      let found : find_first is_separator (drop pos name) ≡ some (length r) =
        rw h.0 (find_first-append is_separator r (join (q ∷ rest)) separator v.0 refl) in
      let part : trim_name (take (length r) (drop pos name)) ≡ r =
        rw (h.0, take-length r (separator ∷ join (q ∷ rest))) (trim_name-join (r ∷ []) (v, tt)) in
      rw (inside, found, part)

  -- Past the last part the iterator is the end.
  next_last : (t : Text) (pos : ℕ) → At pos [] → next (at t pos) ≡ end name
  unfolding next end
  next_last t pos h = let past : ltb (length name) pos ≡ true = ground (arith, h) in rw past

  before_end :
      (t : Text) (pos : ℕ) (rest : List Text)
      → At pos rest
      → iterator_eq (at t pos) (end name) ≡ false
  unfolding iterator_eq end
  before_end t pos [] h = ground arith
  before_end t pos (r ∷ rest) h = ground (arith, h.1)

  elements-at :
      (t : Text) (pos : ℕ) (rest : List Text)
      → IsSegments rest
      → At pos rest
      → elements (suc (suc (length rest))) (at t pos) (end name) ≡ some (t ∷ rest)
  elements-at t pos [] w h =
      elements_step 1 (at t pos) (end name) (before_end t pos [] h)
      ∙ rw (next_last t pos h, elements_stop 0 (end name) (end name) end_is_end)
  elements-at t pos (r ∷ rest) w h =
      elements_step (suc (suc (length rest))) (at t pos) (end name) (before_end t pos (r ∷ rest) h)
      ∙ rw (
        next_part t pos r rest w.0 h,
        elements-at r (pos + (length r + 1)) rest w.1 (At-next pos r rest h),
      )

first_part :
    (s : Text) (ss : List Text)
    → IsSegments (s ∷ ss)
    → (first (join (s ∷ ss)) ≡ at (join (s ∷ ss)) s (length s + 1))
      × At (join (s ∷ ss)) (length s + 1) ss
unfolding first
first_part [] ss w = cc
first_part (c ∷ s) [] w =
    let found = find_first-none is_separator (c ∷ s) w.0.0 in
    (rw (found, trim_name-join ((c ∷ s) ∷ []) w), refl)
first_part (c ∷ s) (t ∷ ss) w =
    let found = find_first-append is_separator (c ∷ s) (join (t ∷ ss)) separator w.0.0 refl in
    let part : trim_name (take (length (c ∷ s)) ((c ∷ s) ++ separator ∷ join (t ∷ ss))) ≡ c ∷ s =
      rw (take-length (c ∷ s) (separator ∷ join (t ∷ ss)))
        (trim_name-join ((c ∷ s) ∷ []) (w.0, tt)) in
    (
      rw (found, part),
      (
        drop_past (c ∷ s) separator (join (t ∷ ss)),
        omega (arith, length-append s (separator ∷ join (t ∷ ss))),
      ),
    )

-- The range of a name of parts reads the parts in order, and ends after the last one.
pub elements-join :
    (s : Text) (ss : List Text)
    → IsSegments (s ∷ ss)
    → elements (suc (length (s ∷ ss))) (begin (join (s ∷ ss))) (end (join (s ∷ ss))) ≡ some (s ∷ ss)
unfolding begin
elements-join s ss w =
    let start = first_part s ss w in
    rw start.0 (elements-at (join (s ∷ ss)) s (length s + 1) ss w.1 start.1)
