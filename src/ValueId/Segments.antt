-- ===== src/ValueId/Segments.antt =====
-- The abstract view of a name: its parts, which are not empty, hold no dot, and neither begin nor end
-- with a space.
pub mod Names
pub mod Parts
pub mod Walk
use refer.Base.{ℕ, Bool, true, false, not, ◌&&◌, ◌≡◌, List, [], ◌∷◌, ◌++◌}
use refer.Text.{Text, all}
use refer.ValueId.{separator, is_separator, is_blank}

abbrev pub no_dot : Text → Bool
no_dot s = all (λ c. not (is_separator c)) s

abbrev pub head_ok : Text → Bool
head_ok [] = false
head_ok (c ∷ s) = not (is_blank c)

abbrev pub last_ok : Text → Bool
last_ok [] = false
last_ok (c ∷ []) = not (is_blank c)
last_ok (c ∷ d ∷ s) = last_ok (d ∷ s)

abbrev pub no_double : Text → Bool
no_double [] = true
no_double (c ∷ []) = true
no_double (c ∷ d ∷ s) = not (is_separator c && is_separator d) && no_double (d ∷ s)

abbrev pub IsSegment : Text → Type 0
IsSegment s = (no_dot s ≡ true) × (head_ok s ≡ true) × (last_ok s ≡ true)

abbrev pub IsSegments : List Text → Type 0
IsSegments [] = Unit
IsSegments (s ∷ ss) = IsSegment s × IsSegments ss

-- The name of a list of parts.
abbrev pub join : List Text → Text
join [] = []
join (s ∷ []) = s
join (s ∷ t ∷ ss) = s ++ separator ∷ join (t ∷ ss)
