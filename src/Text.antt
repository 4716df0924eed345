-- ===== src/Text.antt =====
-- `std::string` as a list of character codes, with the searches that the source calls.
pub mod Search
pub mod Number
use Prim.Native.Char.{code}
use Prim.Native.String.{String}
use refer.Base.{
  ℕ, zero, suc, ◌+◌, Bool, true, false, not, ◌&&◌, ◌||◌, Option, none, some, List, [], ◌∷◌, eqb,
  ltb, if◌then◌else◌, ◌==◌, nat_eq, length,
}

abbrev pub Text : Type 0
Text = List ℕ

-- The codes of a literal.
abbrev pub codes : String → Text
codes String.[] = []
codes (String.◌∷◌ c s) = code c ∷ codes s

abbrev pub take {ℓ} : {A : Type ℓ} → ℕ → List A → List A
take zero xs = []
take (suc n) [] = []
take (suc n) (x ∷ xs) = x ∷ take n xs

abbrev pub drop {ℓ} : {A : Type ℓ} → ℕ → List A → List A
drop zero xs = xs
drop (suc n) [] = []
drop (suc n) (x ∷ xs) = drop n xs

-- `find_first_of`, `find_first_not_of`: the first position where the test holds.
unfoldable pub find_first : (ℕ → Bool) → Text → Option ℕ
find_first p [] = none
find_first p (c ∷ s) = elim (p c) [
  | true ↦ some 0
  | false ↦ elim (find_first p s) [ none ↦ none | some i ↦ some (suc i) ]
]

-- `find_last_of`, `find_last_not_of`: the last one.
unfoldable pub find_last : (ℕ → Bool) → Text → Option ℕ
find_last p [] = none
find_last p (c ∷ s) = elim (find_last p s) [
  | some i ↦ some (suc i)
  | none ↦ if p c then some 0 else none
]

-- `substr(pos, n)` within the text.
abbrev pub substr : Text → ℕ → ℕ → Text
substr s pos n = take n (drop pos s)

-- `operator<` of strings, by their unsigned characters.
unfoldable pub text_lt : Text → Text → Bool
text_lt [] [] = false
text_lt [] (d ∷ t) = true
text_lt (c ∷ s) [] = false
text_lt (c ∷ s) (d ∷ t) = if eqb c d then text_lt s t else ltb c d

-- The test holds at every character.
abbrev pub all : (ℕ → Bool) → Text → Bool
all p [] = true
all p (c ∷ s) = p c && all p s
