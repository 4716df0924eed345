-- ===== src/Variant/Keys.antt =====
-- `parseContainerKeys` of company_ref_variant_valuestore_variant.cpp: the keys of a container from a
-- text. The brackets, the trim pattern and the container operations come from outside the repository.
use refer.Base.{
  ℕ, zero, suc, ◌+◌, ◌≤◌, ◌<◌, ◌≡◌, refl, arith, Bool, true, not, Option, none, some, List, [], ◌∷◌,
  ◌++◌, eqb, length, length-append, Option-cases, inl, inr,
}
use refer.Text.{Text, take, drop, find_first, all}
use refer.Text.Search.{take-length, drop_past, find_first-append, find_first-none, length-drop}

abbrev comma : ℕ
comma = b','

abbrev is_comma : ℕ → Bool
is_comma c = eqb c comma

-- `removeCurlyBrackets`, the trim by `TrimPattern`, and `ValueContainer::clear` and `add`.
pub record KeyParser {ℓ} (C : Type ℓ) : Type ℓ where
  pub remove_brackets : Text → Text
  pub trim : Text → Text
  pub clear : C → C
  pub add : C → Text → C

module _ {ℓ} {C : Type ℓ} (k : KeyParser C) where
  -- The loop, on the text from `startPos` on; each comma takes one unit of fuel.
  add_keys : ℕ → Text → C → Option C
  add_keys zero s c = none
  add_keys (suc n) s c = elim (find_first is_comma s) [
    | none ↦ some (k.add c (k.trim s))
    | some next ↦ add_keys n (drop (next + 1) s) (k.add c (k.trim (take next s)))
  ]

  -- `parseContainerKeys`
  pub parse_container_keys : C → Text → Option C
  parse_container_keys c arg =
      let str = k.remove_brackets arg in add_keys (suc (length str)) str (k.clear c)

  -- The keys added one after the other.
  abbrev add_all : List Text → C → C
  add_all [] c = c
  add_all (s ∷ ss) c = add_all ss (k.add c (k.trim s))

-- Keys between commas.
abbrev join_keys : Text → List Text → Text
join_keys s [] = s
join_keys s (t ∷ ts) = s ++ comma ∷ join_keys t ts

-- No key has a comma.
abbrev HasNoComma : Text → List Text → Type 0
HasNoComma s [] = all (λ c. not (is_comma c)) s ≡ true
HasNoComma s (t ∷ ts) = (all (λ c. not (is_comma c)) s ≡ true) × HasNoComma t ts

module _ {ℓ} {C : Type ℓ} (k : KeyParser C) where
  add_keys-join_keys :
      (n : ℕ) (s : Text) (ts : List Text) (c : C)
      → length ts < n
      → HasNoComma s ts
      → add_keys k n (join_keys s ts) c ≡ some (add_all k (s ∷ ts) c)
  unfolding add_keys
  add_keys-join_keys zero s ts c l h = absurd (omega arith)
  add_keys-join_keys (suc n) s [] c l h = rw (find_first-none is_comma s h, add_keys) refl
  add_keys-join_keys (suc n) s (t ∷ ts) c l h =
      rw
        (
          add_keys,
          find_first-append is_comma s (join_keys t ts) comma h.0 refl,
          drop_past s comma (join_keys t ts),
          take-length s (comma ∷ join_keys t ts),
        )
        (add_keys-join_keys n t ts (k.add c (k.trim s)) (omega arith) h.1)

  length-join_keys : (s : Text) (ts : List Text) → length ts ≤ length (join_keys s ts)
  length-join_keys s [] = omega arith
  length-join_keys s (t ∷ ts) =
      omega (arith, length-append s (comma ∷ join_keys t ts), length-join_keys t ts)

  -- A text that is keys without commas between commas, once its brackets are removed, clears the
  -- container and adds the trimmed keys in order.
  pub parse_container_keys-join_keys :
      (arg s : Text) (ts : List Text) (c : C)
      → k.remove_brackets arg ≡ join_keys s ts
      → HasNoComma s ts
      → parse_container_keys k c arg ≡ some (add_all k (s ∷ ts) (k.clear c))
  unfolding parse_container_keys
  parse_container_keys-join_keys arg s ts c e h = rw e (
      add_keys-join_keys (suc (length (join_keys s ts))) s ts (k.clear c)
        (omega (arith, length-join_keys s ts)) h)

  add_keys-returns :
      (n : ℕ) (s : Text) (c : C) → length s < n → (c' : C) × (add_keys k n s c ≡ some c')
  unfolding add_keys find_first
  add_keys-returns zero s c l = absurd (omega arith)
  add_keys-returns (suc n) [] c l = (k.add c (k.trim []), refl)
  add_keys-returns (suc n) (x ∷ s) c l = elim (Option-cases (find_first is_comma (x ∷ s))) [
    | inl e ↦ (k.add c (k.trim (x ∷ s)), rw (e, add_keys) refl)
    | inr (i, e) ↦
        let (c', r) =
          add_keys-returns n (drop (i + 1) (x ∷ s)) (k.add c (k.trim (take i (x ∷ s))))
            (omega (arith, length-drop (i + 1) (x ∷ s))) in
        (c', rw (e, add_keys) r)
  ]

  -- The loop over the commas of a text ends, whatever the text.
  parse_container_keys-returns :
      (arg : Text) (c : C) → (c' : C) × (parse_container_keys k c arg ≡ some c')
  unfolding parse_container_keys
  parse_container_keys-returns arg c =
      add_keys-returns (suc (length (k.remove_brackets arg))) (k.remove_brackets arg) (k.clear c)
        (omega arith)
