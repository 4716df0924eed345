-- ===== src/Dmo/Paths.antt =====
-- `getMetaData` and `getMetaDataPath` on one path.
use refer.Base.{
  suc, Bool, false, ◌≡◌, refl, Option, none, some, List, [], ◌∷◌, if◌then◌else◌, Option-cases, inl,
  inr, length,
}
use refer.Base.Call.{returned}
use refer.Text.{Text}
use refer.ValueId.{ValueId, value_id, add_assign}
use refer.ValueId.Segments.{IsSegments, join}
use refer.ValueId.Segments.Names.{join-ok}
use refer.ValueId.Segments.Parts.{is_empty-head_ok}
use refer.ValueId.Segments.Walk.{elements-join}
use refer.ValueData.{Value}
use refer.Dmo.{
  PropertyTree, delim, is_container, meta_data_loop, meta_path_loop, get_meta_data,
  get_meta_data_path,
}

module _ {ℓ} {T N : Type ℓ} (pt : PropertyTree T (Value N)) (root : T) where
  -- A branch and its path: a container stands above the name of its definition.
  pub data Located : Option T → ValueId → Type ℓ where
    nowhere : Located none []
    at_path :
        (q : ValueId) (child : T)
        → pt.get_child_optional root q ≡ some child
        → Located (some child) (if is_container pt child then add_assign q (value_id delim) else q)

  loops-Located :
      (es : List ValueId) (id : ValueId) (skip : Bool) (found : Option T)
      → Located found id
      → Located (meta_data_loop pt root id skip found es) (meta_path_loop pt root id skip es)
  unfolding meta_data_loop meta_path_loop
  loops-Located [] id skip found l = l
  loops-Located (e ∷ es) id skip found l =
      let search_id = if skip then id else add_assign id e in
      elim (Option-cases (pt.get_child_optional root search_id)) [
        | inl z ↦ rw (meta_data_loop, meta_path_loop, z) nowhere
        | inr (child, z) ↦
            rw (meta_data_loop, meta_path_loop, z)
              (loops-Located es _ (is_container pt child) (some child) (at_path search_id child z))
      ]

  -- On a name of one or more parts, `getMetaData` and `getMetaDataPath` end; either there is no branch
  -- and the path is empty, or the path leads to the branch, with the name of the definition behind it
  -- if the branch is a container.
  pub get_meta_data_path-Located :
      (s : Text) (ss : List Text)
      → IsSegments (s ∷ ss)
      → (found : Option T) × (path : ValueId) × (get_meta_data pt
            (suc (length (s ∷ ss)))
            root
            (join (s ∷ ss))
          ≡ returned found)
        × (get_meta_data_path pt (suc (length (s ∷ ss))) root (join (s ∷ ss)) ≡ returned path)
        × Located found path
  unfolding get_meta_data get_meta_data_path
  get_meta_data_path-Located s ss w =
      let range = elements-join s ss w in
      (
        meta_data_loop pt root [] false none (s ∷ ss),
        meta_path_loop pt root [] false (s ∷ ss),
        rw (get_meta_data, is_empty-head_ok (join (s ∷ ss)) (join-ok s ss w).0, range) refl,
        rw (get_meta_data_path, is_empty-head_ok (join (s ∷ ss)) (join-ok s ss w).0, range) refl,
        loops-Located (s ∷ ss) [] false none nowhere,
      )
