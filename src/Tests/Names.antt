-- ===== src/Tests/Names.antt =====
-- Value ids at concrete inputs: `aa.b.c` and its parts.
use refer.Base.{◌≡◌, refl, some, [], ◌∷◌, ◌++◌, list_eq, nat_eq}
use refer.Text.{Text}
use refer.ValueId.{separator, trim_name, begin, end}
use refer.ValueId.Segments.{IsSegment, join}
use refer.ValueId.Segments.Walk.{elements, elements-join}
use refer.ValueId.Trim.{trim_name-dots}

abbrev aa : Text
aa = 97 ∷ 97 ∷ []

abbrev bb : Text
bb = 98 ∷ []

aa-IsSegment : IsSegment aa
aa-IsSegment = (refl, refl, refl)

bb-IsSegment : IsSegment bb
bb-IsSegment = (refl, refl, refl)

elements-join_example :
    elements 4 (begin (join (aa ∷ bb ∷ aa ∷ []))) (end (join (aa ∷ bb ∷ aa ∷ [])))
    ≡ some (aa ∷ bb ∷ aa ∷ [])
elements-join_example =
    elements-join aa (bb ∷ aa ∷ []) (aa-IsSegment, (bb-IsSegment, (aa-IsSegment, tt)))

trim_name-dots_example :
    (trim_name (aa ++ separator ∷ separator ∷ bb) ≡ aa ++ separator ∷ bb)
    × (trim_name (aa ++ separator ∷ separator ∷ separator ∷ bb) ≡ aa ++ separator ∷ separator ∷ bb)
trim_name-dots_example = trim_name-dots aa bb aa-IsSegment bb-IsSegment
