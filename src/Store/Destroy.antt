-- ===== src/Store/Destroy.antt =====
-- `VariantValueStore::~VariantValueStore`. The listeners of removals are disconnected first, so the
-- removals that it signals reach nobody.
pub mod Endless
use refer.Base.{ℕ, zero, suc, Option, none, some, [], ◌∷◌, list_eq, nat_eq}
use refer.Base.Table.{find}
use refer.Bucketizer
use refer.Variant
use refer.Variant.{local, get_first}
use refer.MapValue.{Requests}
use refer.Store.{Node, Store}
use refer.Store.Delete.{unlink, del_value, del_children}

module _ {ℓ} {N : Type ℓ} (requests : Requests N) where
  -- The loop over the first child of the root; each round takes one unit of fuel.
  pub tear_down : ℕ → Store N → Option (Store N)
  tear_down zero s = none
  tear_down (suc n) s = elim (find 0 s.heap) [
    | none ↦ none
    | some root ↦ elim (get_first root.children) [
      | none ↦ some s
      | some c ↦ elim (find c s.heap) [
        | none ↦ none
        | some child ↦ elim (del_children requests n s child.children local) [
          | none ↦ none
          | some s1 ↦ elim (find c s1.heap) [
            | none ↦ none
            | some child1 ↦
                let s2 = del_value requests s1 c child1 local in
                tear_down n (unlink s2 (some 0) (Variant.id child.variant))
          ]
        ]
      ]
    ]
  ]

  -- The destructor.
  pub destroy : ℕ → Store N → Option (Store N)
  destroy n s = elim (tear_down n s) [
    | none ↦ none
    | some s' ↦ some (record s' { bucketizer = Bucketizer.clear s'.bucketizer; ws_map = [] })
  ]
