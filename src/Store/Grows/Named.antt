-- ===== src/Store/Grows/Named.antt =====
-- `VariantValueStore::add`: the id and the token of the value that it adds.
use refer.Base.{ℕ, ◌<◌, ◌≡◌, Option, none, some, list_eq, nat_eq, ◌⊎◌, false}
use refer.Base.Table.{find, put}
use refer.ValueId.{ValueId, value_id}
use refer.HashToken.{HashToken, transport_token, is_valid}
use refer.Bucketizer
use refer.Bucketizer.{Bucketizer, make}
use refer.Bucketizer.Made.{IsOrdered}
use refer.Variant
use refer.Variant.{Variant}
use refer.Store.{Node, Store, get, find_value_id}

-- The value that `register` leaves: with its token, and the id that the bucketizer has for the token.
abbrev pub renamed {ℓ} : {N : Type ℓ} → Variant N → HashToken → Bucketizer ValueId → Variant N
renamed v token b = record v {
  value = record v.value { hash_token = transport_token token };
  value_id = Bucketizer.get b token;
}

-- What a call of `register` that ends did.
record Registered {ℓ} {N : Type ℓ} (hf : ValueId → ℕ) (s : Store N) (p : ℕ) (r : Option ℕ)
    (s' : Store N) : Type ℓ where
  node : Node N
  token : HashToken
  b : Bucketizer ValueId
  at : find p s.heap ≡ some node
  made : make hf s.bucketizer (Variant.id node.variant) ≡ some (token, b)
  bucketizer : s'.bucketizer ≡ b
  heap : s'.heap ≡ put p (record node { variant = renamed node.variant token b }) s.heap
  fresh : s'.fresh ≡ s.fresh
  result :
      (r ≡ none)
      ⊎ ((r ≡ some p)
          × (get s (Variant.id (renamed node.variant token b)) ≡ none)
          × (s'.ws_map ≡ put (Variant.id (renamed node.variant token b)) p s.ws_map))

module _ {ℓ} {N : Type ℓ} (hf : ValueId → ℕ) (i : ℕ) (v : Variant N) where
  -- The bucketizer is in order, and the address `i`, which was handed out, has the value `v`.
  record Holds (s : Store N) : Type ℓ where
    ordered : IsOrdered hf s.bucketizer
    bounded : i < s.fresh
    node : Node N
    at : find i s.heap ≡ some node
    same : node.variant ≡ v

-- What `add` of the value `v` at `p` did, if it returns the value.
pub record Added {ℓ} {N : Type ℓ} (s : Store N) (p : ℕ) (v : Variant N) (q : ℕ) (s' : Store N)
    : Type ℓ where
  pub same : q ≡ p
  pub node : Node N
  pub token : HashToken
  pub at : find p s'.heap ≡ some node
  pub carries : node.variant.value.hash_token ≡ transport_token token
  pub unknown : get s (Variant.id node.variant) ≡ none
  pub found : get s' (Variant.id node.variant) ≡ some p
  pub named : (Variant.id node.variant ≡ Variant.id v) ⊎ (is_valid token ≡ false)
  pub read_back : find_value_id s' token ≡ node.variant.value_id
