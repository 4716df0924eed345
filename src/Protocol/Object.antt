-- ===== src/Protocol/Object.antt =====
-- `ServerProtocolHandler::doMessage` of `VsGetObject`: the values whose ids match a pattern. The match
-- with the regular expression comes from outside the repository.
use refer.Base.{
  ℕ, Bool, true, false, ◌||◌, Option, none, some, List, [], ◌∷◌, ◌++◌, eqb, if◌then◌else◌,
}
use refer.Base.Call.{Call, returned, ◌>>=◌}
use refer.Text.{Text, find_first, find_last, take}
use refer.ValueId.{value_id}
use refer.ValueData.{Value}
use refer.Variant
use refer.Store
use refer.Store.{Store}
use refer.Protocol.{Handler, Outside, is_empty, node_at, below, vs_result}
use refer.Protocol.Message.{ClientMessage, Status, OneId}

abbrev is_wildcard : ℕ → Bool
is_wildcard c = eqb c b'*'

-- `msg.id().substr(0, firstWildcard)`
before_wildcard : Text → Text
before_wildcard id = elim (find_first is_wildcard id) [ none ↦ id | some first ↦ take first id ]

-- `firstWildcard == lastWildcard || firstWildcard == std::string::npos`
has_single_wildcard : Text → Bool
has_single_wildcard id = elim (find_first is_wildcard id) [
  | none ↦ true
  | some first ↦ elim (find_last is_wildcard id) [ none ↦ false | some last ↦ eqb first last ]
]

module _ {ℓ} {N : Type ℓ} (out : Outside N) where
  -- The values that the function of the visit adds.
  matching : Store N → Text → List ℕ → Call (List (Value N))
  matching s pattern [] = returned []
  matching s pattern (p ∷ ps) = do
    node ← node_at s p
    rest ← matching s pattern ps
    returned (
        if out.matches pattern (Variant.id node.variant)
        then Variant.get node.variant ∷ rest
        else rest)

  -- `doMessage(VsGetObject)`
  pub vs_get_object : ℕ → Handler N → OneId → Call (Option (ClientMessage N) × Handler N)
  vs_get_object n h msg =
      if eqb (Store.size h.store) 0 || is_empty msg.id
      then returned (some (vs_result msg.sequence_no Status.error_not_found []), h)
      else elim (Store.get h.store (value_id (before_wildcard msg.id))) [
        | none ↦ returned (some (vs_result msg.sequence_no Status.error_not_found []), h)
        | some p ↦ do
          node ← node_at h.store p
          ps ← below n h.store p
          others ← matching h.store msg.id ps
          let values =
              (if has_single_wildcard msg.id then Variant.get node.variant ∷ [] else []) ++ others
          let status = if is_empty values then Status.error_not_found else Status.success
          returned (some (vs_result msg.sequence_no status values), h)
      ]
