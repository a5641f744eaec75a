-- ===== src/Identity/Claim.antt =====
-- src/modules/identity/did-controller.ts. `ethers.verifyMessage` is a parameter: the address that a
-- signature recovers from a message, or none if it throws.
pub mod Laws
pub mod Tests
use a2a_agent_layer.Common.{
  Bool, false, Option, none, some, List, [], ◌∷◌, ◌++◌, Text, codes, text_eq, lower_case,
}

pub record RegistrationClaim : Type 0 where
  pub agent_did : Text
  pub owner : Text
  pub public_key : Text
  pub endpoint : Text

-- `lines.join('\n')`
unfoldable pub join_lines : List Text → Text
join_lines [] = []
join_lines (s ∷ []) = s
join_lines (s ∷ t ∷ lines) = s ++ 10 ∷ join_lines (t ∷ lines)

unfoldable pub build_registration_message : RegistrationClaim → Text
unfolding join_lines lower_case
build_registration_message claim = join_lines (
    codes "PROM agent registration"
    ∷ (codes "did: " ++ claim.agent_did)
    ∷ (codes "owner: " ++ lower_case claim.owner)
    ∷ (codes "publicKey: " ++ claim.public_key)
    ∷ (codes "endpoint: " ++ claim.endpoint)
    ∷ [])

unfoldable pub verify_did_controller : (Text → Text → Option Text) → RegistrationClaim → Text → Bool
unfolding text_eq lower_case
verify_did_controller verify_message claim signature =
    elim (verify_message (build_registration_message claim) signature) [
      | none ↦ false
      | some recovered ↦ text_eq (lower_case recovered) (lower_case claim.owner)
    ]
