-- ===== src/Policy/Wildcard/Tests.antt =====
-- Wildcard patterns on the names that the program uses.
use a2a_agent_layer.Common.{true, ◌≡◌, refl, Text, codes}
use a2a_agent_layer.Policy.Wildcard.{match_wildcard}
use a2a_agent_layer.Policy.Wildcard.Spec.{Covers}
use a2a_agent_layer.Policy.Wildcard.Laws.{match_wildcard_iff}

abbrev agent : Text
agent = codes "did:a.b:7"

abbrev agents : Text
agents = codes "did:*:7"

accepted : match_wildcard agents agent ≡ true
unfolding match_wildcard
accepted = refl

match_wildcard_iff_example : Covers agents agent
match_wildcard_iff_example = (match_wildcard_iff agents agent).0 accepted
