-- ===== src/Identity/Claim/Tests.antt =====
-- Two claims of one owner, and a message that reads in two ways.
use a2a_agent_layer.Common.{◌≡◌, refl, ◌++◌, codes, lower_case}
use a2a_agent_layer.Identity.Claim.{RegistrationClaim, build_registration_message}
use a2a_agent_layer.Identity.Claim.Laws.{
  build_registration_message-inj, break, build_registration_message_shift,
}

abbrev claim : RegistrationClaim
claim = record {
  agent_did = codes "d";
  owner = codes "0A";
  public_key = codes "k";
  endpoint = codes "http://e";
}

abbrev same_claim : RegistrationClaim
same_claim = record claim { owner = codes "0a" }

same_message : build_registration_message claim ≡ build_registration_message same_claim
unfolding build_registration_message
same_message = refl

build_registration_message-inj_example :
    (codes "d" ≡ codes "d")
    × (lower_case (codes "0A") ≡ lower_case (codes "0a"))
    × (codes "k" ≡ codes "k")
    × (codes "http://e" ≡ codes "http://e")
unfolding lower_case
build_registration_message-inj_example =
    build_registration_message-inj claim same_claim (cc, tt) (cc, tt) (cc, (cc, tt)) (cc, (cc, tt))
      (cc, tt) (cc, tt) same_message

build_registration_message_shift_example :
    build_registration_message
      (record claim { public_key = codes "k" ++ (break ++ codes "http://b") })
    ≡ build_registration_message
        (record claim { endpoint = codes "http://b" ++ (break ++ codes "http://e") })
build_registration_message_shift_example =
    build_registration_message_shift (codes "d") (codes "0A") (codes "k") (codes "http://b")
      (codes "http://e")
