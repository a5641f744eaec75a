-- ===== src/Validation/Tests.antt =====
-- A DID and an address through their pipes.
use a2a_agent_layer.Common.{◌≡◌, refl, Text, codes, ok}
use a2a_agent_layer.Validation.{ParsedDid, transform_did, transform_address}
use a2a_agent_layer.Validation.Did.{IsDidOf, transform_did_iff}

abbrev did : Text
did = codes "did:ethr:0xAb"

abbrev parsed : ParsedDid
parsed = record { did = did; method = codes "ethr"; identifier = codes "0xAb" }

parsed_did : transform_did did ≡ ok parsed
unfolding transform_did
parsed_did = refl

transform_did_iff_example :
    (did ≡ did) × IsDidOf (record { method = codes "ethr"; identifier = codes "0xAb" }) did
transform_did_iff_example = (transform_did_iff did parsed).0 parsed_did

abbrev address : Text
address = codes "0x00000000000000000000000000000000000000AB"

abbrev lowered : Text
lowered = codes "0x00000000000000000000000000000000000000ab"

parsed_address : transform_address address ≡ ok lowered
unfolding transform_address
parsed_address = refl
