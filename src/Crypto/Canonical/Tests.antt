-- ===== src/Crypto/Canonical/Tests.antt =====
-- A request whose payload has its properties in two orders.
use a2a_agent_layer.Common.{◌≡◌, ◌≢◌, none, some, codes, Text}
use a2a_agent_layer.Common.Json.{num, str, obj, Fields, end, field}
use a2a_agent_layer.Crypto.Canonical.{
  SignedRequestEnvelope, canonicalize_signed_request, hash_canonical_request,
}
use a2a_agent_layer.Crypto.Canonical.Order.{SameJson, SameFields, hash_canonical_request-same}
use a2a_agent_layer.Crypto.Canonical.Proto.{proto, canonicalize_signed_request-proto}

abbrev one_order : Fields
one_order = field (codes "ba") (num (codes "1")) (field (codes "a") (str (codes "x")) end)

abbrev other_order : Fields
other_order = field (codes "a") (str (codes "x")) (field (codes "ba") (num (codes "1")) end)

abbrev envelope : SignedRequestEnvelope
envelope = record {
  agent_from_id = codes "did:x:1";
  agent_to_id = codes "did:x:2";
  session_id = codes "s";
  request_payload = obj one_order;
  max_budget = codes "5";
  policy_digest = none;
  nonce = some (codes "n");
}

abbrev same_text : Text → Text
same_text s = s

apart : codes "ba" ≢ codes "a"
apart e = cc

hash_canonical_request-same_example :
    (canonicalize_signed_request (record envelope { request_payload = obj other_order })
      ≡ canonicalize_signed_request envelope)
    × (hash_canonical_request same_text (record envelope { request_payload = obj other_order })
        ≡ hash_canonical_request same_text envelope)
hash_canonical_request-same_example =
    hash_canonical_request-same same_text envelope (obj other_order)
      (SameJson.in_obj (SameFields.swap apart))

canonicalize_signed_request-proto_example :
    canonicalize_signed_request
      (record envelope { request_payload = obj (field proto (num (codes "1")) one_order) })
    ≡ canonicalize_signed_request (record envelope { request_payload = obj one_order })
canonicalize_signed_request-proto_example =
    canonicalize_signed_request-proto envelope (num (codes "1")) one_order
