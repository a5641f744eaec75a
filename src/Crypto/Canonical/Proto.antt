-- ===== src/Crypto/Canonical/Proto.antt =====
-- What the canonical form leaves out: a property named `__proto__`.
use a2a_agent_layer.Common.{◌≡◌, ap, Text, codes, text_eq_refl, arith}
use a2a_agent_layer.Common.Json.{Json, obj, Fields, end, field}
use a2a_agent_layer.Crypto.Canonical.{
  insert_field, assign_field, assign_all, sort_keys_deep, sort_fields, SignedRequestEnvelope,
  canonicalize_signed_request,
}
use a2a_agent_layer.Crypto.Canonical.Order.{canonicalize_signed_request_payload}

abbrev pub proto : Text
proto = codes "__proto__"

assign_field-proto : (acc : Fields) (v : Json) → assign_field acc proto v ≡ acc
unfolding assign_field
assign_field-proto acc v = rw (text_eq_refl proto)

assign_all-proto :
    (acc : Fields) (v : Json) (fs : Fields)
    → assign_all acc (insert_field proto v fs) ≡ assign_all acc fs
unfolding assign_all insert_field
assign_all-proto acc v end = assign_field-proto acc v
assign_all-proto acc v (field j w fs) =
    ground (arith, assign_field-proto acc v, assign_all-proto (assign_field acc j w) v fs)

dropped :
    (v : Json) (fs : Fields) → sort_keys_deep (obj (field proto v fs)) ≡ sort_keys_deep (obj fs)
unfolding sort_keys_deep
dropped v fs = ap obj (assign_all-proto end (sort_keys_deep v) (sort_fields fs))

-- A property named `__proto__` of the payload does not show in the canonical text: with it and
-- without it, and with any value, the text is the same.
pub canonicalize_signed_request-proto :
    (e : SignedRequestEnvelope) (v : Json) (fs : Fields)
    → canonicalize_signed_request (record e { request_payload = obj (field proto v fs) })
      ≡ canonicalize_signed_request (record e { request_payload = obj fs })
canonicalize_signed_request-proto e v fs =
    canonicalize_signed_request_payload e (obj (field proto v fs)) (obj fs) (dropped v fs)
