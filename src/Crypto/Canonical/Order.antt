-- ===== src/Crypto/Canonical/Order.antt =====
-- The canonical form does not depend on the order of an object's properties, at any depth.
use a2a_agent_layer.Common.{true, false, ◌≡◌, ◌≢◌, refl, sym, ap, ap₂, ◌∙◌, [], ◌∷◌, Text, arith}
use a2a_agent_layer.Common.Json.{Json, arr, obj, Items, nil, cons, Fields, end, field}
use a2a_agent_layer.Crypto.Canonical.{
  text_lt, insert_field, assign_all, sort_keys_deep, sort_items, sort_fields, SignedRequestEnvelope,
  canonicalize_signed_request, hash_canonical_request,
}

-- Equal up to the order of the properties of each object. Two properties may change places if their
-- names differ, which the properties of an object do.
mutual
  pub data SameJson : Json → Json → Type 0 where
    same : {v : Json} → SameJson v v
    in_arr : {xs ys : Items} → SameItems xs ys → SameJson (arr xs) (arr ys)
    in_obj : {fs gs : Fields} → SameFields fs gs → SameJson (obj fs) (obj gs)

  pub data SameItems : Items → Items → Type 0 where
    no_items : SameItems nil nil
    both :
        {x y : Json} {xs ys : Items}
        → SameJson x y
        → SameItems xs ys
        → SameItems (cons x xs) (cons y ys)

  pub data SameFields : Fields → Fields → Type 0 where
    no_fields : SameFields end end
    keep :
        {k : Text} {v w : Json} {fs gs : Fields}
        → SameJson v w
        → SameFields fs gs
        → SameFields (field k v fs) (field k w gs)
    swap :
        {j k : Text} {v w : Json} {fs : Fields}
        → j ≢ k
        → SameFields (field j v (field k w fs)) (field k w (field j v fs))
    trans : {fs gs hs : Fields} → SameFields fs gs → SameFields gs hs → SameFields fs hs

text_lt_asym : (s t : Text) → text_lt s t ≡ true → text_lt t s ≡ false
unfolding text_lt
text_lt_asym [] [] h = cc
text_lt_asym [] (y ∷ t) h = refl
text_lt_asym (x ∷ s) [] h = cc
text_lt_asym (x ∷ s) (y ∷ t) h = ground (arith, text_lt_asym s t)

text_lt_total : (s t : Text) → text_lt s t ≡ false → text_lt t s ≡ false → s ≡ t
unfolding text_lt
text_lt_total [] [] h k = refl
text_lt_total [] (y ∷ t) h k = cc
text_lt_total (x ∷ s) [] h k = cc
text_lt_total (x ∷ s) (y ∷ t) h k = ground (arith, text_lt_total s t)

-- t ≤ s and s < u give t < u.
text_lt_trans : (s t u : Text) → text_lt s t ≡ false → text_lt s u ≡ true → text_lt t u ≡ true
unfolding text_lt
text_lt_trans [] [] u h k = k
text_lt_trans [] (y ∷ t) u h k = cc
text_lt_trans (x ∷ s) t [] h k = cc
text_lt_trans (x ∷ s) [] (z ∷ u) h k = refl
text_lt_trans (x ∷ s) (y ∷ t) (z ∷ u) h k = ground (arith, text_lt_trans s t u)

insert_field_comm :
    (j k : Text) (v w : Json) (fs : Fields)
    → j ≢ k
    → insert_field j v (insert_field k w fs) ≡ insert_field k w (insert_field j v fs)
unfolding insert_field
insert_field_comm j k v w end n = ground (arith, text_lt_asym j k, text_lt_total j k)
insert_field_comm j k v w (field i u fs) n = ground (
  arith,
  text_lt_asym j k,
  text_lt_asym k j,
  text_lt_total j k,
  text_lt_trans i j k,
  text_lt_trans i k j,
  insert_field_comm j k v w fs n,
)

mutual
  unfolding sort_keys_deep

  sort_keys_deep-same : {v w : Json} → SameJson v w → sort_keys_deep v ≡ sort_keys_deep w
  sort_keys_deep-same same = refl
  sort_keys_deep-same (in_arr d) = ap arr (sort_items-same d)
  sort_keys_deep-same (in_obj d) = ap (λ fs. obj (assign_all end fs)) (sort_fields-same d)

  sort_items-same : {xs ys : Items} → SameItems xs ys → sort_items xs ≡ sort_items ys
  sort_items-same no_items = refl
  sort_items-same (both d e) = ap₂ cons (sort_keys_deep-same d) (sort_items-same e)

  sort_fields-same : {fs gs : Fields} → SameFields fs gs → sort_fields fs ≡ sort_fields gs
  sort_fields-same no_fields = refl
  sort_fields-same (keep {k = k} d e) =
      ap₂ (insert_field k) (sort_keys_deep-same d) (sort_fields-same e)
  sort_fields-same (swap {j = j} {k = k} {v = v} {w = w} {fs = fs} n) =
      insert_field_comm j k (sort_keys_deep v) (sort_keys_deep w) (sort_fields fs) n
  sort_fields-same (trans d e) = sort_fields-same d ∙ sort_fields-same e

pub canonicalize_signed_request_payload :
    (e : SignedRequestEnvelope) (p q : Json)
    → sort_keys_deep p ≡ sort_keys_deep q
    → canonicalize_signed_request (record e { request_payload = p })
      ≡ canonicalize_signed_request (record e { request_payload = q })
unfolding canonicalize_signed_request
canonicalize_signed_request_payload e p q h = rw h

-- Two requests that differ only in the order of properties inside their payloads have the same
-- canonical text, and so the same hash.
pub hash_canonical_request-same :
    (sha256_hex : Text → Text) (e : SignedRequestEnvelope) (payload : Json)
    → SameJson e.request_payload payload
    → (canonicalize_signed_request (record e { request_payload = payload })
        ≡ canonicalize_signed_request e)
      × (hash_canonical_request sha256_hex (record e { request_payload = payload })
          ≡ hash_canonical_request sha256_hex e)
unfolding hash_canonical_request
hash_canonical_request-same sha256_hex e payload d =
    let texts =
      canonicalize_signed_request_payload e payload e.request_payload
        (sym (sort_keys_deep-same d)) in
    (texts, ap sha256_hex texts)
