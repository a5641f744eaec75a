-- ===== src/Crypto/Canonical.antt =====
-- src/common/crypto/request-canonicalization.ts. SHA-256 is a parameter, from the text that is hashed
-- to the hexadecimal digest.
pub mod Order
pub mod Proto
pub mod Stringify
pub mod Tests
use a2a_agent_layer.Common.{
  ℕ, ◌+◌, ◌-◌, ◌*◌, Bool, true, false, not, ◌&&◌, ◌||◌, Option, none, some, List, [], ◌∷◌, ltb, leb,
  ◌==◌, if◌then◌else◌, all, is_digit, Text, codes, text_eq,
}
use a2a_agent_layer.Common.Json.{
  Json, null, bool, num, str, arr, obj, Items, nil, cons, Fields, end, field,
}
use a2a_agent_layer.Crypto.Canonical.Stringify.{stringify}

-- The order in which `Array.prototype.sort` puts texts: by code units.
unfoldable pub text_lt : Text → Text → Bool
text_lt [] [] = false
text_lt [] (y ∷ t) = true
text_lt (x ∷ s) [] = false
text_lt (x ∷ s) (y ∷ t) = ltb x y || x == y && text_lt s t

-- Sorts one property into a sorted list.
unfoldable pub insert_field : Text → Json → Fields → Fields
insert_field k v end = field k v end
insert_field k v (field j w fs) =
    if text_lt j k then field j w (insert_field k v fs) else field k v (field j w fs)

value_of : ℕ → Text → ℕ
value_of acc [] = acc
value_of acc (c ∷ s) = value_of (acc * 10 + (c - b'0')) s

-- The array index that a key spells, if it does: such keys come first in an object, by number.
array_index : Text → Option ℕ
array_index [] = none
array_index (c ∷ []) = if is_digit c then some (c - b'0') else none
array_index (c ∷ d ∷ s) =
    if is_digit c
      && not (c == b'0')
      && all is_digit (d ∷ s)
      && ltb (value_of 0 (c ∷ d ∷ s)) 4294967295
    then some (value_of 0 (c ∷ d ∷ s))
    else none

has_field : Text → Fields → Bool
has_field k end = false
has_field k (field j w fs) = text_eq j k || has_field k fs

replace_field : Text → Json → Fields → Fields
replace_field k v end = end
replace_field k v (field j w fs) =
    if text_eq j k then field j v fs else field j w (replace_field k v fs)

append_field : Text → Json → Fields → Fields
append_field k v end = field k v end
append_field k v (field j w fs) = field j w (append_field k v fs)

-- Whether a key stands behind the index `n` in an object.
comes_after : ℕ → Option ℕ → Bool
comes_after n none = true
comes_after n (some m) = ltb n m

add_index : ℕ → Text → Json → Fields → Fields
add_index n k v end = field k v end
add_index n k v (field j w fs) =
    if comes_after n (array_index j)
    then field k v (field j w fs)
    else field j w (add_index n k v fs)

-- `acc[key] = value` on a plain object. The key `__proto__` reaches the setter of the prototype and
-- leaves the own properties as they are.
pub assign_field : Fields → Text → Json → Fields
assign_field acc k v =
    if text_eq k (codes "__proto__")
    then acc
    else if has_field k acc
    then replace_field k v acc
    else elim (array_index k) [ none ↦ append_field k v acc | some n ↦ add_index n k v acc ]

-- The `reduce` over the sorted keys.
unfoldable pub assign_all : Fields → Fields → Fields
assign_all acc end = acc
assign_all acc (field k v fs) = assign_all (assign_field acc k v) fs

-- `sort_fields` sorts the keys and carries each property's value, already treated, along with its key.
unfoldable mutual
  pub sort_keys_deep : Json → Json
  sort_keys_deep null = null
  sort_keys_deep (bool b) = bool b
  sort_keys_deep (num n) = num n
  sort_keys_deep (str s) = str s
  sort_keys_deep (arr xs) = arr (sort_items xs)
  sort_keys_deep (obj fs) = obj (assign_all end (sort_fields fs))

  pub sort_items : Items → Items
  sort_items nil = nil
  sort_items (cons x xs) = cons (sort_keys_deep x) (sort_items xs)

  pub sort_fields : Fields → Fields
  sort_fields end = end
  sort_fields (field k v fs) = insert_field k (sort_keys_deep v) (sort_fields fs)

pub record SignedRequestEnvelope : Type 0 where
  pub agent_from_id : Text
  pub agent_to_id : Text
  pub session_id : Text
  pub request_payload : Json
  pub max_budget : Text
  pub policy_digest : Option Text
  pub nonce : Option Text

-- `...(value !== undefined ? { name: value } : {})`
abbrev optional : Text → Option Text → Fields → Fields
optional name none rest = rest
optional name (some s) rest = field name (str s) rest

unfoldable pub canonicalize_signed_request : SignedRequestEnvelope → Text
canonicalize_signed_request e = stringify (
    obj (
      field (codes "agentFromId") (str e.agent_from_id) (
        field (codes "agentToId") (str e.agent_to_id) (
          field (codes "sessionId") (str e.session_id) (
            field (codes "requestPayload") (sort_keys_deep e.request_payload) (
              field (codes "maxBudget") (num e.max_budget) (
                optional (codes "policyDigest") e.policy_digest
                  (optional (codes "nonce") e.nonce end))))))))

unfoldable pub hash_canonical_request : (Text → Text) → SignedRequestEnvelope → Text
hash_canonical_request sha256_hex e = sha256_hex (canonicalize_signed_request e)
