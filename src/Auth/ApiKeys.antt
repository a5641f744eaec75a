-- ===== src/Auth/ApiKeys.antt =====
-- `ApiKeyService` of src/common/auth/api-key.service.ts. SHA-256 is a parameter. Its digests are
-- compared as their hexadecimal texts, which stand for the bytes that the code compares.
pub mod Entries
pub mod Laws
pub mod Tests
use a2a_agent_layer.Common.{
  ℕ, ltb, Bool, false, Option, none, some, List, [], ◌∷◌, if◌then◌else◌, length, get_or, find, Text,
  codes, text_eq, set,
}
use a2a_agent_layer.Common.Trim.{trim, split_on, cut_at}
use a2a_agent_layer.Validation.{colon}

pub record ApiKeyIdentity : Type 0 where
  pub label : Text

-- `security.apiKeys.raw` and `security.apiKeys.header`, where the configuration has them.
pub record ApiKeyConfig : Type 0 where
  pub raw : Option Text
  pub header : Option Text

-- The keys: digest to label.
abbrev pub Keys : Type 0
Keys = List (Text × Text)

-- `label:key`, if neither side is empty.
abbrev pub parse_pair : Option (Text × Text) → Option (Text × Text)
parse_pair none = none
parse_pair (some ([], secret)) = none
parse_pair (some (c ∷ label, [])) = none
parse_pair (some (c ∷ label, d ∷ secret)) = some (c ∷ label, d ∷ secret)

unfoldable pub header_name : ApiKeyConfig → Text
header_name config = get_or config.header (codes "x-api-key")

unfoldable pub is_enabled : Keys → Bool
is_enabled keys = ltb 0 (length keys)

module _ (digest : Text → Text) where
  -- One turn of the loop; an empty entry and a malformed one are passed over.
  unfoldable pub add_pair : Keys → Text → Keys
  unfolding trim cut_at
  add_pair keys pair = elim (parse_pair (cut_at colon (trim pair))) [
    | none ↦ keys
    | some (label, secret) ↦ set keys (digest secret) label
  ]

  unfoldable pub add_pairs : Keys → List Text → Keys
  unfolding add_pair
  add_pairs keys [] = keys
  add_pairs keys (pair ∷ pairs) = add_pairs (add_pair keys pair) pairs

  unfoldable pub load_keys : ApiKeyConfig → Keys
  unfolding add_pairs split_on
  load_keys config = add_pairs [] (split_on b',' (get_or config.raw []))

  -- The loop of `verify` over the entries.
  unfoldable pub find_key : Text → Keys → Option ApiKeyIdentity
  find_key candidate [] = none
  find_key candidate ((known, label) ∷ keys) =
      if text_eq known candidate then some (record { label = label }) else find_key candidate keys

  unfoldable pub verify_key : Option Text → Keys → Option ApiKeyIdentity
  unfolding find_key
  verify_key none keys = none
  verify_key (some []) keys = none
  verify_key (some (c ∷ s)) keys = find_key (digest (c ∷ s)) keys
