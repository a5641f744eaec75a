-- ===== src/Validation.antt =====
-- src/common/validators/field.validators.ts and the pipes that parse a DID and an Ethereum address,
-- src/common/pipes/parse-did.pipe.ts and parse-ethereum-address.pipe.ts. Each regular expression is
-- the function that walks the text as it does; the patterns are anchored and leave no choice.
pub mod Did
pub mod Address
pub mod Tests
use a2a_agent_layer.Common.{
  ℕ, zero, suc, ◌+◌, Bool, true, false, ◌&&◌, ◌||◌, Option, none, some, List, [], ◌∷◌, ◌++◌, leb,
  ◌==◌, if◌then◌else◌, length, all, Text, codes, is_lower, is_upper, is_digit, lower_case, Outcome,
  ok, throw, bad_request,
}
use a2a_agent_layer.Common.Json.{Json, str}
use a2a_agent_layer.Common.Json

abbrev pub colon : ℕ
colon = b':'

-- `[a-z0-9]`
abbrev pub is_method_char : ℕ → Bool
is_method_char c = is_lower c || is_digit c

-- `[a-zA-Z0-9._%-]`
abbrev pub is_identifier_char : ℕ → Bool
is_identifier_char c =
    is_lower c || is_upper c || is_digit c || c == b'.' || c == b'_' || c == b'%' || c == b'-'

-- `[a-fA-F0-9]`
abbrev pub is_hex : ℕ → Bool
is_hex c = leb b'a' c && leb c b'f' || leb b'A' c && leb c b'F' || is_digit c

-- The rest of a text behind a prefix.
unfoldable pub strip : Text → Text → Option Text
strip [] s = some s
strip (c ∷ p) [] = none
strip (c ∷ p) (d ∷ s) = if c == d then strip p s else none

-- The longest start of a text whose characters pass a test, and what follows it.
unfoldable pub span : (ℕ → Bool) → Text → Text × Text
span test [] = ([], [])
span test (c ∷ s) = let (u, v) = span test s in if test c then (c ∷ u, v) else ([], c ∷ s)

pub record DidParts : Type 0 where
  pub method : Text
  pub identifier : Text

-- `X+` at the end of the text: at least one character, and all pass.
abbrev pub all_of : (ℕ → Bool) → Text → Bool
all_of test [] = false
all_of test (c ∷ s) = all test (c ∷ s)

-- Behind `did:method`.
abbrev did_tail : Text → Text → Option DidParts
did_tail method [] = none
did_tail method (c ∷ identifier) =
    if c == colon && all_of is_identifier_char identifier
    then some (record { method = method; identifier = identifier })
    else none

abbrev did_method : Text × Text → Option DidParts
did_method ([], rest) = none
did_method (c ∷ method, rest) = did_tail (c ∷ method) rest

-- `/^did:([a-z0-9]+):([a-zA-Z0-9._%-]+)$/.exec(value)`, its two groups. `DID_PATTERN` is this without
-- the groups.
unfoldable pub exec_did : Text → Option DidParts
unfolding strip span
exec_did value = elim (strip (codes "did:") value) [
  | none ↦ none
  | some rest ↦ did_method (span is_method_char rest)
]

unfoldable pub is_did : Text → Bool
unfolding exec_did
is_did value = elim (exec_did value) [ none ↦ false | some parts ↦ true ]

abbrev hex_of_length : ℕ → Option Text → Bool
hex_of_length n none = false
hex_of_length n (some s) = length s == n && all is_hex s

-- `/^0x[a-fA-F0-9]{40}$/`
unfoldable pub is_eth_address : Text → Bool
unfolding strip
is_eth_address value = hex_of_length 40 (strip (codes "0x") value)

-- `/^(0x)?[a-fA-F0-9]{64}$/`
unfoldable pub is_keccak256_hash : Text → Bool
unfolding strip
is_keccak256_hash value =
    hex_of_length 64 (strip (codes "0x") value) || hex_of_length 64 (some value)

-- `/^\d+(\.\d+)?$/`
abbrev fraction : Text → Bool
fraction [] = true
fraction (c ∷ s) = c == b'.' && all_of is_digit s

abbrev decimal : Text × Text → Bool
decimal ([], rest) = false
decimal (c ∷ whole, rest) = fraction rest

unfoldable pub is_decimal_string : Text → Bool
unfolding span
is_decimal_string value = decimal (span is_digit value)

-- `.+` at a text's start: a character that is no line terminator.
abbrev starts_plain : Option Text → Bool
starts_plain none = false
starts_plain (some []) = false
starts_plain (some (c ∷ s)) = if c == 10 || c == 13 || c == 8232 || c == 8233 then false else true

-- `/^https?:\/\/.+/`
unfoldable pub is_http_url : Text → Bool
unfolding strip
is_http_url value =
    starts_plain (strip (codes "https://") value) || starts_plain (strip (codes "http://") value)

-- The five `validate` methods: `typeof value === 'string' && PATTERN.test(value)`.
abbrev pub validate : (Text → Bool) → Json → Bool
validate pattern (str s) = pattern s
validate pattern _ = false

pub record ParsedDid : Type 0 where
  pub did : Text
  pub method : Text
  pub identifier : Text

-- `ParseDidPipe.transform`
unfoldable pub transform_did : Text → Outcome ParsedDid
unfolding exec_did
transform_did value = elim (exec_did value) [
  | none ↦
      throw (
        bad_request (b'"' ∷ value ++ codes "\" is not a valid DID, expected did:method:identifier"))
  | some parts ↦ ok (record { did = value; method = parts.method; identifier = parts.identifier })
]

-- `ParseEthereumAddressPipe.transform`
unfoldable pub transform_address : Text → Outcome Text
unfolding is_eth_address lower_case
transform_address value =
    if is_eth_address value
    then ok (lower_case value)
    else throw (bad_request (b'"' ∷ value ++ codes "\" is not a valid Ethereum address"))
