-- ===== src/Auth/Passwords.antt =====
-- src/common/auth/password.service.ts. scrypt and the hexadecimal text of bytes are parameters; the bytes
-- are lists of numbers.
pub mod Laws
pub mod Tests
use a2a_agent_layer.Common.{
  ℕ, Bool, true, false, not, ◌==◌, List, [], ◌∷◌, ◌++◌, length, if◌then◌else◌, Text, text_eq,
}
use a2a_agent_layer.Common.Trim.{split_on}

abbrev pub Bytes : Type 0
Bytes = List ℕ

-- `scrypt` is called with the key length and the costs that the service fixes.
pub record Crypto : Type 0 where
  pub scrypt : Text → Text → Bytes
  pub to_hex : Bytes → Text
  pub from_hex : Text → Bytes

abbrev pub key_length : ℕ
key_length = 64

module _ (crypto : Crypto) where
  -- `salt` is the hexadecimal text of the random bytes.
  unfoldable pub hash : Text → Text → Text
  hash salt password = salt ++ (b':' ∷ crypto.to_hex (crypto.scrypt password salt))

  -- The first two parts of what is stored.
  abbrev pub verify_parts : Text → List Text → Bool
  verify_parts password ((a ∷ salt) ∷ (b ∷ key_hex) ∷ rest) =
      let stored_key = crypto.from_hex (b ∷ key_hex) in
      if length stored_key == key_length
      then text_eq stored_key (crypto.scrypt password (a ∷ salt))
      else false
  verify_parts password _ = false

  unfoldable pub verify : Text → Text → Bool
  verify password stored = verify_parts password (split_on b':' stored)
