-- ===== src/Auth/Passwords/Laws.antt =====
-- What a stored hash accepts.
use a2a_agent_layer.Common.{
  true, not, ◌==◌, ◌≡◌, ◌≢◌, ◌↔◌, refl, [], ◌∷◌, length, all, Text, text_eq, text_eq_iff, arith,
}
use a2a_agent_layer.Common.Trim.Laws.{split_on-whole, split_on-part}
use a2a_agent_layer.Auth.Passwords.{Bytes, Crypto, key_length, hash, verify, verify_parts}

-- A text without a colon that is not empty.
abbrev pub IsPart : Text → Type 0
IsPart s = (s ≢ []) × (all (λ c. not (c == b':')) s ≡ true)

-- What is relied on: scrypt gives as many bytes as it is asked for, and the hexadecimal text of so many
-- bytes has no colon, is not empty, and is read back.
abbrev pub IsCrypto : Crypto → Type 0
IsCrypto crypto =
    ((password salt : Text) → length (crypto.scrypt password salt) ≡ key_length)
    × ((bytes : Bytes)
        → length bytes ≡ key_length
        → IsPart (crypto.to_hex bytes) × (crypto.from_hex (crypto.to_hex bytes) ≡ bytes))

module _ (crypto : Crypto) where
  parts_read :
      (password salt key_hex : Text) (bytes : Bytes)
      → salt ≢ []
      → key_hex ≢ []
      → crypto.from_hex key_hex ≡ bytes
      → length bytes ≡ key_length
      → verify_parts crypto password (salt ∷ key_hex ∷ [])
        ≡ text_eq bytes (crypto.scrypt password salt)
  parts_read password [] key_hex bytes s k e l = absurd (s refl)
  parts_read password (a ∷ salt) [] bytes s k e l = absurd (k refl)
  parts_read password (a ∷ salt) (b ∷ key_hex) bytes s k e l =
      let full : (length bytes == key_length) ≡ true = ground arith in rw e (rw full refl)

  -- A stored hash accepts a password exactly if scrypt gives the same key for it, under the same salt, as
  -- for the password that was hashed; so it accepts that password. The salt is any text without a colon
  -- that is not empty.
  pub verify-hash :
      (salt password presented : Text)
      → IsCrypto crypto
      → IsPart salt
      → (verify crypto presented (hash crypto salt password) ≡ true)
        ↔ (crypto.scrypt password salt ≡ crypto.scrypt presented salt)
  unfolding verify hash
  verify-hash salt password presented c p =
      let key = crypto.scrypt password salt in
      let hex = c.1 key (c.0 password salt) in
      rw (split_on-part b':' salt (crypto.to_hex key) p.1) (
        rw (split_on-whole b':' (crypto.to_hex key) hex.0.1) (
          rw
            (parts_read presented salt (crypto.to_hex key) key p.0 hex.0.0 hex.1
              (c.0 password salt))
            (text_eq_iff key (crypto.scrypt presented salt))))
