-- ===== src/Auth/Passwords/Tests.antt =====
-- A key derivation that depends on the lengths only, and a hexadecimal text without colons.
use a2a_agent_layer.Common.{
  ℕ, zero, suc, ◌+◌, ◌-◌, ◌==◌, not, ◌≡◌, ◌≢◌, ◌↔◌, refl, ap₂, true, [], ◌∷◌, length, all, Text,
  codes, arith,
}
use a2a_agent_layer.Auth.Passwords.{Bytes, Crypto, hash, verify}
use a2a_agent_layer.Auth.Passwords.Laws.{IsCrypto, verify-hash}

abbrev zeros : ℕ → Bytes
zeros zero = []
zeros (suc n) = 0 ∷ zeros n

abbrev up : Bytes → Text
up [] = []
up (b ∷ bytes) = (b + 59) ∷ up bytes

abbrev down : Text → Bytes
down [] = []
down (c ∷ s) = (c - 59) ∷ down s

abbrev crypto : Crypto
crypto = record {
  scrypt = λ password salt. length password ∷ zeros 63;
  to_hex = up;
  from_hex = down;
}

no_colon : (bytes : Bytes) → all (λ c. not (c == b':')) (up bytes) ≡ true
no_colon [] = refl
no_colon (b ∷ bytes) = ground (arith, no_colon bytes)

down-up : (bytes : Bytes) → down (up bytes) ≡ bytes
down-up [] = refl
down-up (b ∷ bytes) = ap₂ (λ x xs. x ∷ xs) (omega arith) (down-up bytes)

up_nonempty : (bytes : Bytes) → length bytes ≡ 64 → up bytes ≢ []
up_nonempty [] l = absurd (omega (arith, l))
up_nonempty (b ∷ bytes) l = λ e. cc

crypto-IsCrypto : IsCrypto crypto
crypto-IsCrypto = (λ p s. refl, λ bytes l. ((up_nonempty bytes l, no_colon bytes), down-up bytes))

verify-hash_example :
    (verify crypto (codes "xyz") (hash crypto (codes "5a") (codes "abc")) ≡ true)
    ↔ (crypto.scrypt (codes "abc") (codes "5a") ≡ crypto.scrypt (codes "xyz") (codes "5a"))
verify-hash_example =
    verify-hash crypto (codes "5a") (codes "abc") (codes "xyz") crypto-IsCrypto (λ e. cc, refl)
