-- ===== src/Auth/RefreshToken.antt =====
-- `RefreshTokenService` of src/common/auth/refresh-token.service.ts. The JWT library, the hash and the
-- configuration are parameters.
pub mod Once
pub mod Exchange
pub mod Tests
use a2a_agent_layer.Common.{
  ℕ, zero, ◌+◌, ◌-◌, ◌*◌, ◌/◌, Bool, Option, none, some, List, [], ◌∷◌, ltb, ◌==◌, if◌then◌else◌,
  get_or, filter, length, is_digit, Text, codes, has, set, Outcome, ok, throw, unauthorized, ◌>>=◌,
  Action,
}
use a2a_agent_layer.Validation.{span}

pub record JwtPayload : Type 0 where
  pub sub : Text
  pub did : Text
  pub role : Text

-- What a token holds: the payload, the id that only refresh tokens are given, and the expiry in
-- seconds.
pub record RefreshPayload : Type 0 where
  pub payload : JwtPayload
  pub jti : Option Text
  pub exp : Option ℕ

pub record TokenPair : Type 0 where
  pub access_token : Text
  pub refresh_token : Text
  pub expires_in : ℕ

-- `sign` and `verify` of the JWT service read the clock, here in milliseconds. The expiries are what
-- the configuration holds for `security.jwt.expiresIn` and `security.jwt.refreshExpiresIn`.
pub record TokenDeps : Type 0 where
  pub sign : ℕ → JwtPayload → Option Text → Text → Outcome Text
  pub verify : ℕ → Text → Outcome RefreshPayload
  pub hash_token : Text → Text
  pub expires_in : Option Text
  pub refresh_expires_in : Option Text

-- `Number.parseInt` of a text of decimal digits.
unfoldable pub parse_int : ℕ → Text → ℕ
parse_int acc [] = acc
parse_int acc (c ∷ s) = parse_int (acc * 10 + (c - b'0')) s

-- The seconds in a unit, for the class `[smhd]`.
abbrev pub unit_of : ℕ → Option ℕ
unit_of c =
    if c == b's'
    then some 1
    else if c == b'm'
    then some 60
    else if c == b'h'
    then some 3600
    else if c == b'd'
    then some 86400
    else none

abbrev of_parts : Text × Text → ℕ
of_parts ([], rest) = 3600
of_parts (c ∷ s, []) = 3600
of_parts (c ∷ s, u ∷ []) = elim (unit_of u) [ none ↦ 3600 | some n ↦ parse_int 0 (c ∷ s) * n ]
of_parts (c ∷ s, u ∷ v ∷ rest) = 3600

unfoldable pub parse_expires_in : Text → ℕ
unfolding span parse_int
parse_expires_in value = of_parts (span is_digit value)

-- The revocation list: token hash to the second at which the entry can be forgotten.
abbrev pub Revoked : Type 0
Revoked = List (Text × ℕ)

unfoldable pub evict_expired : ℕ → Revoked → Revoked
evict_expired now revoked = filter (λ e. ltb (now / 1000) e.1) revoked

-- The times in milliseconds at which one call reads the clock, and the token id that it draws.
pub record Readings : Type 0 where
  pub evict_at : ℕ
  pub verify_at : ℕ
  pub revoke_at : ℕ
  pub issue_at : ℕ
  pub jti : Text

module _ (deps : TokenDeps) where
  open deps use {sign, verify, hash_token, expires_in, refresh_expires_in}

  unfoldable pub issue_token_pair : ℕ → Text → JwtPayload → Outcome TokenPair
  issue_token_pair now jti payload =
      let access_expires_in = get_or expires_in (codes "1h") in
      sign now payload none access_expires_in >>= λ access_token.
      sign now payload (some jti) (get_or refresh_expires_in (codes "7d")) >>= λ refresh_token.
      ok (record {
        access_token = access_token;
        refresh_token = refresh_token;
        expires_in = parse_expires_in access_expires_in;
      })

  unfoldable pub revoke : ℕ → Text → Option ℕ → Revoked → Revoked
  revoke now refresh_token expires_at_seconds revoked =
      let fallback = now / 1000 + parse_expires_in (get_or refresh_expires_in (codes "7d")) in
      set revoked (hash_token refresh_token) (get_or expires_at_seconds fallback)

  unfoldable pub rotate : Readings → Text → Action Revoked TokenPair
  rotate r refresh_token revoked =
      let kept = evict_expired r.evict_at revoked in
      if has kept (hash_token refresh_token)
      then (throw (unauthorized (codes "Refresh token has been revoked")), kept)
      else elim (verify r.verify_at refresh_token) [
        | throw e ↦ (throw (unauthorized (codes "Invalid refresh token")), kept)
        | ok p ↦ (
          issue_token_pair r.issue_at r.jti p.payload,
          revoke r.revoke_at refresh_token p.exp kept,
        )
      ]

  unfoldable pub is_revoked : ℕ → Text → Revoked → Bool × Revoked
  is_revoked now refresh_token revoked =
      let kept = evict_expired now revoked in (has kept (hash_token refresh_token), kept)

  unfoldable pub revoked_count : Revoked → ℕ
  revoked_count revoked = length revoked

  -- A call of the service.
  pub data Call : Type 0 where
    rotation : Readings → Text → Call
    check : ℕ → Text → Call

  unfoldable pub run : List Call → Revoked → Revoked
  unfolding rotate is_revoked
  run [] revoked = revoked
  run (rotation r token ∷ calls) revoked = run calls (rotate r token revoked).1
  run (check now token ∷ calls) revoked = run calls (is_revoked now token revoked).1
