-- ===== src/Auth/RefreshToken/Exchange.antt =====
-- What a token of an issued pair is exchanged for.
use a2a_agent_layer.Common.{
  ℕ, ◌+◌, ◌/◌, ◌<◌, ◌≡◌, refl, ◌∙◌, ap, Option, none, some, [], Text, codes, get_or, ok, ok_inj,
  bind_ok,
}
use a2a_agent_layer.Common.{get, has}
use a2a_agent_layer.Auth.RefreshToken.{
  JwtPayload, TokenPair, TokenDeps, evict_expired, Readings, issue_token_pair, rotate,
}
use a2a_agent_layer.Auth.RefreshToken.Once.{rotate_verified}

-- What the JWT library documents, of the tokens signed at one time for one payload: a token verifies,
-- with what was signed, until the lifetime in seconds that the expiry names has passed.
pub record IsSigner (deps : TokenDeps) (lifetime : Text → ℕ) (now : ℕ) (payload : JwtPayload)
    : Type 0 where
  pub verifies :
      (later : ℕ) (jti : Option Text) (life token : Text)
      → deps.sign now payload jti life ≡ ok token
      → later / 1000 < now / 1000 + lifetime life
      → deps.verify later token
        ≡ ok (record { payload = payload; jti = jti; exp = some (now / 1000 + lifetime life) })

module _ (deps : TokenDeps) where
  open deps use {sign, verify, expires_in, refresh_expires_in}

  issue-sign :
      (now : ℕ) (jti : Text) (payload : JwtPayload) (pair : TokenPair)
      → issue_token_pair deps now jti payload ≡ ok pair
      → (sign now payload none (get_or expires_in (codes "1h")) ≡ ok pair.access_token)
        × (sign now payload (some jti) (get_or refresh_expires_in (codes "7d"))
            ≡ ok pair.refresh_token)
  unfolding issue_token_pair
  issue-sign now jti payload pair e =
      let (a, signed_a, rest) = bind_ok _ _ e in
      let (b, signed_b, last) = bind_ok _ _ rest in
      let made = ok_inj last in
      (signed_a ∙ ap (λ p. ok p.access_token) made, signed_b ∙ ap (λ p. ok p.refresh_token) made)

  -- Let a pair have been issued. While the access token, or the refresh token, has not reached its
  -- expiry, a service that has revoked nothing exchanges it for whatever a new issue for the same
  -- payload gives.
  pub rotate-issue :
      (lifetime : Text → ℕ) (now : ℕ) (jti : Text) (payload : JwtPayload) (pair : TokenPair)
      (r : Readings)
      → IsSigner deps lifetime now payload
      → issue_token_pair deps now jti payload ≡ ok pair
      → (r.verify_at / 1000 < now / 1000 + lifetime (get_or expires_in (codes "1h"))
          → (rotate deps r pair.access_token []).0 ≡ issue_token_pair deps r.issue_at r.jti payload)
        × (r.verify_at / 1000 < now / 1000 + lifetime (get_or refresh_expires_in (codes "7d"))
            → (rotate deps r pair.refresh_token []).0
              ≡ issue_token_pair deps r.issue_at r.jti payload)
  unfolding evict_expired has get
  rotate-issue lifetime now jti payload pair r law issued =
      let (a, b) = issue-sign now jti payload pair issued in
      (
        λ early.
            ap (λ x. x.0)
              (rotate_verified deps r pair.access_token [] _ refl
                (law.verifies r.verify_at none _ _ a early)),
        λ early.
            ap (λ x. x.0)
              (rotate_verified deps r pair.refresh_token [] _ refl
                (law.verifies r.verify_at (some jti) _ _ b early)),
      )
