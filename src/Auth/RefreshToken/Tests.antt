-- ===== src/Auth/RefreshToken/Tests.antt =====
-- Tokens that print what they hold, and their rotation.
use a2a_agent_layer.Common.{
  ℕ, ◌/◌, ◌<◌, ◌≡◌, refl, Option, none, some, [], ◌∷◌, ltb, if◌then◌else◌, ◌==◌, Text, codes, get,
  has, Outcome, ok, throw, unauthorized, ok_inj, arith,
}
use a2a_agent_layer.Auth.RefreshToken.{
  JwtPayload, RefreshPayload, TokenPair, TokenDeps, Readings, evict_expired, issue_token_pair,
  rotate, rotation, check, run, parse_expires_in,
}
use a2a_agent_layer.Auth.RefreshToken.Once.{IsVerifier, rotate_once}
use a2a_agent_layer.Auth.RefreshToken.Exchange.{IsSigner, rotate-issue}

abbrev alice : JwtPayload
alice = record { sub = codes "1"; did = codes "did:x:1"; role = codes "agent" }

-- The token with an id, or without one.
abbrev token_of : Option Text → Text
token_of none = codes "a"
token_of (some j) = b'r' ∷ j

abbrev jti_of : Text → Option Text
jti_of [] = none
jti_of (c ∷ j) = if c == b'r' then some j else none

-- Every token is for the same user and expires at second 100; its text holds its id.
abbrev verify_until : ℕ → Text → Outcome RefreshPayload
verify_until now token =
    if ltb (now / 1000) 100
    then ok (record { payload = alice; jti = jti_of token; exp = some 100 })
    else throw (unauthorized (codes "jwt expired"))

abbrev deps : TokenDeps
deps = record {
  sign = λ now payload jti life. ok (token_of jti);
  verify = verify_until;
  hash_token = λ token. token;
  expires_in = none;
  refresh_expires_in = none;
}

deps-IsVerifier : IsVerifier verify_until
deps-IsVerifier = record {
  expires = λ now token p exp v e. ground arith;
  same = λ now now' token p p' v v'. ground arith;
}

abbrev reading : ℕ → Readings
reading now = record {
  evict_at = now;
  verify_at = now;
  revoke_at = now;
  issue_at = now;
  jti = codes "j";
}

abbrev token : Text
token = codes "tok"

abbrev answer : TokenPair
answer = record { access_token = codes "a"; refresh_token = codes "rj"; expires_in = 3600 }

answered : (rotate deps (reading 5000) token []).0 ≡ ok answer
unfolding rotate issue_token_pair evict_expired has get parse_expires_in
answered = refl

rotate_once_example :
    (message : Text) × ((rotate deps (reading 90000) token (
        run deps
          (check 6000 token ∷ rotation (reading 7000) (codes "other") ∷ [])
          (rotate deps (reading 5000) token []).1)).0
      ≡ throw (unauthorized message))
rotate_once_example =
    rotate_once deps (reading 5000) (reading 90000) token [] answer
      (record { payload = alice; jti = none; exp = some 100 }) 100
      (check 6000 token ∷ rotation (reading 7000) (codes "other") ∷ []) deps-IsVerifier answered
      refl refl (omega arith, (omega arith, tt)) (omega arith)

verify_token :
    (later : ℕ) (jti : Option Text)
    → later / 1000 < 100
    → verify_until later (token_of jti) ≡ ok (record { payload = alice; jti = jti; exp = some 100 })
verify_token later none early = ground arith
verify_token later (some j) early = ground arith

deps-IsSigner : IsSigner deps (λ life. 100) 500 alice
deps-IsSigner = record {
  verifies = λ later jti life token e early. rw (← ok_inj e) (verify_token later jti early);
}

issued : issue_token_pair deps 500 (codes "j") alice ≡ ok answer
unfolding issue_token_pair parse_expires_in
issued = refl

rotate-issue_example :
    ((50 < 100)
      → (rotate deps (reading 50000) (codes "a") []).0
        ≡ issue_token_pair deps 50000 (codes "j") alice)
    × ((50 < 100)
        → (rotate deps (reading 50000) (codes "rj") []).0
          ≡ issue_token_pair deps 50000 (codes "j") alice)
rotate-issue_example =
    rotate-issue deps (λ life. 100) 500 (codes "j") alice answer (reading 50000) deps-IsSigner
      issued
