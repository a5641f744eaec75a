-- ===== src/Auth/RefreshToken/Once.antt =====
-- A refresh token is good for one rotation.
use a2a_agent_layer.Common.{
  ℕ, ◌/◌, ◌≤◌, ◌<◌, true, false, ◌≡◌, ◌∙◌, ap, ◌⊎◌, inl, inr, some, List, [], ◌∷◌, ltb, All,
  Bool-cases, Text, codes, get, has, get-set_self, Outcome, ok, throw, unauthorized, Outcome-cases,
  arith,
}
use a2a_agent_layer.Common.Dict.Filter.{get-filter, has_of_get, get-set_other}
use a2a_agent_layer.Auth.RefreshToken.{
  RefreshPayload, TokenPair, TokenDeps, Revoked, evict_expired, Readings, issue_token_pair, revoke,
  rotate, is_revoked, Call, rotation, check, run,
}

-- What the JWT library documents: a token that has reached its expiry does not verify, and the content
-- of a token does not change.
pub record IsVerifier (verify : ℕ → Text → Outcome RefreshPayload) : Type 0 where
  pub expires :
      (now : ℕ) (token : Text) (p : RefreshPayload) (exp : ℕ)
      → verify now token ≡ ok p
      → p.exp ≡ some exp
      → now / 1000 < exp
  pub same :
      (now now' : ℕ) (token : Text) (p p' : RefreshPayload)
      → verify now token ≡ ok p
      → verify now' token ≡ ok p'
      → p ≡ p'

-- The latest time at which a call evicts.
abbrev pub clock : {deps : TokenDeps} → Call deps → ℕ
clock (rotation r token) = r.evict_at
clock (check now token) = now

module _ (deps : TokenDeps) where
  open deps use {verify, hash_token}

  module _ (r : Readings) (token : Text) (revoked : Revoked) where
    abbrev pub kept : Revoked
    kept = evict_expired r.evict_at revoked

    pub rotate_revoked :
        has kept (hash_token token) ≡ true
        → rotate deps r token revoked
          ≡ (throw (unauthorized (codes "Refresh token has been revoked")), kept)
    unfolding rotate
    rotate_revoked h = rw h

    pub rotate_invalid :
        (e : _)
        → has kept (hash_token token) ≡ false
        → verify r.verify_at token ≡ throw e
        → rotate deps r token revoked ≡ (throw (unauthorized (codes "Invalid refresh token")), kept)
    unfolding rotate
    rotate_invalid e h v = rw (h, v, rotate)

    pub rotate_verified :
        (p : RefreshPayload)
        → has kept (hash_token token) ≡ false
        → verify r.verify_at token ≡ ok p
        → rotate deps r token revoked ≡ (
          issue_token_pair deps r.issue_at r.jti p.payload,
          revoke deps r.revoke_at token p.exp kept,
        )
    unfolding rotate
    rotate_verified p h v = rw (h, v, rotate)

  -- The content of a refresh token that rotation answered, when it was verified.
  rotate-ok :
      (r : Readings) (token : Text) (revoked : Revoked) (pair : TokenPair)
      → (rotate deps r token revoked).0 ≡ ok pair
      → (p : RefreshPayload) × (verify r.verify_at token ≡ ok p)
        × ((rotate deps r token revoked).1
            ≡ revoke deps r.revoke_at token p.exp (kept r token revoked))
  rotate-ok r token revoked pair e =
      elim (Bool-cases (has (kept r token revoked) (hash_token token))) [
        | inl seen ↦ absurd (cc (ap (λ x. x.0) (rotate_revoked r token revoked seen), e))
        | inr new ↦ elim (Outcome-cases (verify r.verify_at token)) [
          | inl (p, v) ↦ (p, v, ap (λ x. x.1) (rotate_verified r token revoked p new v))
          | inr (x, v) ↦ absurd (cc (ap (λ y. y.0) (rotate_invalid r token revoked x new v), e))
        ]
      ]

  module _ (k : Text) (exp limit : ℕ) where
    -- The entry is in the list, or the time has passed its expiry.
    abbrev Spent : Revoked → Type 0
    Spent revoked = (get revoked k ≡ some exp) ⊎ (exp ≤ limit / 1000)

    evict-Spent :
        (now : ℕ) (revoked : Revoked)
        → now ≤ limit
        → Spent revoked
        → Spent (evict_expired now revoked)
    unfolding evict_expired
    evict-Spent now revoked le (inr past) = inr past
    evict-Spent now revoked le (inl here) = elim (Bool-cases (ltb (now / 1000) exp)) [
      | inl later ↦ inl (get-filter _ revoked k exp here (λ j e. later))
      | inr over ↦ inr (ground arith)
    ]

    rotate-Spent :
        (r : Readings) (token : Text) (revoked : Revoked)
        → r.evict_at ≤ limit
        → Spent revoked
        → Spent (rotate deps r token revoked).1
    unfolding revoke
    rotate-Spent r token revoked le s =
        let s' = evict-Spent r.evict_at revoked le s in
        elim (Bool-cases (has (kept r token revoked) (hash_token token))) [
          | inl seen ↦ rw (rotate_revoked r token revoked seen) s'
          | inr new ↦ elim (Outcome-cases (verify r.verify_at token)) [
            | inl (p, v) ↦ rw (rotate_verified r token revoked p new v) (elim s' [
              | inl here ↦ inl (get-set_other _ k (hash_token token) exp _ new here)
              | inr past ↦ inr past
            ])
            | inr (x, v) ↦ rw (rotate_invalid r token revoked x new v) s'
          ]
        ]

    run-Spent :
        (calls : List (Call deps)) (revoked : Revoked)
        → All (λ c. clock c ≤ limit) calls
        → Spent revoked
        → Spent (run deps calls revoked)
    unfolding run is_revoked
    run-Spent [] revoked le s = s
    run-Spent (rotation r token ∷ calls) revoked le s =
        run-Spent calls _ le.1 (rotate-Spent r token revoked le.0 s)
    run-Spent (check now token ∷ calls) revoked le s =
        run-Spent calls _ le.1 (evict-Spent now revoked le.0 s)

  -- A token that is fresh and not expired is not spent.
  not_both :
      (k : Text) (exp limit : ℕ) (r : Readings) (token : Text) (revoked : Revoked)
      → Spent k exp limit (kept r token revoked)
      → has (kept r token revoked) k ≡ false
      → limit / 1000 < exp
      → ⊥
  not_both k exp limit r token revoked (inl here) new early = cc (has_of_get _ k exp here, new)
  not_both k exp limit r token revoked (inr past) new early = omega arith

  revoke-get :
      (now : ℕ) (token : Text) (exp : ℕ) (p : RefreshPayload) (revoked : Revoked)
      → p.exp ≡ some exp
      → get (revoke deps now token p.exp revoked) (hash_token token) ≡ some exp
  unfolding revoke
  revoke-get now token exp p revoked e = rw e (get-set_self revoked (hash_token token) exp)

  -- Let the JWT library keep its contract. After a rotation of a token with an expiry was answered, and
  -- any rotations and checks of this token and of others, every later rotation of the same token is
  -- refused as unauthorized, if the clock does not run back behind the calls.
  pub rotate_once :
      (r r' : Readings) (token : Text) (revoked : Revoked) (pair : TokenPair) (p : RefreshPayload)
      (exp : ℕ) (calls : List (Call deps))
      → IsVerifier verify
      → (rotate deps r token revoked).0 ≡ ok pair
      → verify r.verify_at token ≡ ok p
      → p.exp ≡ some exp
      → All (λ c. clock c ≤ r'.verify_at) calls
      → r'.evict_at ≤ r'.verify_at
      → (message : Text) × ((rotate deps r' token
            (run deps calls (rotate deps r token revoked).1)).0
          ≡ throw (unauthorized message))
  rotate_once r r' token revoked pair p exp calls law answered v given le le' =
      let (q, w, left) = rotate-ok r token revoked pair answered in
      let expiry : q.exp ≡ some exp = ap (λ x. x.exp) (law.same _ _ token q p w v) ∙ given in
      let start : Spent (hash_token token) exp r'.verify_at (rotate deps r token revoked).1 =
        inl (rw left (revoke-get r.revoke_at token exp q _ expiry)) in
      let later = run-Spent (hash_token token) exp r'.verify_at calls _ le start in
      let last = evict-Spent (hash_token token) exp r'.verify_at r'.evict_at _ le' later in
      let now_ = run deps calls (rotate deps r token revoked).1 in
      elim (Bool-cases (has (kept r' token now_) (hash_token token))) [
        | inl seen ↦ (_, ap (λ x. x.0) (rotate_revoked r' token now_ seen))
        | inr new ↦ elim (Outcome-cases (verify r'.verify_at token)) [
          | inl (p', v') ↦ absurd (
              not_both (hash_token token) exp r'.verify_at r' token now_ last new (
                law.expires _ token p' exp v'
                  (ap (λ x. x.exp) (law.same _ _ token p' p v' v) ∙ given)))
          | inr (x, v') ↦ (_, ap (λ y. y.0) (rotate_invalid r' token now_ x new v'))
        ]
      ]
