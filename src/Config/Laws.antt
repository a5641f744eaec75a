-- ===== src/Config/Laws.antt =====
-- Which secrets a configuration starts with.
use a2a_agent_layer.Common.{
  Bool, true, false, ◌≡◌, ◌≢◌, ◌⊎◌, refl, inl, inr, text_eq_refl, Option, none, some, [], Text,
  codes, Outcome, ok, throw, ◌>>=◌, ok_inj, sym, ap, ◌∷◌,
}
use a2a_agent_layer.Config.{
  Env, Security, given, or_default, is_production, required, security_of, security_config,
}

-- A secret is the variable's own text, or the development default where the module was not imported in
-- production and the variable is not set or empty.
abbrev pub IsSecret : Env → Env → Text → Text → Text → Type 0
IsSecret imported env name fallback secret =
    ((env name ≡ some secret) × (secret ≢ []))
    ⊎ ((imported (codes "NODE_ENV") ≢ some (codes "production"))
        × ((env name ≡ none) ⊎ (env name ≡ some []))
        × (secret ≡ fallback))

given-none : (o : Option Text) → given o ≡ none → (o ≡ none) ⊎ (o ≡ some [])
given-none none e = inl refl
given-none (some []) e = inr refl
given-none (some (c ∷ s)) e = cc

not_production :
    (env : Env) → is_production env ≡ false → env (codes "NODE_ENV") ≢ some (codes "production")
unfolding is_production
not_production env h e = let same = text_eq_refl (codes "production") in absurd (cc (rw e at h))

given-some : (o : Option Text) {s : Text} → given o ≡ some s → (o ≡ some s) × (s ≢ [])
given-some none e = cc
given-some (some []) e = cc
given-some (some (c ∷ s)) e = (e, λ z. cc)

or_default_cases :
    (production : Bool) (name fallback : Text) (o : Option Text) {secret : Text}
    → or_default production name fallback o ≡ ok secret
    → (o ≡ some secret) ⊎ ((production ≡ false) × (o ≡ none) × (secret ≡ fallback))
or_default_cases p name fallback (some value) h = inl (ap some (ok_inj h))
or_default_cases false name fallback none h = inr (refl, refl, sym (ok_inj h))
or_default_cases true name fallback none h = cc

required-IsSecret :
    (imported env : Env) (name fallback : Text) {secret : Text}
    → required (is_production imported) env name fallback ≡ ok secret
    → IsSecret imported env name fallback secret
unfolding required
required-IsSecret imported env name fallback h =
    elim (or_default_cases (is_production imported) name fallback (given (env name)) h) [
      | inl e ↦ inl (given-some (env name) e)
      | inr (p, e, d) ↦ inr (not_production imported p, given-none (env name) e, d)
    ]

both_ok :
    {A B C : Type 0} (m : Outcome A) (n : Outcome B) (f : A → B → C) {c : C}
    → (m >>= λ a. n >>= λ b. ok (f a b)) ≡ ok c
    → (a : A) × (b : B) × (m ≡ ok a) × (n ≡ ok b) × (f a b ≡ c)
both_ok (ok a) (ok b) f e = (a, b, refl, refl, ok_inj e)
both_ok (ok a) (throw x) f e = cc
both_ok (throw x) n f e = cc

-- A configuration that the service starts with holds two secrets, each of which is the text of its own
-- variable, which is not empty, or, if NODE_ENV did not say production when the module was imported and the
-- variable is not set or empty, the development default. The two environments need not agree.
pub security_config-IsSecret :
    (imported env : Env) (security : Security)
    → security_config imported env ≡ ok security
    → IsSecret imported env (codes "JWT_SECRET") (codes "dev-secret-change-me") security.jwt.secret
      × IsSecret imported env
          (codes "CSRF_SECRET")
          (codes "dev-csrf-secret-change-me")
          security.csrf.secret
unfolding security_config
security_config-IsSecret imported env security h =
    let production = is_production imported in
    let (jwt_secret, csrf_secret, e, e₁, e₂) =
      both_ok (required production env (codes "JWT_SECRET") (codes "dev-secret-change-me"))
        (required production env (codes "CSRF_SECRET") (codes "dev-csrf-secret-change-me"))
        (security_of env) h in
    rw⁻¹ e₂ (
      required-IsSecret imported env (codes "JWT_SECRET") (codes "dev-secret-change-me") e,
      required-IsSecret imported env (codes "CSRF_SECRET") (codes "dev-csrf-secret-change-me") e₁,
    )
