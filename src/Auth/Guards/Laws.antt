-- ===== src/Auth/Guards/Laws.antt =====
-- Who is let in by the guards, and as whom.
use a2a_agent_layer.Common.{
  Bool, true, false, ◌≡◌, ◌≢◌, ◌↔◌, inl, inr, refl, sym, ap, Bool-cases, Option-cases, Option, none,
  some, List, [], ◌∷◌, any, Any, any→Any, Any→any, Text, text_eq, text_eq_iff, Outcome,
  Outcome-cases, ok, throw, proceed, ltb, length, arith,
}
use a2a_agent_layer.Auth.RefreshToken.{JwtPayload}
use a2a_agent_layer.Auth.ApiKeys.{ApiKeyIdentity, Keys, verify_key, find_key, is_enabled}
use a2a_agent_layer.Auth.Guards.{
  Role, role_text, AuthenticatedUser, Request, Route, validate_payload, service_user, api_key_guard,
  jwt_auth_guard, by_roles, role_of, check_role, roles_guard, admit,
}

-- Whom a request acts for, if it may act at all: a service with a valid key, nobody on a public route,
-- or the bearer of a valid token.
abbrev pub principal :
    Option ApiKeyIdentity → Bool → Outcome JwtPayload → Option (Option AuthenticatedUser)
principal (some identity) is_public bearer = some (some (service_user identity))
principal none true bearer = some none
principal none false (ok payload) = some (some (validate_payload payload))
principal none false (throw e) = none

-- A route asks for no role, or for one that the user has.
abbrev pub Permits : Option (List Role) → Option AuthenticatedUser → Type 0
Permits none user = Unit
Permits (some []) user = Unit
Permits (some (role ∷ roles)) user =
    (role_of user ≢ []) × Any (λ r. role_of user ≡ role_text r) (role ∷ roles)

abbrev pub fresh : Option Text → Request
fresh api_key = record { api_key = api_key; user = none; api_key_auth = false }

check_role_iff :
    (required : List Role) (role : Text)
    → (check_role required role ≡ ok true) ↔ ((role ≢ []) × Any (λ r. role ≡ role_text r) required)
check_role_iff required [] = (λ e. cc, λ e. absurd (e.0 refl))
check_role_iff required (c ∷ role) =
    elim (Bool-cases (any (λ r. text_eq (c ∷ role) (role_text r)) required)) [
      | inl h ↦ rw h (
        λ e. (
          λ z. cc,
          any→Any (λ r. c ∷ role ≡ role_text r) (λ r. text_eq (c ∷ role) (role_text r)) required
              (λ r. (text_eq_iff (c ∷ role) (role_text r)).0) h,
        ),
        λ p. refl,
      )
      | inr h ↦ rw h (
        λ e. cc,
        λ p.
            let t =
              Any→any (λ r. c ∷ role ≡ role_text r) (λ r. text_eq (c ∷ role) (role_text r)) required
                (λ r. (text_eq_iff (c ∷ role) (role_text r)).1) p.1 in
            cc,
      )
    ]

by_roles_iff :
    (required : Option (List Role)) (request : Request)
    → ((by_roles required request).0 ≡ ok true) ↔ Permits required request.user
by_roles_iff none request = (λ e. tt, λ e. refl)
by_roles_iff (some []) request = (λ e. tt, λ e. refl)
by_roles_iff (some (r ∷ rs)) request = check_role_iff (r ∷ rs) (role_of request.user)

by_roles_keeps :
    (required : Option (List Role)) (request : Request) → (by_roles required request).1 ≡ request
by_roles_keeps none request = refl
by_roles_keeps (some []) request = refl
by_roles_keeps (some (r ∷ rs)) request = refl

-- What the last guard makes of the user that the others found.
decided :
    (route : Route) (request : Request) {user : Option AuthenticatedUser}
    → request.user ≡ user
    → ((roles_guard route request).0 ≡ ok true) ↔ (
        (some user ≡ some (roles_guard route request).1.user)
        × Permits route.required_roles (roles_guard route request).1.user)
unfolding roles_guard
decided route request e = rw (by_roles_keeps route.required_roles request) (
  λ h. (ap some (sym e), (by_roles_iff route.required_roles request).0 h),
  λ h. (by_roles_iff route.required_roles request).1 h.1,
)

-- The request behind the first of the guards.
abbrev acting : Option ApiKeyIdentity → Option Text → Request
acting none api_key = fresh api_key
acting (some identity) api_key = record {
  api_key = api_key;
  user = some (service_user identity);
  api_key_auth = true;
}

behind :
    (v : Option ApiKeyIdentity) (bearer : Outcome JwtPayload) (route : Route)
    (api_key : Option Text)
    → let r =
        proceed (jwt_auth_guard bearer route (acting v api_key)) (λ _ r₃. roles_guard route r₃) in
      (r.0 ≡ ok true) ↔ (
        (principal v route.is_public bearer ≡ some r.1.user)
        × Permits route.required_roles r.1.user)
unfolding jwt_auth_guard roles_guard
behind (some identity) bearer route api_key = elim (Bool-cases route.is_public) [
  | inl h ↦ rw h (decided route (acting (some identity) api_key) refl)
  | inr h ↦ rw h (decided route (acting (some identity) api_key) refl)
]
behind none bearer route api_key = elim (Bool-cases route.is_public) [
  | inl h ↦ rw h (decided route (fresh api_key) refl)
  | inr h ↦ elim (Outcome-cases bearer) [
    | inl (payload, e) ↦
        rw (h, e)
          (decided route (record (fresh api_key) { user = some (validate_payload payload) }) refl)
    | inr (x, e) ↦ rw (h, e) (λ z. cc, λ z. cc)
  ]
]

module _ (digest : Text → Text) where
  api_key_guard_lem :
      (keys : Keys) (api_key : Option Text)
      → api_key_guard digest keys (fresh api_key)
        ≡ (ok true, acting (verify_key digest api_key keys) api_key)
  unfolding api_key_guard is_enabled verify_key find_key
  api_key_guard_lem [] none = refl
  api_key_guard_lem [] (some []) = refl
  api_key_guard_lem [] (some (c ∷ s)) = refl
  api_key_guard_lem (key ∷ keys) api_key =
      let e : ltb 0 (length (key ∷ keys)) ≡ true = ground arith in
      rw e (elim (Option-cases (verify_key digest api_key (key ∷ keys))) [
        | inl h ↦ rw h refl
        | inr (identity, h) ↦ rw h refl
      ])

  -- A request is let in exactly if the throttler lets it pass, it acts for someone, and the route asks for no role
  -- or for one that this user has; the request that the route then reads names this user. It
  -- acts for the service whose key it shows, or else for nobody on a public route, or else for the
  -- bearer of a valid token.
  pub admit_iff :
      (throttled : Outcome (Unit {0})) (keys : Keys) (bearer : Outcome JwtPayload) (route : Route)
      (api_key : Option Text)
      → let r = admit digest throttled keys bearer route (fresh api_key) in
        (r.0 ≡ ok true) ↔ (
          (throttled ≡ ok tt)
          × (principal (verify_key digest api_key keys) route.is_public bearer ≡ some r.1.user)
          × Permits route.required_roles r.1.user)
  unfolding admit
  admit_iff (throw e) keys bearer route api_key = (λ z. cc, λ z. cc)
  admit_iff (ok u) keys bearer route api_key = rw (api_key_guard_lem keys api_key) (
      let b = behind (verify_key digest api_key keys) bearer route api_key in
      (λ z. (refl, (b.0 z).0, (b.0 z).1), λ z. b.1 (z.1, z.2)))
