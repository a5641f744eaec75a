-- ===== src/Auth/Guards.antt =====
-- The guards of src/common/auth in the order in which src/app.module.ts registers them, behind the
-- throttler: api-key.guard.ts, jwt-auth.guard.ts with jwt.strategy.ts, roles.guard.ts. The throttler and
-- the JWT library are parameters.
pub mod Laws
pub mod Tests
use a2a_agent_layer.Common.{
  Bool, true, false, Option, none, some, List, [], ◌∷◌, ◌++◌, if◌then◌else◌, any, Text, codes,
  text_eq, Exception, forbidden, Outcome, ok, throw, Action, proceed,
}
use a2a_agent_layer.Auth.RefreshToken.{JwtPayload}
use a2a_agent_layer.Auth.ApiKeys.{ApiKeyIdentity, Keys, verify_key, is_enabled}

-- src/common/auth/roles.enum.ts
pub data Role : Type 0 where
  agent operator admin service : Role

abbrev pub role_text : Role → Text
role_text agent = codes "agent"
role_text operator = codes "operator"
role_text admin = codes "admin"
role_text service = codes "service"

pub record AuthenticatedUser : Type 0 where
  pub user_id : Text
  pub did : Text
  pub role : Text

-- What the guards read and write of a request. `api_key` is the first value of the key's header.
pub record Request : Type 0 where
  pub api_key : Option Text
  pub user : Option AuthenticatedUser
  pub api_key_auth : Bool

-- What the decorators of a route and of its controller declare.
pub record Route : Type 0 where
  pub is_public : Bool
  pub required_roles : Option (List Role)

-- `JwtStrategy.validate`
unfoldable pub validate_payload : JwtPayload → AuthenticatedUser
validate_payload payload = record { user_id = payload.sub; did = payload.did; role = payload.role }

unfoldable pub service_user : ApiKeyIdentity → AuthenticatedUser
service_user identity = record {
  user_id = codes "service:" ++ identity.label;
  did = codes "did:prom:service-" ++ identity.label;
  role = role_text service;
}

-- `requiredRoles.join(', ')`
unfoldable pub join_roles : List Role → Text
join_roles [] = []
join_roles (role ∷ []) = role_text role
join_roles (role ∷ other ∷ roles) = role_text role ++ (codes ", " ++ join_roles (other ∷ roles))

module _ (digest : Text → Text) where
  unfoldable pub api_key_guard : Keys → Action Request Bool
  api_key_guard keys request =
      if is_enabled keys
      then elim (verify_key digest request.api_key keys) [
        | none ↦ (ok true, request)
        | some identity ↦
            (ok true, record request { user = some (service_user identity); api_key_auth = true })
      ]
      else (ok true, request)

-- `bearer` is what passport finds: the payload of a valid bearer token, or the exception.
unfoldable pub jwt_auth_guard : Outcome JwtPayload → Route → Action Request Bool
jwt_auth_guard bearer route request =
    if route.is_public
    then (ok true, request)
    else if request.api_key_auth
    then (ok true, request)
    else elim bearer [
      | throw e ↦ (throw e, request)
      | ok payload ↦ (ok true, record request { user = some (validate_payload payload) })
    ]

-- `user?.role`, where an empty role counts as none.
abbrev pub role_of : Option AuthenticatedUser → Text
role_of none = []
role_of (some user) = user.role

abbrev pub check_role : List Role → Text → Outcome Bool
check_role required [] = throw (forbidden (codes "Role is required to access this resource"))
check_role required (c ∷ role) =
    if any (λ r. text_eq (c ∷ role) (role_text r)) required
    then ok true
    else throw (forbidden (codes "Requires one of roles: " ++ join_roles required))

abbrev pub by_roles : Option (List Role) → Action Request Bool
by_roles none request = (ok true, request)
by_roles (some []) request = (ok true, request)
by_roles (some (role ∷ roles)) request = (check_role (role ∷ roles) (role_of request.user), request)

unfoldable pub roles_guard : Route → Action Request Bool
roles_guard route request = by_roles route.required_roles request

-- The chain: the first guard that throws ends it, and none of these answers false.
unfoldable pub admit :
    (Text → Text) → Outcome (Unit {0}) → Keys → Outcome JwtPayload → Route → Action Request Bool
admit digest throttled keys bearer route request =
    proceed (throttled, request)
      (λ _ r₁.
        proceed (api_key_guard digest keys r₁)
          (λ _ r₂. proceed (jwt_auth_guard bearer route r₂) (λ _ r₃. roles_guard route r₃)))
