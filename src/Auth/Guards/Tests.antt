-- ===== src/Auth/Guards/Tests.antt =====
-- A service with a key, on a route for services and administrators.
use a2a_agent_layer.Common.{
  ◌≡◌, refl, false, some, [], ◌∷◌, codes, Outcome, ok, throw, unauthorized, text_eq, set,
}
use a2a_agent_layer.Common.Trim.{trim, split_on, cut_at}
use a2a_agent_layer.Auth.RefreshToken.{JwtPayload}
use a2a_agent_layer.Auth.ApiKeys.{load_keys, verify_key, find_key, add_pair, add_pairs, is_enabled}
use a2a_agent_layer.Auth.ApiKeys.Tests.{config, plain_digest}
use a2a_agent_layer.Auth.Guards.{
  admin, service, Route, admit, api_key_guard, jwt_auth_guard, roles_guard, service_user,
}
use a2a_agent_layer.Auth.Guards.Laws.{admit_iff, fresh, principal, Permits}

abbrev route : Route
route = record { is_public = false; required_roles = some (admin ∷ service ∷ []) }

abbrev no_bearer : Outcome JwtPayload
no_bearer = throw (unauthorized (codes "Unauthorized"))

admit_iff_example :
    let r =
      admit plain_digest
        (ok tt)
        (load_keys plain_digest config)
        no_bearer
        route
        (fresh (some (codes "k1"))) in
    (◌≡◌ {A = Outcome (Unit {0})} (ok tt) (ok tt))
    × (principal (some (record { label = codes "late" })) false no_bearer ≡ some r.1.user)
    × Permits (some (admin ∷ service ∷ [])) r.1.user
unfolding load_keys verify_key find_key add_pair add_pairs trim split_on cut_at text_eq set admit
    api_key_guard is_enabled jwt_auth_guard roles_guard service_user
admit_iff_example =
    (admit_iff plain_digest (ok tt) (load_keys plain_digest config) no_bearer route
        (some (codes "k1"))).0
      refl
