-- ===== src/Config/Tests.antt =====
-- A production environment with both secrets set.
use a2a_agent_layer.Common.{◌≡◌, refl, ok, if◌then◌else◌, none, some, codes, text_eq}
use a2a_agent_layer.Common.Trim.{drop_spaces}
use a2a_agent_layer.Validation.{span}
use a2a_agent_layer.Auth.RefreshToken.{parse_int}
use a2a_agent_layer.Config.{
  Env, security_config, required, security_of, is_production, parse_number, positive_int,
}
use a2a_agent_layer.Config.Laws.{IsSecret, security_config-IsSecret}

abbrev production : Env
production name =
    if text_eq name (codes "NODE_ENV")
    then some (codes "production")
    else if text_eq name (codes "JWT_SECRET")
    then some (codes "j1")
    else if text_eq name (codes "CSRF_SECRET")
    then some (codes "c22")
    else if text_eq name (codes "CSRF_TTL_MS")
    then some (codes " 90x")
    else none

security_config-IsSecret_example :
    IsSecret production production (codes "JWT_SECRET") (codes "dev-secret-change-me") (codes "j1")
    × IsSecret production production
        (codes "CSRF_SECRET")
        (codes "dev-csrf-secret-change-me")
        (codes "c22")
unfolding text_eq security_config required is_production
security_config-IsSecret_example =
    security_config-IsSecret production production
      (security_of production (codes "j1") (codes "c22")) refl

-- An environment file that says production is read too late for the test of the secrets.
abbrev at_import : Env
at_import name = none

abbrev from_file : Env
from_file name = if text_eq name (codes "NODE_ENV") then some (codes "production") else none

starts_on_defaults :
    security_config at_import from_file
    ≡ ok (security_of from_file (codes "dev-secret-change-me") (codes "dev-csrf-secret-change-me"))
unfolding text_eq security_config required is_production
starts_on_defaults = refl

reads_ttl : positive_int (production (codes "CSRF_TTL_MS")) 5 ≡ 90
unfolding text_eq positive_int parse_number drop_spaces span parse_int
reads_ttl = refl
