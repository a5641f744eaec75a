-- ===== src/Config.antt =====
-- src/config/security.config.ts, and the reading of numbers from the environment that
-- src/modules/health/health.service.ts and src/observability/domain-gauges.service.ts share with it.
pub mod Laws
pub mod Numbers
pub mod Tests
use a2a_agent_layer.Common.{
  ℕ, suc, ltb, Bool, true, false, not, Option, none, some, List, [], ◌∷◌, ◌++◌, ◌==◌, if◌then◌else◌,
  get_or, is_digit, Text, codes, text_eq, Outcome, ok, throw, error, ◌>>=◌,
}
use a2a_agent_layer.Common.Trim.{drop_spaces, split_on}
use a2a_agent_layer.Validation.{span}
use a2a_agent_layer.Auth.RefreshToken.{parse_int}

-- `process.env`
abbrev pub Env : Type 0
Env = Text → Option Text

-- What `Number.parseInt(s, 10)` may be. Numbers are exact.
pub data Parsed : Type 0 where
  nan : Parsed
  plus minus : ℕ → Parsed

abbrev pub decimal : (ℕ → Parsed) → Text × Text → Parsed
decimal sign ([], rest) = nan
decimal sign (c ∷ s, rest) = sign (parse_int 0 (c ∷ s))

abbrev pub signed : Text → Parsed
signed [] = nan
signed (c ∷ s) =
    if c == b'-'
    then decimal minus (span is_digit s)
    else if c == b'+'
    then decimal plus (span is_digit s)
    else decimal plus (span is_digit (c ∷ s))

unfoldable pub parse_number : Text → Parsed
unfolding drop_spaces span parse_int
parse_number s = signed (drop_spaces s)

-- A positive number, or the fallback.
abbrev pub positive_or : ℕ → Parsed → ℕ
positive_or fallback nan = fallback
positive_or fallback (plus n) = if ltb 0 n then n else fallback
positive_or fallback (minus n) = fallback

unfoldable pub positive_int : Option Text → ℕ → ℕ
unfolding parse_number
positive_int raw fallback = positive_or fallback (parse_number (get_or raw []))

-- The test as it is written here and in the exception filter.
unfoldable pub is_production : Env → Bool
is_production env = text_eq (get_or (env (codes "NODE_ENV")) []) (codes "production")

-- `if (value)`: an empty text counts as none.
abbrev pub given : Option Text → Option Text
given none = none
given (some []) = none
given (some (c ∷ s)) = some (c ∷ s)

abbrev pub or_default : Bool → Text → Text → Option Text → Outcome Text
or_default production name fallback (some value) = ok value
or_default false name fallback none = ok fallback
or_default true name fallback none = throw (
    error (name ++ codes " must be set in production — refusing to start on a development default"))

-- `isProduction` is a constant of the module: it is read where the module is imported, and the secrets
-- later, where the configuration is loaded.
unfoldable pub required : Bool → Env → Text → Text → Outcome Text
required is_production env name fallback = or_default is_production name fallback (given (env name))

abbrev finite_or : Parsed → Parsed → Parsed
finite_or fallback nan = fallback
finite_or fallback (plus n) = plus n
finite_or fallback (minus n) = minus n

unfoldable pub int : Env → Text → ℕ → Parsed
unfolding parse_number
int env name fallback = finite_or (plus fallback) (parse_number (get_or (env name) []))

pub record Jwt : Type 0 where
  pub secret : Text
  pub expires_in : Text
  pub refresh_expires_in : Text

pub record Csrf : Type 0 where
  pub secret : Text
  pub cookie_name : Text
  pub header_name : Text
  pub ttl_ms : Parsed

pub record Throttle : Type 0 where
  pub short_ttl : Parsed
  pub short_limit : Parsed
  pub long_ttl : Parsed
  pub long_limit : Parsed

pub record Security : Type 0 where
  pub jwt : Jwt
  pub api_keys_raw : Text
  pub api_keys_header : Text
  pub csrf : Csrf
  pub throttle : Throttle
  pub cors_origins : List Text
  pub cors_credentials : Bool
  pub hsts : Bool
  pub csp : Text

-- `CORS_ORIGINS?.split(',') ?? ['http://localhost:3000']`
abbrev origins : Option Text → List Text
origins none = codes "http://localhost:3000" ∷ []
origins (some s) = split_on b',' s

abbrev pub security_of : Env → Text → Text → Security
security_of env jwt_secret csrf_secret = record {
  jwt = record {
    secret = jwt_secret;
    expires_in = get_or (env (codes "JWT_EXPIRES_IN")) (codes "1h");
    refresh_expires_in = get_or (env (codes "JWT_REFRESH_EXPIRES_IN")) (codes "7d");
  };
  api_keys_raw = get_or (env (codes "API_KEYS")) [];
  api_keys_header = get_or (env (codes "API_KEY_HEADER")) (codes "x-api-key");
  csrf = record {
    secret = csrf_secret;
    cookie_name = get_or (env (codes "CSRF_COOKIE_NAME")) (codes "a2a.csrf");
    header_name = get_or (env (codes "CSRF_HEADER_NAME")) (codes "x-csrf-token");
    ttl_ms = int env (codes "CSRF_TTL_MS") 3600000;
  };
  throttle = record {
    short_ttl = int env (codes "THROTTLE_SHORT_TTL") 1000;
    short_limit = int env (codes "THROTTLE_SHORT_LIMIT") 10;
    long_ttl = int env (codes "THROTTLE_LONG_TTL") 60000;
    long_limit = int env (codes "THROTTLE_LONG_LIMIT") 100;
  };
  cors_origins = origins (env (codes "CORS_ORIGINS"));
  cors_credentials = true;
  hsts = not (text_eq (get_or (env (codes "HSTS_ENABLED")) []) (codes "false"));
  csp = get_or (env (codes "CSP_POLICY")) (codes "default-src 'self'");
}

unfoldable pub security_config : Env → Env → Outcome Security
unfolding required is_production
security_config imported env =
    let production = is_production imported in
    required production env (codes "JWT_SECRET") (codes "dev-secret-change-me") >>= λ jwt_secret.
    required production env (codes "CSRF_SECRET") (codes "dev-csrf-secret-change-me")
    >>= λ csrf_secret. ok (security_of env jwt_secret csrf_secret)
