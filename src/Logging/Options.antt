-- ===== src/Logging/Options.antt =====
-- `buildLoggerOptions` of src/common/logging/pino-logger.service.ts: what pino is set up with.
use a2a_agent_layer.Common.{
  Bool, true, Option, none, some, get_or, List, [], ◌∷◌, if◌then◌else◌, Text, codes, text_eq,
}
use a2a_agent_layer.Config.{Env, given}

pub record Transport : Type 0 where
  pub target : Text
  pub single_line : Bool
  pub colorize : Bool

pub record LoggerOptions : Type 0 where
  pub level : Text
  pub transport : Option Transport
  pub service : Text
  pub env : Text
  pub redact_paths : List Text
  pub censor : Text

abbrev pub redact_paths : List Text
redact_paths =
    codes "req.headers.authorization"
    ∷ codes "req.headers.cookie"
    ∷ codes "req.headers[\"x-api-key\"]"
    ∷ codes "privateKey"
    ∷ codes "*.privateKey"
    ∷ codes "password"
    ∷ codes "*.password"
    ∷ codes "ownerSignature"
    ∷ codes "*.ownerSignature"
    ∷ codes "refreshToken"
    ∷ codes "*.refreshToken"
    ∷ []

-- `env.LOG_PRETTY ? env.LOG_PRETTY === 'true' : nodeEnv === 'development'`
abbrev pub is_pretty : Option Text → Text → Bool
is_pretty none node_env = text_eq node_env (codes "development")
is_pretty (some setting) node_env = text_eq setting (codes "true")

unfoldable pub build_logger_options : Env → LoggerOptions
build_logger_options env =
    let node_env = get_or (env (codes "NODE_ENV")) (codes "development") in
    record {
      level =
          get_or (env (codes "LOG_LEVEL"))
            (if text_eq node_env (codes "production") then codes "info" else codes "debug");
      transport =
          if is_pretty (given (env (codes "LOG_PRETTY"))) node_env
          then some (record { target = codes "pino-pretty"; single_line = true; colorize = true })
          else none;
      service = codes "a2a-agent-layer";
      env = node_env;
      redact_paths = redact_paths;
      censor = codes "[redacted]";
    }
