-- ===== src/Observability/Tracing/Tests.antt =====
-- An endpoint with slashes at its end.
use a2a_agent_layer.Common.{ℕ, ◌≡◌, refl, if◌then◌else◌, none, some, codes, text_eq}
use a2a_agent_layer.Common.Trim.{trim, drop_spaces}
use a2a_agent_layer.Config.{Env}
use a2a_agent_layer.Observability.Tracing.{tracing_config_from_env, drop_slashes}

abbrev collector : Env
collector name =
    if text_eq name (codes "OTEL_EXPORTER_OTLP_ENDPOINT") then some (codes " http://c//") else none

traces_of_collector :
    (tracing_config_from_env {Ratio = ℕ} (λ raw. 1) collector).traces_url
    ≡ codes "http://c/v1/traces"
unfolding tracing_config_from_env drop_slashes trim drop_spaces text_eq
traces_of_collector = refl
