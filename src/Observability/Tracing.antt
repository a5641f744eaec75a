-- ===== src/Observability/Tracing.antt =====
-- src/observability/tracing.ts and src/observability/traced-blockchain.ts. `Number.parseFloat` and its
-- clamping are parameters. The SDK is the configuration that it runs with, and a span is what it was given.
pub mod Laws
pub mod Tests
use a2a_agent_layer.Common.{
  ℕ, suc, ◌==◌, Bool, true, false, not, ◌&&◌, ◌||◌, Option, none, some, is_some, get_or, List, [],
  ◌∷◌, ◌++◌, if◌then◌else◌, Text, codes, text_eq, show_ℕ, set, Exception, Outcome, ok, throw,
}
use a2a_agent_layer.Common.Dict.Spread.{spread}
use a2a_agent_layer.Common.Trim.{trim}
use a2a_agent_layer.Config.{Env, given}

pub record TracingConfig (Ratio : Type 0) : Type 0 where
  pub enabled : Bool
  pub service_name : Text
  pub service_version : Text
  pub environment : Text
  pub traces_url : Text
  pub sample_ratio : Ratio

abbrev trimmed : Option Text → Option Text
trimmed none = none
trimmed (some s) = given (some (trim s))

-- `.replace(/\/+$/, '')`
unfoldable pub drop_slashes : Text → Text
drop_slashes [] = []
drop_slashes (c ∷ s) = slash_before c (drop_slashes s)
  where
    slash_before : ℕ → Text → Text
    slash_before c [] = if c == b'/' then [] else c ∷ []
    slash_before c (d ∷ s) = c ∷ d ∷ s

abbrev is_requested : Option Text → Option Text → Option Text → Bool
is_requested none endpoint traces_endpoint = is_some endpoint || is_some traces_endpoint
is_requested (some setting) endpoint traces_endpoint = text_eq setting (codes "true")

module _ {Ratio : Type 0} (parse_ratio : Option Text → Ratio) where
  unfoldable pub tracing_config_from_env : Env → TracingConfig Ratio
  unfolding drop_slashes trim
  tracing_config_from_env env =
      let endpoint = trimmed (env (codes "OTEL_EXPORTER_OTLP_ENDPOINT")) in
      let traces_endpoint = trimmed (env (codes "OTEL_EXPORTER_OTLP_TRACES_ENDPOINT")) in
      record {
        enabled =
            is_requested (given (env (codes "OTEL_ENABLED"))) endpoint traces_endpoint
            && not (text_eq (get_or (env (codes "OTEL_SDK_DISABLED")) []) (codes "true"));
        service_name = get_or (trimmed (env (codes "OTEL_SERVICE_NAME"))) (codes "a2a-agent-layer");
        service_version = get_or (env (codes "npm_package_version")) (codes "0.1.0");
        environment = get_or (env (codes "NODE_ENV")) (codes "development");
        traces_url =
            get_or traces_endpoint (
              drop_slashes (get_or endpoint (codes "http://localhost:4318")) ++ codes "/v1/traces");
        sample_ratio = parse_ratio (env (codes "OTEL_TRACES_SAMPLER_ARG"));
      }

  -- The variable `sdk`.
  abbrev pub Sdk : Type 0
  Sdk = Option (TracingConfig Ratio)

  unfoldable pub start_tracing : TracingConfig Ratio → Sdk → Bool × Sdk
  start_tracing config (some running) = (false, some running)
  start_tracing config none = if config.enabled then (true, some config) else (false, none)

  unfoldable pub stop_tracing : Sdk → Sdk
  stop_tracing sdk = none

  unfoldable pub is_tracing_started : Sdk → Bool
  is_tracing_started sdk = is_some sdk

pub record Span : Type 0 where
  pub name : Text
  pub attributes : List (Text × Text)
  pub exceptions : List Text
  pub error_status : Option Text
  pub ended : ℕ

-- What a result says of a receipt, where it looks like one.
pub record ReceiptLike : Type 0 where
  pub hash : Option Text
  pub block_number : Option ℕ
  pub status : Option ℕ

abbrev pub set_attribute : Text → Option Text → Span → Span
set_attribute key none span = span
set_attribute key (some value) span = record span { attributes = set span.attributes key value }

abbrev pub shown : Option ℕ → Option Text
shown none = none
shown (some n) = some (show_ℕ n)

abbrev pub set_error : Text → Span → Span
set_error message span = record span { error_status = some message }

abbrev pub mark_reverted : Option ℕ → Span → Span
mark_reverted none span = span
mark_reverted (some status) span =
    if status == 0 then set_error (codes "transaction reverted") span else span

unfoldable pub record_receipt : Option ReceiptLike → Span → Span
record_receipt none span = span
record_receipt (some receipt) span = mark_reverted receipt.status (
    set_attribute (codes "blockchain.block_number") (shown receipt.block_number)
      (set_attribute (codes "blockchain.tx_hash") receipt.hash span))

abbrev request_attribute : Option Text → List (Text × Text)
request_attribute none = []
request_attribute (some id) = (codes "request.id", id) ∷ []

-- What `error.message` is, or the text of another thrown value.
abbrev pub message_of : Exception → Text
message_of (Exception.bad_request s) = s
message_of (Exception.unauthorized s) = s
message_of (Exception.forbidden s) = s
message_of (Exception.not_found s) = s
message_of (Exception.conflict s) = s
message_of (Exception.error s) = s

unfoldable pub start_span : Text → List (Text × Text) → Option Text → Span
unfolding spread
start_span name attributes request_id = record {
  name = name;
  attributes =
      spread
        (spread ((codes "rpc.system", codes "jsonrpc") ∷ []) (request_attribute (given request_id)))
        attributes;
  exceptions = [];
  error_status = none;
  ended = 0;
}

abbrev pub end_span : Span → Span
end_span span = record span { ended = suc span.ended }

module _ {T : Type 0} (receipt_of : T → Option ReceiptLike) where
  abbrev pub settle_call : Outcome T × Span → Outcome T × Span
  settle_call (ok result, span) = (ok result, end_span (record_receipt (receipt_of result) span))
  settle_call (throw e, span) = (
    throw e,
    end_span (
        set_error (message_of e)
          (record span { exceptions = span.exceptions ++ (message_of e ∷ []) })),
  )

  -- `tracedCall`; the callback may write to the span.
  unfoldable pub traced_call :
      Text → List (Text × Text) → Option Text → (Span → Outcome T × Span) → Outcome T × Span
  unfolding start_span record_receipt
  traced_call name attributes request_id fn =
      settle_call (fn (start_span name attributes request_id))
