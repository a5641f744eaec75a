-- ===== src/Interceptors.antt =====
-- What is reported of a handled request: src/observability/controller-metrics.interceptor.ts,
-- src/common/interceptors/audit.interceptor.ts and src/common/interceptors/logging.interceptor.ts.
pub mod Laws
pub mod Tests
use a2a_agent_layer.Common.{
  ℕ, zero, suc, ◌-◌, ◌==◌, Bool, true, false, ◌||◌, any, Option, none, some, get_or, List, [], ◌∷◌,
  ◌++◌, if◌then◌else◌, Text, codes, text_eq, lower_case, show_ℕ,
}
use a2a_agent_layer.Config.{given}
use a2a_agent_layer.Filters.{
  Thrown, http_exception, entity_not_found, query_failed, typeorm_error, plain_error, no_error,
}
use a2a_agent_layer.Observability.HttpMetrics.{normalize_method}

-- How a handler ends: with a response of this status, or with what it throws.
pub data Handled : Type 0 where
  answered : ℕ → Handled
  thrown : Thrown → Handled

-- The `status` of a thrown value, where it is a number.
abbrev pub status_property : Thrown → Option ℕ
status_property (http_exception e) = some e.status
status_property (plain_error e) = e.status
status_property (entity_not_found message) = none
status_property (query_failed e) = none
status_property (typeorm_error message) = none
status_property (no_error status) = status

unfoldable pub status_of : Thrown → ℕ
status_of (http_exception e) = e.status
status_of (plain_error e) = get_or e.status 500
status_of e = get_or (status_property e) 500

-- `className.replace(/Controller$/, '')`
unfoldable pub drop_controller : Text → Text
drop_controller [] = []
drop_controller (c ∷ s) =
    let rest = drop_controller s in if text_eq (c ∷ s) (codes "Controller") then [] else c ∷ rest

abbrev base_or : Text → Text → Text
base_or [] class_name = class_name
base_or (c ∷ s) class_name = c ∷ s

unfoldable pub controller_label : Text → Text
unfolding drop_controller
controller_label class_name = lower_case (base_or (drop_controller class_name) class_name)

pub record Observation : Type 0 where
  pub controller : Text
  pub handler : Text
  pub method : Text
  pub route : Text
  pub status : Text

-- What the interceptor reads of the call.
pub record Handler : Type 0 where
  pub context_type : Text
  pub class_name : Text
  pub handler_name : Text
  pub route_path : Option Text

abbrev reported_status : Handled → ℕ
reported_status (answered status) = status
reported_status (thrown e) = status_of e

-- `ControllerMetricsInterceptor.intercept`, without the time that it observes.
unfoldable pub observe_handler : Handler → Option Text → Handled → Option Observation
unfolding status_of controller_label normalize_method text_eq
observe_handler h method outcome =
    if text_eq h.context_type (codes "http")
    then if text_eq h.class_name (codes "MetricsController")
      then none
      else some (record {
        controller = controller_label h.class_name;
        handler = h.handler_name;
        method = normalize_method method;
        route = get_or h.route_path (codes "unmatched");
        status = show_ℕ (reported_status outcome);
      })
    else none

pub record User : Type 0 where
  pub user_id : Option Text
  pub did : Option Text
  pub role : Option Text

-- What the interceptors read of a request.
pub record Request : Type 0 where
  pub method : Text
  pub url : Text
  pub ip : Option Text
  pub user_agent : Option Text
  pub request_id : Option Text
  pub request_id_header : Option Text
  pub user : Option User

pub record AuditEntry : Type 0 where
  pub timestamp : Text
  pub request_id : Option Text
  pub method : Text
  pub path : Text
  pub user_id : Option Text
  pub did : Option Text
  pub role : Option Text
  pub ip : Text
  pub user_agent : Text
  pub status_code : ℕ
  pub duration_ms : ℕ

abbrev pub mutating_methods : List Text
mutating_methods = codes "POST" ∷ codes "PUT" ∷ codes "PATCH" ∷ codes "DELETE" ∷ []

abbrev pub is_mutating : Text → Bool
is_mutating method = any (λ m. text_eq m method) mutating_methods

abbrev user_field : (User → Option Text) → Option User → Option Text
user_field f none = none
user_field f (some user) = f user

abbrev audit_status : Handled → ℕ
audit_status (answered status) = status
audit_status (thrown e) = get_or (status_property e) 500

-- `AuditInterceptor.intercept`: the entry that it logs.
unfoldable pub audit : Request → Text → ℕ → ℕ → Handled → Option AuditEntry
audit request timestamp start now outcome =
    if is_mutating request.method
    then some (record {
      timestamp = timestamp;
      request_id = request.request_id;
      method = request.method;
      path = request.url;
      user_id = user_field (λ u. some (get_or u.user_id (codes "anonymous"))) request.user;
      did = user_field (λ u. given u.did) request.user;
      role = user_field (λ u. given u.role) request.user;
      ip = get_or request.ip (codes "unknown");
      user_agent = get_or request.user_agent (codes "unknown");
      status_code = audit_status outcome;
      duration_ms = now - start;
    })
    else none

-- `err.status || 500`
abbrev nonzero_or : Option ℕ → ℕ
nonzero_or none = 500
nonzero_or (some n) = if n == 0 then 500 else n

pub data Line : Type 0 where
  log warn : Text → Line

abbrev line_text : Request → ℕ → ℕ → Text
line_text request status duration =
    let id = get_or request.request_id (get_or request.request_id_header (codes "-")) in
    let agent = get_or (given request.user_agent) (codes "-") in
    let tail = codes "ms - " ++ (get_or request.ip (codes "undefined") ++ (codes " " ++ agent)) in
    let numbers = show_ℕ status ++ (codes " " ++ (show_ℕ duration ++ tail)) in
    codes "["
    ++ (id
        ++ (codes "] "
            ++ (request.method ++ (codes " " ++ (request.url ++ (codes " " ++ numbers))))))

-- `LoggingInterceptor.intercept`
unfoldable pub log_request : Request → ℕ → ℕ → Handled → Line
log_request request start now (answered status) = log (line_text request status (now - start))
log_request request start now (thrown e) =
    warn (line_text request (nonzero_or (status_property e)) (now - start))
