-- ===== src/Interceptors/Tests.antt =====
-- A duplicate value, which is answered with 409 and reported with 500.
use a2a_agent_layer.Common.{◌≡◌, ◌↔◌, refl, none, some, codes, text_eq, lower_case, show_ℕ}
use a2a_agent_layer.Common.Decimal.{digits}
use a2a_agent_layer.Filters.{mapped_code, respond, answered_status}
use a2a_agent_layer.Filters.Tests.{production, request, duplicate}
use a2a_agent_layer.Observability.HttpMetrics.{normalize_method}
use a2a_agent_layer.Interceptors.{
  status_of, Handler, thrown, observe_handler, controller_label, drop_controller,
}
use a2a_agent_layer.Interceptors.Laws.{status_of-respond_iff}

status_of-respond_iff_example :
    (status_of duplicate ≡ answered_status (respond production (codes "now") request duplicate))
    ↔ (mapped_code (some (codes "23505")) ≡ none)
status_of-respond_iff_example = status_of-respond_iff production (codes "now") request duplicate

abbrev register : Handler
register = record {
  context_type = codes "http";
  class_name = codes "IdentityController";
  handler_name = codes "register";
  route_path = none;
}

reported_as_500 :
    observe_handler register (some (codes "post")) (thrown duplicate)
    ≡ some (record {
      controller = codes "identity";
      handler = codes "register";
      method = codes "POST";
      route = codes "unmatched";
      status = codes "500";
    })
unfolding observe_handler status_of controller_label drop_controller normalize_method text_eq
    lower_case show_ℕ digits
reported_as_500 = refl
