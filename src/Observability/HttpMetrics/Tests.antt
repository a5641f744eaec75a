-- ===== src/Observability/HttpMetrics/Tests.antt =====
-- Two requests and a scrape: one request is answered, and the client of the other goes away.
use a2a_agent_layer.Common.{◌≡◌, refl, true, false, [], ◌∷◌, text_eq, codes, show_ℕ}
use a2a_agent_layer.Common.Trim.{cut_at}
use a2a_agent_layer.Common.Decimal.{digits}
use a2a_agent_layer.Observability.HttpMetrics.{
  Event, arrived, finished, closed, is_scrape, run, step, use_metrics, settle, observe_http_request,
  normalize_method,
}
use a2a_agent_layer.Observability.HttpMetrics.Ended.{ended}
use a2a_agent_layer.Observability.HttpMetrics.Laws.{IsBalanced, no_metrics, run-IsBalanced}
use a2a_agent_layer.Common.{List}

abbrev events : List Event
events =
    arrived (codes "get") (codes "/services?q=1") 10
    ∷ arrived (codes "GET") (codes "/metrics") 11
    ∷ arrived (codes "BREW") (codes "/") 12
    ∷ finished 0 200 30
    ∷ closed 0 true 200 31
    ∷ closed 1 false 200 40
    ∷ []

two_end : ended 0 events ≡ 2
unfolding text_eq cut_at is_scrape
two_end = refl

run-IsBalanced_example : IsBalanced events (run no_metrics events)
run-IsBalanced_example = run-IsBalanced events

counted :
    (run no_metrics events).requests
    ≡ record { method = codes "GET"; status = codes "200" }
      ∷ record { method = codes "OTHER"; status = codes "499" }
      ∷ []
unfolding is_scrape run step use_metrics settle observe_http_request normalize_method text_eq cut_at
    show_ℕ digits
counted = refl
