-- ===== src/Middleware/RequestId/Tests.antt =====
-- A request that brings an id with spaces around it.
use a2a_agent_layer.Common.{◌≡◌, ◌≢◌, refl, none, some, [], codes, get}
use a2a_agent_layer.Common.Trim.{trim, drop_spaces}
use a2a_agent_layer.Common.Json.{str}
use a2a_agent_layer.Logging.{log, other, call}
use a2a_agent_layer.Logging.Tests.{forged}
use a2a_agent_layer.Middleware.RequestId.{use_request_id, choose_id}
use a2a_agent_layer.Middleware.RequestId.Laws.{use_request_id-call}

use_request_id-call_example :
    let (marked, line) = use_request_id (some (codes " r-1 ")) (codes "u") (λ context.
      call forged (record { context = context; trace = none }) log (other (codes "7")) []) in
    (get line.fields (codes "requestId") ≡ some (some (str marked.response_header)))
    × (marked.response_header ≢ [])
    × ((use_request_id (some marked.response_header) (codes "v") (λ context. context)).0 ≡ marked)
unfolding trim drop_spaces
use_request_id-call_example =
    use_request_id-call forged (some (codes " r-1 ")) (codes "u") (codes "v") none log
      (other (codes "7")) [] (λ e. cc, refl)

trims_id : choose_id (some (codes " r-1 ")) (codes "u") ≡ codes "r-1"
unfolding choose_id trim drop_spaces
trims_id = refl
