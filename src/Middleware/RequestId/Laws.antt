-- ===== src/Middleware/RequestId/Laws.antt =====
-- One id goes with a request, through its log lines and on to the next service.
use a2a_agent_layer.Common.{
  ◌≡◌, ◌≢◌, refl, ap, ◌∙◌, Option, none, some, List, [], ◌∷◌, Text, codes, Outcome, get,
}
use a2a_agent_layer.Common.Trim.{trim}
use a2a_agent_layer.Common.Trim.Laws.{trim_idem}
use a2a_agent_layer.Common.Json.{Json, str}
use a2a_agent_layer.Logging.{NestLevel, Value, TraceIds, call}
use a2a_agent_layer.Logging.Laws.{call-NamesRequest}
use a2a_agent_layer.Middleware.RequestId.{or_uuid, choose_id, use_request_id}

-- A random id: not empty, and without white space at its ends.
abbrev pub IsId : Text → Type 0
IsId s = (s ≢ []) × (trim s ≡ s)

or_uuid-IsId : (s uuid : Text) → trim s ≡ s → IsId uuid → IsId (or_uuid s uuid)
or_uuid-IsId [] uuid e u = u
or_uuid-IsId (c ∷ s) uuid e u = (λ z. cc, e)

choose_id-IsId : (incoming : Option Text) (uuid : Text) → IsId uuid → IsId (choose_id incoming uuid)
unfolding choose_id
choose_id-IsId none uuid u = u
choose_id-IsId (some s) uuid u = or_uuid-IsId (trim s) uuid (trim_idem s) u

or_uuid_keeps : (s uuid : Text) → s ≢ [] → or_uuid s uuid ≡ s
or_uuid_keeps [] uuid n = absurd (n refl)
or_uuid_keeps (c ∷ s) uuid n = refl

-- The next service, which is called with the id of this one, chooses the same id.
choose_id_again :
    (incoming : Option Text) (uuid other : Text)
    → IsId uuid
    → choose_id (some (choose_id incoming uuid)) other ≡ choose_id incoming uuid
unfolding choose_id
choose_id_again incoming uuid other u =
    let i = choose_id-IsId incoming uuid u in
    ap (λ s. or_uuid s other) i.1 ∙ or_uuid_keeps (choose_id incoming uuid) other i.0

module _ (parse_json : Text → Outcome Json) where
  -- While a request is served, what is logged carries the id that the response has in its header; the id
  -- is not empty, and a service that is called with it as its incoming id answers with the same one, if
  -- random ids are texts that are not empty and have no white space at their ends.
  pub use_request_id-call :
      (incoming : Option Text) (uuid other : Text) (trace : Option TraceIds) (level : NestLevel)
      (message : Value) (params : List Value)
      → IsId uuid
      → let (marked, line) = use_request_id incoming uuid (λ context.
        call parse_json (record { context = context; trace = trace }) level message params) in
        (get line.fields (codes "requestId") ≡ some (some (str marked.response_header)))
        × (marked.response_header ≢ [])
        × ((use_request_id (some marked.response_header) other (λ context. context)).0 ≡ marked)
  unfolding use_request_id
  use_request_id-call incoming uuid other trace level message params u = (
    call-NamesRequest parse_json (record { request_id = choose_id incoming uuid }) trace level
        message params,
    (choose_id-IsId incoming uuid u).0,
    ap (λ id. record { request_header = id; request_id = id; response_header = id })
        (choose_id_again incoming uuid other u),
  )
