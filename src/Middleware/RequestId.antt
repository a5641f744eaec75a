-- ===== src/Middleware/RequestId.antt =====
-- src/common/middleware/request-id.middleware.ts. A header is its first value.
pub mod Laws
pub mod Tests
use a2a_agent_layer.Common.{Option, none, some, [], ◌∷◌, Text, codes}
use a2a_agent_layer.Common.Trim.{trim}
use a2a_agent_layer.Logging.{RequestContext, run_in}

-- What the middleware writes: the request's header and property, and the header of the response.
pub record Marked : Type 0 where
  pub request_header : Text
  pub request_id : Text
  pub response_header : Text

abbrev pub or_uuid : Text → Text → Text
or_uuid [] uuid = uuid
or_uuid (c ∷ s) uuid = c ∷ s

-- `incoming?.trim() || randomUUID()`
unfoldable pub choose_id : Option Text → Text → Text
unfolding trim
choose_id none uuid = uuid
choose_id (some incoming) uuid = or_uuid (trim incoming) uuid

-- What comes next runs inside the context of the id.
unfoldable pub use_request_id :
    {A : Type 0} → Option Text → Text → (Option RequestContext → A) → Marked × A
unfolding choose_id
use_request_id incoming uuid next =
    let id = choose_id incoming uuid in
    (
      record { request_header = id; request_id = id; response_header = id },
      run_in (record { request_id = id }) next,
    )
