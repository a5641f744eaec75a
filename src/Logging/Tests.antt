-- ===== src/Logging/Tests.antt =====
-- A message that is the JSON text of an object with a request id of its own.
use a2a_agent_layer.Common.{
  ◌≡◌, refl, some, none, [], ◌∷◌, Text, codes, text_eq, get, set, Outcome, ok,
}
use a2a_agent_layer.Common.Dict.Spread.{spread}
use a2a_agent_layer.Common.Json.{Json, str, obj, end, field}
use a2a_agent_layer.Logging.{
  RequestContext, request_id, log, error, a_text, other, payload_of, write, call,
}
use a2a_agent_layer.Logging.Laws.{call-NamesRequest}

abbrev pub forged : Text → Outcome Json
forged s = ok (obj (field (codes "requestId") (str (codes "forged")) end))

abbrev here : RequestContext
here = record { request_id = codes "r-1" }

call-NamesRequest_example :
    get
      (call forged
        (record { context = some here; trace = none })
        log
        (a_text (codes "{...}"))
        (a_text (codes "Http") ∷ [])).fields
      (codes "requestId")
    ≡ some (some (str (codes "r-1")))
call-NamesRequest_example =
    call-NamesRequest forged here none log (a_text (codes "{...}")) (a_text (codes "Http") ∷ [])

-- A stack and a context: the last text is the context.
error_context :
    get
      (call forged
        (record { context = none; trace = none })
        error
        (other (codes "x"))
        (a_text (codes "at f") ∷ a_text (codes "Http") ∷ [])).fields
      (codes "context")
    ≡ some (some (str (codes "Http")))
unfolding get set text_eq spread call write payload_of request_id
error_context = refl
