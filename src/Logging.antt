-- ===== src/Logging.antt =====
-- src/common/logging: pino-logger.service.ts and request-context.ts. `JSON.parse` is a parameter, and
-- what the service gives to pino is the value of its calls; pino's own output is not modelled.
pub mod Options
pub mod Laws
pub mod Tests
use a2a_agent_layer.Common.{
  ℕ, Bool, true, false, not, Option, none, some, is_some, get_or, List, [], ◌∷◌, ◌++◌,
  if◌then◌else◌, filter, Text, codes, text_eq, set, Outcome, ok, throw,
}
use a2a_agent_layer.Common.Dict.Spread.{spread}
use a2a_agent_layer.Common.Json.{Json, null, bool, num, str, arr, obj, Items, Fields, end, field}
use a2a_agent_layer.Config.{Env, given}
use a2a_agent_layer.Blockchain.Retry.{starts_with}

pub record RequestContext : Type 0 where
  pub request_id : Text

-- `requestContext`: what runs inside `run` reads the context that it was given.
abbrev pub run_in {ℓ} : {A : Type ℓ} → RequestContext → (Option RequestContext → A) → A
run_in context fn = fn (some context)

unfoldable pub request_id : Option RequestContext → Option Text
request_id none = none
request_id (some context) = some context.request_id

pub data NestLevel : Type 0 where
  log error warn debug verbose fatal : NestLevel

abbrev pub levels : NestLevel → Text
levels log = codes "info"
levels error = codes "error"
levels warn = codes "warn"
levels debug = codes "debug"
levels verbose = codes "trace"
levels fatal = codes "fatal"

pub record Error : Type 0 where
  pub name : Text
  pub message : Text
  pub stack : Text

-- An argument of a log method: an error, a text, another object, or any other value with what `String`
-- makes of it.
pub data Value : Type 0 where
  an_error : Error → Value
  a_text : Text → Value
  an_object : Fields → Value
  other : Text → Value

-- The properties of an object; `none` is `undefined`.
abbrev pub Payload : Type 0
Payload = List (Text × Option Json)

-- What is given to a method of pino.
pub record Emitted : Type 0 where
  pub level : Text
  pub fields : Payload
  pub message : Option Text

abbrev pub serialize_error : Error → Json
serialize_error e = obj (
    field (codes "name") (str e.name)
      (field (codes "message") (str e.message) (field (codes "stack") (str e.stack) end)))

unfoldable pub fields_of : Fields → Payload
fields_of end = []
fields_of (field key value rest) = (key, some value) ∷ fields_of rest

-- `defined`
unfoldable pub defined : Payload → Payload
defined payload = filter (λ entry. is_some entry.1) payload

-- The ids of the active span, as `activeTraceIds` gives them.
pub record TraceIds : Type 0 where
  pub trace_id : Text
  pub span_id : Text

abbrev pub trace_fields : Option TraceIds → Payload
trace_fields none = []
trace_fields (some ids) =
    (codes "traceId", some (str ids.trace_id)) ∷ (codes "spanId", some (str ids.span_id)) ∷ []

abbrev pub text_field : Option Text → Option Json
text_field none = none
text_field (some s) = some (str s)

-- What `write` finds around itself.
pub record Around : Type 0 where
  pub context : Option RequestContext
  pub trace : Option TraceIds

unfoldable pub payload_of : Around → Option Text → Payload → Payload
unfolding spread request_id
payload_of around context extra =
    spread
      (spread
        ((codes "context", text_field context)
          ∷ (codes "requestId", text_field (request_id around.context))
          ∷ [])
        (trace_fields around.trace))
      extra

-- An object, and not an array or another value.
abbrev pub object_fields : Outcome Json → Option Fields
object_fields (ok (obj fields)) = some fields
object_fields _ = none

abbrev pub last_text : List Value → Option Text
last_text [] = none
last_text (a_text s ∷ []) = some s
last_text (an_error e ∷ []) = none
last_text (an_object o ∷ []) = none
last_text (other s ∷ []) = none
last_text (v ∷ w ∷ values) = last_text (w ∷ values)

-- `contextOf`
unfoldable pub context_of : List Value → Option Text
context_of params = last_text params

abbrev pub texts : List Value → List Text
texts [] = []
texts (a_text s ∷ values) = s ∷ texts values
texts (an_error e ∷ values) = texts values
texts (an_object o ∷ values) = texts values
texts (other s ∷ values) = texts values

abbrev pub first_error : List Value → Option Error
first_error [] = none
first_error (an_error e ∷ values) = some e
first_error (a_text s ∷ values) = first_error values
first_error (an_object o ∷ values) = first_error values
first_error (other s ∷ values) = first_error values

-- The stack and the context among the texts: of a single one, the context.
abbrev pub stack_and_context : List Text → Option Text × Option Text
stack_and_context [] = (none, none)
stack_and_context (context ∷ []) = (none, some context)
stack_and_context (stack ∷ s ∷ []) = (some stack, some s)
stack_and_context (stack ∷ s ∷ t ∷ rest) = (some stack, (stack_and_context (s ∷ t ∷ rest)).1)

abbrev pub stack_field : Option Text → Payload
stack_field none = []
stack_field (some stack) = (codes "stack", some (str stack)) ∷ []

abbrev pub cause_field : Option Error → Payload
cause_field none = []
cause_field (some e) = (codes "err", some (serialize_error e)) ∷ []

module _ (parse_json : Text → Outcome Json) where
  unfoldable pub try_parse : Text → Option Fields
  unfolding starts_with
  try_parse message =
      if starts_with (codes "{") message then object_fields (parse_json message) else none

  abbrev pub emit_text : NestLevel → Payload → Text → Option Fields → Emitted
  emit_text level payload message none = record {
    level = levels level;
    fields = payload;
    message = some message;
  }
  emit_text level payload message (some parsed) = record {
    level = levels level;
    fields = spread (fields_of parsed) (defined payload);
    message = none;
  }

  abbrev pub emit_value : NestLevel → Payload → Value → Emitted
  emit_value level payload (an_error e) = record {
    level = levels level;
    fields = spread payload ((codes "err", some (serialize_error e)) ∷ []);
    message = some e.message;
  }
  emit_value level payload (a_text message) = emit_text level payload message (try_parse message)
  emit_value level payload (an_object fields) = record {
    level = levels level;
    fields = spread (fields_of fields) (defined payload);
    message = none;
  }
  emit_value level payload (other s) = record {
    level = levels level;
    fields = payload;
    message = some s;
  }

  unfoldable pub write : Around → NestLevel → Value → Option Text → Payload → Emitted
  unfolding try_parse payload_of fields_of defined
  write around level message context extra =
      emit_value level (payload_of around context extra) message

  -- The methods of the logger: `error` looks for a stack and a cause among its arguments, and the
  -- others take the last one for their context.
  unfoldable pub call : Around → NestLevel → Value → List Value → Emitted
  unfolding write context_of
  call around error message params =
      let (stack, context) = stack_and_context (texts params) in
      -- a stack that is empty is left out
      write around error message context
        (spread (stack_field (given stack)) (cause_field (first_error params)))
  call around level message params = write around level message (context_of params) []
