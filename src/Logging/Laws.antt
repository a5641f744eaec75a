-- ===== src/Logging/Laws.antt =====
-- Which request id a line carries.
use a2a_agent_layer.Common.{
  ◌≡◌, refl, ◌∙◌, Option, none, some, is_some, List, [], ◌∷◌, Text, codes, text_eq, get, set,
  Outcome,
}
use a2a_agent_layer.Common.Dict.Distinct.{Distinct, Distinct-filter, get-filter-some}
use a2a_agent_layer.Common.Dict.Spread.{spread, get-spread, Distinct-spread}
use a2a_agent_layer.Common.Json.{Json, str, Fields}
use a2a_agent_layer.Config.{given}
use a2a_agent_layer.Logging.{
  RequestContext, request_id, NestLevel, log, error, warn, debug, verbose, fatal, Error, Value,
  an_error, a_text, an_object, other, Payload, Emitted, serialize_error, fields_of, defined,
  TraceIds, trace_fields, text_field, payload_of, stack_field, cause_field, stack_and_context,
  texts, first_error, context_of, try_parse, emit_text, emit_value, write, call,
}

abbrev id_key : Text
id_key = codes "requestId"

-- Further properties of a line, which do not name the request.
abbrev IsExtra : Payload → Type 0
IsExtra extra = Distinct extra × (get extra id_key ≡ none)

trace_fields-IsExtra : (trace : Option TraceIds) → IsExtra (trace_fields trace)
unfolding get text_eq
trace_fields-IsExtra none = (tt, refl)
trace_fields-IsExtra (some ids) = ((refl, (refl, tt)), refl)

error-IsExtra :
    (stack : Option Text) (cause : Option Error)
    → IsExtra (spread (stack_field stack) (cause_field cause))
unfolding get text_eq spread set
error-IsExtra none none = (tt, refl)
error-IsExtra (some s) none = ((refl, tt), refl)
error-IsExtra none (some e) = ((refl, tt), refl)
error-IsExtra (some s) (some e) = ((refl, (refl, tt)), refl)

get-spread_keeps :
    (left right : Payload) (v : Option Json)
    → Distinct right
    → get right id_key ≡ none
    → get left id_key ≡ some v
    → get (spread left right) id_key ≡ some v
get-spread_keeps left right v d absent e = get-spread left right id_key d ∙ rw absent e

get-spread_wins :
    (left right : Payload) (v : Option Json)
    → Distinct right
    → get right id_key ≡ some v
    → get (spread left right) id_key ≡ some v
get-spread_wins left right v d e = get-spread left right id_key d ∙ rw e refl

-- A payload that names the request.
abbrev Names : RequestContext → Payload → Type 0
Names context payload =
    Distinct payload × (get payload id_key ≡ some (some (str context.request_id)))

base-Names :
    (name : Option Text) (context : RequestContext)
    → Names context
        ((codes "context", text_field name) ∷ (id_key, text_field (request_id (some context))) ∷ [])
unfolding get text_eq request_id
base-Names name context = ((refl, (refl, tt)), refl)

spread-Names :
    (context : RequestContext) (left right : Payload)
    → Names context left
    → IsExtra right
    → Names context (spread left right)
spread-Names context left right (d, e) (x, y) = (
  Distinct-spread left right d,
  get-spread_keeps left right (some (str context.request_id)) x y e,
)

payload_of-Names :
    (context : RequestContext) (trace : Option TraceIds) (name : Option Text) (extra : Payload)
    → IsExtra extra
    → Names context (payload_of (record { context = some context; trace = trace }) name extra)
unfolding payload_of
payload_of-Names context trace name extra x =
    let base =
      (codes "context", text_field name) ∷ (id_key, text_field (request_id (some context))) ∷ [] in
    spread-Names context (spread base (trace_fields trace)) extra
      (spread-Names context base (trace_fields trace) (base-Names name context)
        (trace_fields-IsExtra trace))
      x

defined-Names :
    (context : RequestContext) (payload : Payload)
    → Names context payload
    → Names context (defined payload)
unfolding defined
defined-Names context payload (d, e) = (
  Distinct-filter (λ entry. is_some entry.1) payload d,
  get-filter-some (λ entry. is_some entry.1) payload id_key (some (str context.request_id)) d e,
)

err-IsExtra : (e : Error) → IsExtra ((codes "err", some (serialize_error e)) ∷ [])
unfolding get text_eq
err-IsExtra e = ((refl, tt), refl)

nil-IsExtra : IsExtra []
unfolding get
nil-IsExtra = (tt, refl)

module _ (parse_json : Text → Outcome Json) where
  abbrev pub NamesRequest : RequestContext → Emitted → Type 0
  NamesRequest context line =
      get line.fields (codes "requestId") ≡ some (some (str context.request_id))

  emit_text-NamesRequest :
      (context : RequestContext) (level : NestLevel) (payload : Payload) (message : Text)
      (o : Option Fields)
      → Names context payload
      → NamesRequest context (emit_text parse_json level payload message o)
  emit_text-NamesRequest context level payload message none n = n.1
  emit_text-NamesRequest context level payload message (some parsed) n =
      let d = defined-Names context payload n in
      get-spread_wins (fields_of parsed) (defined payload) (some (str context.request_id)) d.0 d.1

  emit_value-NamesRequest :
      (context : RequestContext) (level : NestLevel) (payload : Payload) (value : Value)
      → Names context payload
      → NamesRequest context (emit_value parse_json level payload value)
  emit_value-NamesRequest context level payload (an_error e) n =
      (spread-Names context payload ((codes "err", some (serialize_error e)) ∷ []) n
        (err-IsExtra e)).1
  emit_value-NamesRequest context level payload (a_text message) n =
      emit_text-NamesRequest context level payload message (try_parse parse_json message) n
  emit_value-NamesRequest context level payload (an_object fields) n =
      let d = defined-Names context payload n in
      get-spread_wins (fields_of fields) (defined payload) (some (str context.request_id)) d.0 d.1
  emit_value-NamesRequest context level payload (other s) n = n.1

  write-NamesRequest :
      (context : RequestContext) (trace : Option TraceIds) (level : NestLevel) (message : Value)
      (name : Option Text) (extra : Payload)
      → IsExtra extra
      → NamesRequest context (
          write parse_json
            (record { context = some context; trace = trace })
            level
            message
            name
            extra)
  unfolding write
  write-NamesRequest context trace level message name extra x =
      emit_value-NamesRequest context level
        (payload_of (record { context = some context; trace = trace }) name extra) message
        (payload_of-Names context trace name extra x)

  plain :
      (context : RequestContext) (trace : Option TraceIds) (level : NestLevel) (message : Value)
      (params : List Value)
      → NamesRequest context (
          write parse_json
            (record { context = some context; trace = trace })
            level
            message
            (context_of params)
            [])
  plain context trace level message params =
      write-NamesRequest context trace level message (context_of params) [] nil-IsExtra

  -- Every line that is logged inside a request carries the id of that request, whatever the level, the
  -- message and the further arguments, also where the message is an object or the JSON text of one that
  -- has a request id of its own.
  pub call-NamesRequest :
      (context : RequestContext) (trace : Option TraceIds) (level : NestLevel) (message : Value)
      (params : List Value)
      → NamesRequest context
          (call parse_json (record { context = some context; trace = trace }) level message params)
  unfolding call
  call-NamesRequest context trace error message params =
      let (stack, name) = stack_and_context (texts params) in
      write-NamesRequest context trace error message name
        (spread (stack_field (given stack)) (cause_field (first_error params)))
        (error-IsExtra (given stack) (first_error params))
  call-NamesRequest context trace log message params = plain context trace log message params
  call-NamesRequest context trace warn message params = plain context trace warn message params
  call-NamesRequest context trace debug message params = plain context trace debug message params
  call-NamesRequest context trace verbose message params =
      plain context trace verbose message params
  call-NamesRequest context trace fatal message params = plain context trace fatal message params
