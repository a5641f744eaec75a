-- ===== src/Interceptors/Laws.antt =====
-- Where what is reported of an error is what the client is answered.
use a2a_agent_layer.Common.{ℕ, ◌≡◌, ◌↔◌, refl, Option, none, some, get_or, Text, arith}
use a2a_agent_layer.Config.{Env, given}
use a2a_agent_layer.Filters.{
  Thrown, http_exception, HttpException, ExceptionResponse, text_response, object_response,
  http_details, entity_not_found, query_failed, typeorm_error, plain_error, no_error, PgError,
  mapped_code, query_body, catch_database, catch_all, Request, respond, answered_status,
}
use a2a_agent_layer.Filters.Laws.{Below, mapped_code-Below}
use a2a_agent_layer.Interceptors.{status_of}

-- The errors whose status is known before the filters run: not the database errors that a filter maps
-- to a status below 500, and not the other values with a status of their own, which is passed over.
abbrev pub IsForeseen : Thrown → Type 0
IsForeseen (http_exception e) = Unit
IsForeseen (plain_error e) = get_or e.status 500 ≡ 500
IsForeseen (entity_not_found message) = ⊥
IsForeseen (query_failed e) = mapped_code (given e.code) ≡ none
IsForeseen (typeorm_error message) = Unit
IsForeseen (no_error status) = get_or status 500 ≡ 500

query_body_iff :
    (e : PgError) (o : Option (ℕ × Text))
    → Below o
    → (500 ≡ (query_body e o).status_code) ↔ (o ≡ none)
query_body_iff e none b = (λ z. refl, λ z. refl)
query_body_iff e (some (status, message)) b = (λ z. absurd (omega (arith, b, z)), λ z. cc)

http_details_status :
    (e : HttpException) (r : ExceptionResponse) → e.status ≡ (http_details e r).status
http_details_status e (text_response s) = refl
http_details_status e (object_response message error) = refl

-- The status that the controllers' histogram reports of an error is the one that the client is answered
-- exactly if the error is an HTTP exception, or a database error that the filter does not map to a status
-- of its own, or another value whose own status, if it has one, is 500.
pub status_of-respond_iff :
    (env : Env) (timestamp : Text) (request : Request) (e : Thrown)
    → (status_of e ≡ answered_status (respond env timestamp request e)) ↔ IsForeseen e
unfolding status_of respond catch_database catch_all
status_of-respond_iff env timestamp request (http_exception x) =
    (λ z. tt, λ z. http_details_status x x.response)
status_of-respond_iff env timestamp request (plain_error x) = (λ z. z, λ z. z)
status_of-respond_iff env timestamp request (entity_not_found s) =
    (λ z. absurd (omega (arith, z)), λ z. absurd z)
status_of-respond_iff env timestamp request (query_failed x) =
    query_body_iff x (mapped_code (given x.code)) (mapped_code-Below (given x.code))
status_of-respond_iff env timestamp request (typeorm_error s) = (λ z. tt, λ z. refl)
status_of-respond_iff env timestamp request (no_error status) = (λ z. z, λ z. z)
