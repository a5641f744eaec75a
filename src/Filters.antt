-- ===== src/Filters.antt =====
-- src/common/filters: what a thrown value is answered with. The two filters are global
-- (src/main.ts), and NestJS asks the one that was registered last first.
pub mod Laws
pub mod Tests
use a2a_agent_layer.Common.{
  ℕ, leb, Bool, true, false, ◌&&◌, Option, none, some, get_or, List, [], ◌∷◌, if◌then◌else◌, Text,
  codes, text_eq, get,
}
use a2a_agent_layer.Config.{Env, is_production, given}

-- `string | string[]`
pub data Message : Type 0 where
  one : Text → Message
  many : List Text → Message

-- `getResponse()` of an HTTP exception.
pub data ExceptionResponse : Type 0 where
  text_response : Text → ExceptionResponse
  object_response : Option Message → Option Text → ExceptionResponse

pub record HttpException : Type 0 where
  pub status : ℕ
  pub response : ExceptionResponse
  pub message : Text
  pub name : Text

pub record PgError : Type 0 where
  pub code : Option Text
  pub message : Text
  pub constraint : Option Text

-- Another error, which may have a `status` of its own.
pub record PlainError : Type 0 where
  pub name : Text
  pub message : Text
  pub status : Option ℕ

-- What a handler may throw, by the classes that the filters tell apart.
pub data Thrown : Type 0 where
  http_exception : HttpException → Thrown
  entity_not_found : Text → Thrown
  query_failed : PgError → Thrown
  typeorm_error : Text → Thrown
  plain_error : PlainError → Thrown
  -- a value that is no error, which may have a `status` all the same
  no_error : Option ℕ → Thrown

abbrev pub pg_error_map : List (Text × ℕ × Text)
pg_error_map =
    (codes "23505", 409, codes "Duplicate value violates unique constraint")
    ∷ (codes "23503", 400, codes "Foreign key constraint violated")
    ∷ (codes "23502", 400, codes "Required field is missing")
    ∷ (codes "22P02", 400, codes "Invalid input syntax")
    ∷ (codes "40001", 409, codes "Serialization failure, please retry")
    ∷ (codes "40P01", 409, codes "Deadlock detected, please retry")
    ∷ (codes "57014", 408, codes "Query cancelled due to timeout")
    ∷ []

pub record DatabaseBody : Type 0 where
  pub status_code : ℕ
  pub message : Text
  pub code : Option Text
  pub constraint : Option Text

abbrev pub find_code : List (Text × ℕ × Text) → Text → Option (ℕ × Text)
find_code [] code = none
find_code ((known, status, message) ∷ more) code =
    if text_eq known code then some (status, message) else find_code more code

abbrev pub mapped_code : Option Text → Option (ℕ × Text)
mapped_code none = none
mapped_code (some code) = find_code pg_error_map code

abbrev database_error : DatabaseBody
database_error = record {
  status_code = 500;
  message = codes "Database error";
  code = none;
  constraint = none;
}

abbrev pub query_body : PgError → Option (ℕ × Text) → DatabaseBody
query_body e none = database_error
query_body e (some (status, message)) = record {
  status_code = status;
  message = message;
  code = e.code;
  constraint = e.constraint;
}

-- `DatabaseErrorFilter.catch`, for the classes that it catches.
unfoldable pub catch_database : Thrown → Option DatabaseBody
catch_database (entity_not_found message) = some (record {
  status_code = 404;
  message = codes "Resource not found";
  code = none;
  constraint = none;
})
catch_database (query_failed e) = some (query_body e (mapped_code (given e.code)))
catch_database (typeorm_error message) = some database_error
catch_database _ = none

pub record Request : Type 0 where
  pub url : Text
  pub request_id : Option Text
  pub request_id_header : Option Text

pub record ErrorResponseBody : Type 0 where
  pub status_code : ℕ
  pub error : Text
  pub message : Message
  pub path : Text
  pub timestamp : Text
  pub request_id : Option Text

pub record Details : Type 0 where
  pub status : ℕ
  pub message : Message
  pub error : Text

-- `a || b`, where an empty text counts as none and an array never does.
abbrev pub message_or : Option Message → Text → Message
message_or none fallback = one fallback
message_or (some (one [])) fallback = one fallback
message_or (some (one (c ∷ s))) fallback = one (c ∷ s)
message_or (some (many texts)) fallback = many texts

abbrev pub http_details : HttpException → ExceptionResponse → Details
http_details e (text_response s) = record {
  status = e.status;
  message = one s;
  error = codes "Internal Server Error";
}
http_details e (object_response message error) = record {
  status = e.status;
  message = message_or message e.message;
  error = get_or (given error) e.name;
}

abbrev pub error_details : Text → Text → Details
error_details message name = record { status = 500; message = one message; error = name }

-- The first half of `AllExceptionsFilter.catch`.
abbrev pub details_of : Thrown → Details
details_of (http_exception e) = http_details e e.response
details_of (plain_error e) = error_details e.message e.name
details_of (entity_not_found message) = error_details message (codes "EntityNotFoundError")
details_of (query_failed e) = error_details e.message (codes "QueryFailedError")
details_of (typeorm_error message) = error_details message (codes "TypeORMError")
details_of (no_error status) =
    error_details (codes "Internal server error") (codes "Internal Server Error")

abbrev first_given : Option Text → Option Text → Option Text
first_given (some s) other = some s
first_given none other = other

unfoldable pub catch_all : Env → Text → Request → Thrown → ErrorResponseBody
catch_all env timestamp request e =
    let details = details_of e in
    record {
      status_code = details.status;
      error = details.error;
      message =
          if leb 500 details.status && is_production env
          then one (codes "Internal server error")
          else details.message;
      path = request.url;
      timestamp = timestamp;
      request_id = given (first_given request.request_id request.request_id_header);
    }

pub data Answer : Type 0 where
  database : DatabaseBody → Answer
  general : ErrorResponseBody → Answer

unfoldable pub respond : Env → Text → Request → Thrown → Answer
unfolding catch_database
respond env timestamp request e = elim (catch_database e) [
  | some body ↦ database body
  | none ↦ general (catch_all env timestamp request e)
]

abbrev pub answered_status : Answer → ℕ
answered_status (database body) = body.status_code
answered_status (general body) = body.status_code

abbrev pub answered_message : Answer → Message
answered_message (database body) = one body.message
answered_message (general body) = body.message
