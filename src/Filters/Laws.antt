-- ===== src/Filters/Laws.antt =====
-- What a client learns of an error of the server.
use a2a_agent_layer.Common.{
  ℕ, ◌≤◌, ◌<◌, All, leb, true, Bool-cases, ◌≡◌, ◌⊎◌, inl, inr, refl, Option, none, some, [], ◌∷◌,
  Text, codes, text_eq, List, arith,
}
use a2a_agent_layer.Config.{Env, is_production, given}
use a2a_agent_layer.Filters.{
  Message, one, Thrown, http_exception, entity_not_found, query_failed, typeorm_error, plain_error,
  no_error, PgError, mapped_code, find_code, pg_error_map, catch_database, catch_all, Request,
  respond, answered_status, answered_message, details_of, query_body,
}

-- The two texts that stand for an error of the server.
abbrev pub IsGeneric : Message → Type 0
IsGeneric message =
    (message ≡ one (codes "Internal server error")) ⊎ (message ≡ one (codes "Database error"))

catch_all-IsGeneric :
    (env : Env) (timestamp : Text) (request : Request) (e : Thrown)
    → is_production env ≡ true
    → 500 ≤ (catch_all env timestamp request e).status_code
    → IsGeneric (catch_all env timestamp request e).message
unfolding catch_all
catch_all-IsGeneric env timestamp request e p h =
    let server : leb 500 (details_of e).status ≡ true = ground arith in rw (server, p) (inl refl)

abbrev pub Below : Option (ℕ × Text) → Type 0
Below none = Unit
Below (some (status, message)) = status < 500

find_code-Below :
    (table : List (Text × ℕ × Text)) (code : Text)
    → All (λ entry. entry.1 < 500) table
    → Below (find_code table code)
find_code-Below [] code a = tt
find_code-Below ((known, status, message) ∷ table) code (a, below) =
    elim (Bool-cases (text_eq known code)) [
      | inl h ↦ rw h a
      | inr h ↦ rw h (find_code-Below table code below)
    ]

pg_error_map_below : All (λ entry. entry.1 < 500) pg_error_map
pg_error_map_below = (
  omega arith,
  (omega arith, (omega arith, (omega arith, (omega arith, (omega arith, (omega arith, tt)))))),
)

pub mapped_code-Below : (code : Option Text) → Below (mapped_code code)
mapped_code-Below none = tt
mapped_code-Below (some code) = find_code-Below pg_error_map code pg_error_map_below

query_body-IsGeneric :
    (e : PgError) (o : Option (ℕ × Text))
    → Below o
    → 500 ≤ (query_body e o).status_code
    → IsGeneric (one (query_body e o).message)
query_body-IsGeneric e none b h = inr refl
query_body-IsGeneric e (some (status, message)) b h = absurd (omega (arith, b, h))

-- In production, an answer with a status of 500 or more carries one of two fixed texts as its message,
-- whatever was thrown.
pub respond-IsGeneric :
    (env : Env) (timestamp : Text) (request : Request) (e : Thrown)
    → is_production env ≡ true
    → 500 ≤ answered_status (respond env timestamp request e)
    → IsGeneric (answered_message (respond env timestamp request e))
unfolding respond catch_database
respond-IsGeneric env timestamp request (http_exception x) p h =
    catch_all-IsGeneric env timestamp request (http_exception x) p h
respond-IsGeneric env timestamp request (plain_error x) p h =
    catch_all-IsGeneric env timestamp request (plain_error x) p h
respond-IsGeneric env timestamp request (no_error status) p h =
    catch_all-IsGeneric env timestamp request (no_error status) p h
respond-IsGeneric env timestamp request (entity_not_found s) p h = absurd (omega (arith, h))
respond-IsGeneric env timestamp request (query_failed x) p h =
    query_body-IsGeneric x (mapped_code (given x.code)) (mapped_code-Below (given x.code)) h
respond-IsGeneric env timestamp request (typeorm_error s) p h = inr refl
