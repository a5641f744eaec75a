-- ===== src/Filters/Tests.antt =====
-- A handler that fails in production, and a duplicate value.
use a2a_agent_layer.Common.{◌≡◌, refl, none, some, if◌then◌else◌, codes, text_eq, arith}
use a2a_agent_layer.Config.{Env, is_production}
use a2a_agent_layer.Filters.{
  Thrown, plain_error, query_failed, Request, catch_all, catch_database, respond, answered_status,
  answered_message,
}
use a2a_agent_layer.Filters.Laws.{IsGeneric, respond-IsGeneric}

abbrev pub production : Env
production name = if text_eq name (codes "NODE_ENV") then some (codes "production") else none

abbrev pub request : Request
request = record { url = codes "/x"; request_id = none; request_id_header = none }

abbrev failure : Thrown
failure = plain_error (record { name = codes "TypeError"; message = codes "secret"; status = none })

abbrev pub duplicate : Thrown
duplicate =
    query_failed (record { code = some (codes "23505"); message = codes "dup"; constraint = none })

respond-IsGeneric_example :
    IsGeneric (answered_message (respond production (codes "now") request failure))
unfolding is_production text_eq respond catch_database catch_all
respond-IsGeneric_example =
    respond-IsGeneric production (codes "now") request failure refl (omega arith)

conflict_status : answered_status (respond production (codes "now") request duplicate) ≡ 409
unfolding respond catch_database text_eq
conflict_status = refl
