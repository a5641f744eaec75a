-- ===== src/Observability/DomainGauges/Tests.antt =====
-- Scrapes of a database that fails once, with whole numbers.
use a2a_agent_layer.Common.{
  ℕ, ◌≤◌, ltb, ◌≡◌, refl, if◌then◌else◌, none, some, List, [], ◌∷◌, codes, text_eq, get, set, ok,
  throw, error, arith,
}
use a2a_agent_layer.Common.Dict.Spread.{spread}
use a2a_agent_layer.Auth.RefreshToken.{parse_int}
use a2a_agent_layer.Observability.DomainGauges.{
  Settings, Numbers, State, Rows, apply_rows, refresh, set_by_status, settle, Event, scraped,
  answered, step, run,
}
use a2a_agent_layer.Observability.DomainGauges.Loads.{run-loads}
use a2a_agent_layer.Observability.DomainGauges.Values.{IsLoaded, settle-IsLoaded}

abbrev whole : Numbers
whole = record { Num = ℕ; nil = 0; number = parse_int 0; max = λ a b. if ltb a b then b else a }

abbrev settings : Settings
settings = record { ttl_ms = 50; usage_window_hours = 24 }

abbrev idle : State whole
idle = record {
  last_refresh_at = 0;
  in_flight = none;
  agents = [];
  services = (codes "inactive", 7) ∷ [];
  usage_records = [];
  metering_lag = 0;
  refresh_errors = 0;
  loads = 0;
}

abbrev rows : Rows whole
rows = record {
  agents = record { status = codes "active"; count = codes "12" } ∷ [];
  services = record { status = codes "active"; count = codes "3" } ∷ [];
  usage =
      some
        (record { pending = some (codes "5"); rolled_up = none; lag_seconds = some (codes "61") });
}

-- Two scrapes share a round that fails; the next round succeeds, and then none is started.
abbrev events : List (Event whole)
events =
    scraped 100
    ∷ scraped 101
    ∷ answered (throw (error (codes "down")))
    ∷ scraped 110
    ∷ answered (ok rows)
    ∷ scraped 149
    ∷ []

run-loads_example : (run whole settings idle events).loads ≤ 2
unfolding run step refresh settle apply_rows set_by_status spread set text_eq parse_int
run-loads_example = run-loads whole settings 100 events idle (omega arith) refl (
  (omega arith, omega arith),
  (
    (omega arith, omega arith),
    (tt, ((omega arith, omega arith), (tt, ((omega arith, omega arith), tt)))),
  ),
)

settle-IsLoaded_example :
    IsLoaded whole
      (ok rows)
      110
      (record idle { in_flight = some 110 })
      (settle whole (ok rows) (record idle { in_flight = some 110 }))
    × ((settle whole (ok rows) (record idle { in_flight = some 110 })).in_flight ≡ none)
settle-IsLoaded_example =
    settle-IsLoaded whole (ok rows) 110 (record idle { in_flight = some 110 }) refl

no_stale_services : get (run whole settings idle events).services (codes "inactive") ≡ some 0
unfolding run step refresh settle apply_rows set_by_status spread set get text_eq parse_int
no_stale_services = refl
