-- ===== src/Observability/DomainGauges.antt =====
-- src/observability/domain-gauges.service.ts. JavaScript's numbers and the answers of the database are
-- parameters; a gauge is the map of its values by label.
pub mod Loads
pub mod Values
pub mod Tests
use a2a_agent_layer.Common.{
  ℕ, suc, ◌+◌, ltb, ◌==◌, Bool, true, false, not, ◌&&◌, Option, none, some, is_some, List, [], ◌∷◌,
  if◌then◌else◌, get_or, Text, codes, set, Outcome, ok, throw, ◌>>=◌, Exception,
}
use a2a_agent_layer.Common.Dict.Spread.{spread}
use a2a_agent_layer.Config.{Env, positive_int}

pub record StatusCount : Type 0 where
  pub status : Text
  pub count : Text

pub record UsageRow : Type 0 where
  pub pending : Option Text
  pub rolled_up : Option Text
  pub lag_seconds : Option Text

pub record Settings : Type 0 where
  pub ttl_ms : ℕ
  pub usage_window_hours : ℕ

unfoldable pub settings_of : Env → Settings
settings_of env = record {
  ttl_ms = positive_int (env (codes "DOMAIN_METRICS_TTL_MS")) 15000;
  usage_window_hours = positive_int (env (codes "DOMAIN_METRICS_USAGE_WINDOW_HOURS")) 24;
}

-- `Object.values(AgentStatus)`
abbrev pub agent_statuses : List Text
agent_statuses = codes "active" ∷ codes "inactive" ∷ []

-- The numbers: zero, `Number` of a text, and `Math.max`.
pub record Numbers : Type 1 where
  pub Num : Type 0
  pub nil : Num
  pub number : Text → Num
  pub max : Num → Num → Num

module _ (numbers : Numbers) where
  abbrev pub Gauge : Type 0
  Gauge = List (Text × numbers.Num)

  -- `loads` counts the rounds of queries, which the code does not keep.
  pub record State : Type 0 where
    pub last_refresh_at : ℕ
    pub in_flight : Option ℕ
    pub agents : Gauge
    pub services : Gauge
    pub usage_records : Gauge
    pub metering_lag : numbers.Num
    pub refresh_errors : ℕ
    pub loads : ℕ

  pub record Rows : Type 0 where
    pub agents : List StatusCount
    pub services : List StatusCount
    pub usage : Option UsageRow

  abbrev pub write_zeros : List Text → Gauge → Gauge
  write_zeros [] counts = counts
  write_zeros (status ∷ known) counts = write_zeros known (set counts status numbers.nil)

  abbrev pub write_rows : List StatusCount → Gauge → Gauge
  write_rows [] counts = counts
  write_rows (row ∷ rows) counts =
      write_rows rows (set counts row.status (numbers.number row.count))

  unfoldable pub set_by_status : Gauge → List Text → List StatusCount → Gauge
  unfolding spread
  set_by_status gauge known rows = spread gauge (write_rows rows (write_zeros known []))

  -- `Number(usage?.field ?? 0)`
  abbrev pub usage_number : (UsageRow → Option Text) → Option UsageRow → numbers.Num
  usage_number field none = numbers.nil
  usage_number field (some row) = elim (field row) [
    | none ↦ numbers.nil
    | some s ↦ numbers.number s
  ]

  -- `load` behind its queries, which were answered.
  unfoldable pub apply_rows : Rows → State → State
  unfolding set_by_status
  apply_rows rows s = record s {
    agents = set_by_status s.agents agent_statuses rows.agents;
    services = set_by_status s.services agent_statuses rows.services;
    usage_records =
        set (set s.usage_records (codes "pending") (usage_number (λ u. u.pending) rows.usage))
          (codes "rolled_up") (usage_number (λ u. u.rolled_up) rows.usage);
    metering_lag = numbers.max numbers.nil (usage_number (λ u. u.lag_seconds) rows.usage);
  }

  -- The three queries of `load` run together: it goes on when all are answered, and rejects when one
  -- is.
  unfoldable pub all_rows :
      Outcome (List StatusCount)
      → Outcome (List StatusCount)
      → Outcome (Option UsageRow)
      → Outcome Rows
  all_rows agents services usage = agents >>= λ a.
      services >>= λ s. usage >>= λ u. ok (record { agents = a; services = s; usage = u })

  abbrev pub is_fresh : ℕ → ℕ → State → Bool
  is_fresh ttl_ms now s = not (s.last_refresh_at == 0) && ltb now (s.last_refresh_at + ttl_ms)

  abbrev pub join_round : ℕ → Option ℕ → State → State
  join_round now none s = record s { in_flight = some now; loads = suc s.loads }
  join_round now (some at) s = s

  -- `refresh` up to where it waits: the state, and whether the caller waits for the round in flight.
  unfoldable pub refresh : Settings → ℕ → State → Bool × State
  refresh settings now s =
      if is_fresh settings.ttl_ms now s then (false, s) else (true, join_round now s.in_flight s)

  -- The callbacks on the round in flight, when its queries settle; the callers that wait go on.
  abbrev pub settle_round : Outcome Rows → Option ℕ → State → State
  settle_round r none s = s
  settle_round (ok rows) (some now) s = record (apply_rows rows s) {
    last_refresh_at = now;
    in_flight = none;
  }
  settle_round (throw e) (some now) s = record s {
    refresh_errors = suc s.refresh_errors;
    in_flight = none;
  }

  unfoldable pub settle : Outcome Rows → State → State
  unfolding apply_rows
  settle r s = settle_round r s.in_flight s

  -- What may happen: a scrape, and the end of the round in flight.
  pub data Event : Type 0 where
    scraped : ℕ → Event
    answered : Outcome Rows → Event

  unfoldable pub step : Settings → State → Event → State
  unfolding refresh settle
  step settings s (scraped now) = (refresh settings now s).1
  step settings s (answered r) = settle r s

  unfoldable pub run : Settings → State → List Event → State
  unfolding step
  run settings s [] = s
  run settings s (event ∷ events) = run settings (step settings s event) events
