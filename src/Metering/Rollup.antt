-- ===== src/Metering/Rollup.antt =====
-- `MeteringRollupJob` of src/modules/metering/metering-rollup.job.ts, and the rollup entity. Times are
-- milliseconds since the epoch. The aggregating query and the upsert are parameters.
pub mod Laws
pub mod Tests
use a2a_agent_layer.Common.{
  ℕ, ◌+◌, ◌-◌, ◌%◌, Bool, ◌&&◌, Option, none, some, List, [], ◌∷◌, ◌==◌, if◌then◌else◌, get_or,
  length, Text, codes, text_eq, Outcome, ok, throw, Action, proceed,
}
use a2a_agent_layer.Auth.RefreshToken.{parse_int}
use a2a_agent_layer.Observability.BusinessMetrics.{BusinessMetrics, RollupResult, record_rollup_run}

-- One group of the query, as raw texts.
pub record Aggregate : Type 0 where
  pub agent_id : Text
  pub request_count : Text
  pub tokens_used : Text
  pub bytes_in : Text
  pub bytes_out : Text
  pub cpu_ms : Text

-- The columns of a rollup row besides its key. The sums are the texts of bigint columns.
pub record RollupColumns : Type 0 where
  pub request_count : ℕ
  pub tokens_used : Text
  pub bytes_in : Text
  pub bytes_out : Text
  pub cpu_ms : ℕ

pub record UsageRollup : Type 0 where
  pub agent_id : Text
  pub hour_bucket : ℕ
  pub columns : RollupColumns

-- `aggregates` reads the usage records of a span of time, grouped by agent. `upsert` inserts a row, or, if
-- there is one with the same values in the columns of the second list, updates in that one the columns of
-- the first.
pub record RollupDeps : Type 1 where
  pub aggregates : ℕ → ℕ → Outcome (List Aggregate)
  pub Db : Type 0
  pub lookup : Db → Text → ℕ → Option RollupColumns
  pub upsert : UsageRollup → List Text → List Text → Action Db (Unit {0})

-- `setUTCMinutes(0, 0, 0)`
unfoldable pub truncate_to_hour : ℕ → ℕ
truncate_to_hour date = date - date % 3600000

pub record RollupWorld (Db : Type 0) : Type 0 where
  pub db : Db
  pub metrics : BusinessMetrics
  -- the period of the timer while it runs
  pub interval : Option ℕ

-- The values of the insert. The database counts in decimal digits, which `Number` reads; numbers are exact.
abbrev pub columns_of : Aggregate → RollupColumns
columns_of row = record {
  request_count = parse_int 0 row.request_count;
  tokens_used = row.tokens_used;
  bytes_in = row.bytes_in;
  bytes_out = row.bytes_out;
  cpu_ms = parse_int 0 row.cpu_ms;
}

abbrev pub updated_columns : List Text
updated_columns =
    codes "requestCount"
    ∷ codes "tokensUsed"
    ∷ codes "bytesIn"
    ∷ codes "bytesOut"
    ∷ codes "cpuMs"
    ∷ codes "updatedAt"
    ∷ []

abbrev pub conflict_columns : List Text
conflict_columns = codes "agentId" ∷ codes "hourBucket" ∷ []

module _ (deps : RollupDeps) where
  open deps use {aggregates, Db, upsert}

  unfoldable pub upsert_all : ℕ → List Aggregate → Action Db (Unit {0})
  upsert_all hour [] db = (ok tt, db)
  upsert_all hour (row ∷ rows) db =
      proceed
        (upsert (record { agent_id = row.agent_id; hour_bucket = hour; columns = columns_of row })
          updated_columns conflict_columns db)
        (λ _ db'. upsert_all hour rows db')

  unfoldable pub rollup : ℕ → Action Db ℕ
  rollup reference db =
      let hour = truncate_to_hour reference in
      elim (aggregates hour (hour + 3600000)) [
        | throw e ↦ (throw e, db)
        | ok [] ↦ (ok 0, db)
        | ok (row ∷ rows) ↦
            proceed (upsert_all hour (row ∷ rows) db) (λ _ db'. (ok (length (row ∷ rows)), db'))
      ]

  -- `now` is the time that the metric records.
  unfoldable pub run_hourly_rollup : ℕ → ℕ → Action (RollupWorld Db) ℕ
  run_hourly_rollup reference now w =
      let (answer, db) = rollup reference w.db in
      elim answer [
        | ok buckets ↦ (
          ok buckets,
          record w {
            db = db;
            metrics = record_rollup_run RollupResult.success buckets now w.metrics;
          },
        )
        | throw e ↦ (
          throw e,
          record w { db = db; metrics = record_rollup_run RollupResult.failure 0 now w.metrics },
        )
      ]

  -- `given` is the period in the environment.
  unfoldable pub on_module_init : Option ℕ → RollupWorld Db → RollupWorld Db
  on_module_init given w = record w { interval = some (get_or given 3600000) }

  unfoldable pub stop_timer : RollupWorld Db → RollupWorld Db
  stop_timer w = record w { interval = none }
