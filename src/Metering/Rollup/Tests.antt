-- ===== src/Metering/Rollup/Tests.antt =====
-- Two agents in one hour, over a table of rows of which the latest counts.
use a2a_agent_layer.Common.{
  ℕ, ◌&&◌, ◌≡◌, refl, sym, ap, none, some, Option, List, [], ◌∷◌, ◌==◌, if◌then◌else◌, Text, codes,
  text_eq, ok,
}
use a2a_agent_layer.Policy.Service.Tests.{no_metrics}
use a2a_agent_layer.Metering.Rollup.{
  RollupColumns, Aggregate, UsageRollup, RollupDeps, RollupWorld, truncate_to_hour, upsert_all,
  rollup, run_hourly_rollup,
}
use a2a_agent_layer.Metering.Rollup.Laws.{
  IsUpsert, upserted, SucceededAt, Rolled, run_hourly_rollup-Rolled,
}

abbrev of_agent : Text → Text → Aggregate
of_agent agent_id count = record {
  agent_id = agent_id;
  request_count = count;
  tokens_used = codes "10";
  bytes_in = codes "20";
  bytes_out = codes "30";
  cpu_ms = codes "70";
}

abbrev groups : List Aggregate
groups = of_agent (codes "a") (codes "1") ∷ of_agent (codes "b") (codes "12") ∷ []

abbrev latest : List UsageRollup → Text → ℕ → Option RollupColumns
latest [] a h = none
latest (r ∷ rows) a h =
    if text_eq r.agent_id a && r.hour_bucket == h then some r.columns else latest rows a h

abbrev deps : RollupDeps
deps = record {
  aggregates = λ from to. ok groups;
  Db = List UsageRollup;
  lookup = latest;
  upsert = λ r updates key db. (
    ok tt,
    record r { columns = upserted updates r.columns (latest db r.agent_id r.hour_bucket) } ∷ db,
  );
}

deps-IsUpsert : IsUpsert deps
deps-IsUpsert agent_id hour c updates db db' e a h = rw (sym (ap (λ x. x.1) e))

abbrev start : RollupWorld (List UsageRollup)
start = record { db = []; metrics = no_metrics; interval = none }

first_run : (run_hourly_rollup deps 3700000 5000 start).0 ≡ ok 2
unfolding run_hourly_rollup rollup upsert_all truncate_to_hour
first_run = refl

second_run :
    (run_hourly_rollup deps 3700000 6000 (run_hourly_rollup deps 3700000 5000 start).1).0 ≡ ok 2
unfolding run_hourly_rollup rollup upsert_all truncate_to_hour
second_run = refl

run_hourly_rollup-Rolled_example :
    Rolled deps deps-IsUpsert 3700000 [] 2 (run_hourly_rollup deps 3700000 5000 start).1.db
    × SucceededAt 5000 2 no_metrics (run_hourly_rollup deps 3700000 5000 start).1.metrics
run_hourly_rollup-Rolled_example =
    run_hourly_rollup-Rolled deps deps-IsUpsert 3700000 5000 start 2 first_run
