-- ===== src/Health.antt =====
-- src/modules/health/health.service.ts. A dependency is given by when it settles, if ever, and how, in
-- nanoseconds from the start of the call, which is what the code measures with.
pub mod Laws
pub mod Tests
use a2a_agent_layer.Common.{
  ℕ, ◌+◌, ◌-◌, ◌*◌, ◌/◌, ltb, ◌==◌, Bool, true, false, Option, none, some, List, [], ◌∷◌, ◌++◌,
  length, any, filter, if◌then◌else◌, get_or, Text, codes,
}
use a2a_agent_layer.Common.Decimal.{show_ℕ}
use a2a_agent_layer.Common.Trim.{trim}
use a2a_agent_layer.Config.{Env, positive_int}

pub data DependencyState : Type 0 where
  up down : DependencyState

pub data HealthState : Type 0 where
  ok degraded down : HealthState

-- A thrown value: its properties that are texts.
pub record Thrown : Type 0 where
  pub message : Option Text
  pub code : Option Text
  pub name : Option Text

pub data Settled (A : Type 0) : Type 0 where
  resolved : A → Settled A
  rejected : Thrown → Settled A

-- `none` never settles.
abbrev pub Pending : Type 0 → Type 0
Pending A = Option (ℕ × Settled A)

pub record DependencyHealth : Type 0 where
  pub name : Text
  pub status : DependencyState
  -- in hundredths of a millisecond
  pub latency : ℕ
  pub critical : Bool
  pub details : Option ℕ
  pub error : Option Text

pub record HealthDetail : Type 0 where
  pub status : HealthState
  pub service : Text
  pub version : Text
  pub timestamp : ℕ
  pub uptime : ℕ
  pub dependencies : List DependencyHealth

-- The `for` loop of `describeError` over the candidates.
abbrev pub first_text : List (Option Text) → Text
first_text [] = codes "Unknown error"
first_text (none ∷ candidates) = first_text candidates
first_text (some value ∷ candidates) =
    let rest = first_text candidates in if length (trim value) == 0 then rest else value

unfoldable pub describe_error : Thrown → Text
describe_error e = first_text (e.message ∷ e.code ∷ e.name ∷ [])

unfoldable pub check_timeout_ms : Env → ℕ
check_timeout_ms env = positive_int (env (codes "HEALTH_CHECK_TIMEOUT_MS")) 2000

-- `Math.round(ns / 1e4)`, in hundredths of a millisecond.
abbrev pub rounded : ℕ → ℕ
rounded ns = (ns + 5000) / 10000

abbrev pub timed_out : ℕ → Thrown
timed_out timeout_ms = record {
  message = some (codes "timed out after " ++ (show_ℕ timeout_ms ++ codes "ms"));
  code = none;
  name = some (codes "Error");
}

-- `Promise.race` of a check with a timer that rejects: what settles first, and when.
abbrev pub race : {A : Type 0} → Pending A → ℕ → Thrown → ℕ × Settled A
race none timer e = (timer, rejected e)
race (some (at, r)) timer e = if ltb at timer then (at, r) else (timer, rejected e)

abbrev pub report : Text → Bool → ℕ × Settled (Option ℕ) → ℕ × DependencyHealth
report name critical (at, resolved details) = (
  at,
  record {
    name = name;
    status = up;
    latency = rounded at;
    critical = critical;
    details = details;
    error = none;
  },
)
report name critical (at, rejected e) = (
  at,
  record {
    name = name;
    status = DependencyState.down;
    latency = rounded at;
    critical = critical;
    details = none;
    error = some (describe_error e);
  },
)

-- `setTimeout` takes a time above 2 ^ 31 - 1 ms for one of 1 ms.
abbrev pub timer_ms : ℕ → ℕ
timer_ms ms = if ltb 2147483647 ms then 1 else ms

-- `late` is by how much the timer fires behind its time.
unfoldable pub probe : Text → Bool → ℕ → ℕ → Pending (Option ℕ) → ℕ × DependencyHealth
probe name critical timeout_ms late check =
    report name critical (race check (timer_ms timeout_ms * 1000000 + late) (timed_out timeout_ms))

abbrev pub is_failed : DependencyHealth → Bool
is_failed dep = elim dep.status [ up ↦ false | DependencyState.down ↦ true ]

unfoldable pub status_of : List DependencyHealth → HealthState
status_of dependencies =
    let failures = filter is_failed dependencies in
    if any (λ dep. dep.critical) failures
    then HealthState.down
    else if ltb 0 (length failures)
    then degraded
    else ok

abbrev pub later : ℕ → ℕ → ℕ
later a b = if ltb a b then b else a

-- What `detail` asks: the database's `SELECT 1`, and the chain's block number.
pub record Dependencies : Type 0 where
  pub database : Pending (Unit {0})
  pub block_number : Pending ℕ

abbrev pub no_details : Pending (Unit {0}) → Pending (Option ℕ)
no_details none = none
no_details (some (at, resolved u)) = some (at, resolved none)
no_details (some (at, rejected e)) = some (at, rejected e)

abbrev pub block_details : Pending ℕ → Pending (Option ℕ)
block_details none = none
block_details (some (at, resolved n)) = some (at, resolved (some n))
block_details (some (at, rejected e)) = some (at, rejected e)

module _ (env : Env) (clock : ℕ → ℕ) (start_time : ℕ) where
  -- When the answer is there, and the answer. `clock` is `Date.now` by the nanoseconds of the call.
  unfoldable pub detail : Dependencies → ℕ → ℕ → ℕ × HealthDetail
  unfolding probe status_of check_timeout_ms
  detail deps late₁ late₂ =
      let timeout_ms = check_timeout_ms env in
      let (at₁, database) =
        probe (codes "database") true timeout_ms late₁ (no_details deps.database) in
      let (at₂, blockchain) =
        probe (codes "blockchain") false timeout_ms late₂ (block_details deps.block_number) in
      let dependencies = database ∷ blockchain ∷ [] in
      let at = later at₁ at₂ in
      (
        at,
        record {
          status = status_of dependencies;
          service = codes "a2a-agent-layer";
          version = get_or (env (codes "npm_package_version")) (codes "0.1.0");
          timestamp = clock at;
          uptime = (clock at - start_time) / 1000;
          dependencies = dependencies;
        },
      )

pub record DatabaseCheck : Type 0 where
  pub status : DependencyState
  pub latency_ms : ℕ
  pub error : Option Text

pub record HealthStatus : Type 0 where
  pub status : HealthState
  pub service : Text
  pub version : Text
  pub timestamp : ℕ
  pub uptime : ℕ
  pub database : DatabaseCheck

-- `error.message` of an `Error`.
abbrev message_or_unknown : Thrown → Text
message_or_unknown e = get_or e.message (codes "Unknown error")

module _ (env : Env) (clock : ℕ → ℕ) (start_time : ℕ) where
  abbrev pub check_database : ℕ × Settled (Unit {0}) → DatabaseCheck
  check_database (at, resolved u) = record {
    status = up;
    latency_ms = clock at - clock 0;
    error = none;
  }
  check_database (at, rejected e) = record {
    status = DependencyState.down;
    latency_ms = clock at - clock 0;
    error = some (message_or_unknown e);
  }

  -- `check` and `readiness` wait for the database: there is no answer without its own.
  unfoldable pub check : Pending (Unit {0}) → Option HealthStatus
  check none = none
  check (some (at, r)) =
      let database = check_database (at, r) in
      some (record {
        status = elim database.status [ up ↦ ok | DependencyState.down ↦ degraded ];
        service = codes "a2a-agent-layer";
        version = get_or (env (codes "npm_package_version")) (codes "0.1.0");
        timestamp = clock at;
        uptime = (clock at - start_time) / 1000;
        database = database;
      })

unfoldable pub readiness : Pending (Unit {0}) → Option Bool
readiness none = none
readiness (some (at, resolved u)) = some true
readiness (some (at, rejected e)) = some false
