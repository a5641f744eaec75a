-- ===== src/Observability/BusinessMetrics.antt =====
-- src/observability/business-metrics.service.ts. The counters and gauges belong to prom-client: the
-- state here is the list of increments made so far, latest last, and the gauges' last values.
pub mod Laws
use a2a_agent_layer.Common.{
  ℕ, zero, suc, ◌+◌, ◌-◌, ◌/◌, Bool, true, false, not, ◌&&◌, ◌||◌, Option, none, some, List, [],
  ◌∷◌, ◌++◌, leb, ◌==◌, if◌then◌else◌, Text, codes, to_lower, is_lower, is_digit,
}
use mathlib.Core.List.{reverse}

pub data PolicyDecision : Type 0 where
  allow deny : PolicyDecision

pub data RollupResult : Type 0 where
  success failure : RollupResult

pub record BusinessMetrics : Type 0 where
  pub policy_decisions : List (PolicyDecision × Text)
  pub rollup_runs : List RollupResult
  pub rollup_last_success : Option ℕ
  pub rollup_buckets : Option ℕ

-- The class `[a-z0-9]`.
abbrev pub is_slug_char : ℕ → Bool
is_slug_char c = is_lower c || is_digit c

-- `.toLowerCase().replace(/[^a-z0-9]+/g, '_')`: each run of other characters becomes one underscore.
-- The flag says whether the last character belonged to such a run.
underscore_runs : Bool → Text → Text
underscore_runs in_run [] = []
underscore_runs in_run (c ∷ s) =
    let other = underscore_runs true s in
    let slug = underscore_runs false s in
    if is_slug_char (to_lower c) then to_lower c ∷ slug else if in_run then other else b'_' ∷ other

-- `.replace(/^_+/, '')`
drop_underscores : Text → Text
drop_underscores [] = []
drop_underscores (c ∷ s) = if c == b'_' then drop_underscores s else c ∷ s

-- `.replace(/^_+|_+$/g, '')`
trim_underscores : Text → Text
trim_underscores s = reverse (drop_underscores (reverse (drop_underscores s)))

-- `slice(0, n)`
slice_to : ℕ → Text → Text
slice_to zero s = []
slice_to (suc n) [] = []
slice_to (suc n) (c ∷ s) = c ∷ slice_to n s

-- `slug || 'unspecified'`
abbrev or_unspecified : Text → Text
or_unspecified [] = codes "unspecified"
or_unspecified (c ∷ s) = c ∷ s

unfoldable pub reason_label : Text → Text
unfolding underscore_runs drop_underscores trim_underscores slice_to
reason_label reason = or_unspecified (slice_to 48 (trim_underscores (underscore_runs false reason)))

unfoldable pub record_policy_decision : PolicyDecision → Text → BusinessMetrics → BusinessMetrics
record_policy_decision decision reason m = record m {
  policy_decisions = m.policy_decisions ++ (decision, reason_label reason) ∷ [];
}

-- `now` is the time in milliseconds.
unfoldable pub record_rollup_run : RollupResult → ℕ → ℕ → BusinessMetrics → BusinessMetrics
record_rollup_run success buckets now m = record m {
  rollup_runs = m.rollup_runs ++ success ∷ [];
  rollup_last_success = some (now / 1000);
  rollup_buckets = some buckets;
}
record_rollup_run failure buckets now m = record m { rollup_runs = m.rollup_runs ++ failure ∷ [] }
