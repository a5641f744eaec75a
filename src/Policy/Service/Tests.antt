-- ===== src/Policy/Service/Tests.antt =====
-- A callee with one policy that allows and one that is not active.
use mathlib.Core.List.{Permᴰ}
use a2a_agent_layer.Common.{
  true, false, ◌≡◌, ◌↔◌, refl, none, Bool, List, [], ◌∷◌, all, filter, Text, codes, text_eq,
  Outcome, ok,
}
use a2a_agent_layer.Policy.Evaluator.Tests.{rules, request}
use a2a_agent_layer.Observability.BusinessMetrics.{BusinessMetrics}
use a2a_agent_layer.Policy.Service.{Policy, is_active_of, assert_allowed}
use a2a_agent_layer.Policy.Service.Laws.{allows, Decided, assert_allowed-Decided}

abbrev pub callee : Text
callee = codes "did:x:2"

abbrev policy : Bool → Policy
policy is_active = record {
  id = codes "p";
  agent_id = callee;
  name = codes "peers";
  rules = record {
    access = rules;
    max_spend_per_hour = none;
    require_verification = none;
    max_latency_ms = none;
  };
  signature = none;
  is_active = is_active;
}

abbrev pub table : List Policy
table = policy true ∷ policy false ∷ []

abbrev pub query : (Policy → Bool) → Outcome (List Policy)
query p = ok (filter p table)

abbrev pub no_metrics : BusinessMetrics
no_metrics = record {
  policy_decisions = [];
  rollup_runs = [];
  rollup_last_success = none;
  rollup_buckets = none;
}

abbrev pub found : List Policy
found = policy true ∷ []

pub query_found : query (is_active_of callee) ≡ ok found
unfolding text_eq
query_found = refl

pub found_rows : Permᴰ found (filter (is_active_of callee) table)
unfolding text_eq
found_rows = Permᴰ.cons refl Permᴰ.nil

assert_allowed-Decided_example :
    Decided request found no_metrics (assert_allowed query callee request no_metrics)
    × (((assert_allowed query callee request no_metrics).0 ≡ ok tt)
        ↔ (all (allows request) (filter (is_active_of callee) table) ≡ true))
assert_allowed-Decided_example =
    assert_allowed-Decided request no_metrics query table found callee query_found found_rows
