-- ===== src/Protocol/Service/Tests.antt =====
-- A request that is answered, its replay, and one that a policy denies.
use a2a_agent_layer.Common.{
  ℕ, false, ◌≡◌, ◌≢◌, refl, none, some, [], ◌∷◌, all, filter, text_eq, codes, get, has, ok, throw,
  conflict, show_ℕ, arith,
}
use a2a_agent_layer.Common.Json.{obj, end, field, str}
use a2a_agent_layer.Crypto.Canonical.{hash_canonical_request}
use a2a_agent_layer.Policy.Wildcard.{match_wildcard}
use a2a_agent_layer.Policy.Evaluator.{matches_any, rule_applies, evaluate_policy_access}
use a2a_agent_layer.Policy.Service.{is_active_of, assert_allowed}
use a2a_agent_layer.Policy.Service.Laws.{allows}
use a2a_agent_layer.Policy.Service.Tests.{
  callee, table, query, no_metrics, found, query_found, found_rows,
}
use a2a_agent_layer.Metering.{receipt_of, record_usage, create_signed_receipt}
use a2a_agent_layer.Metering.Samples.{
  sample_deps, receipt_row, usage_repo-IsRepository, receipt_repo-IsRepository,
}
use a2a_agent_layer.Protocol.NonceStore.{evict_expired, assert_fresh, tick, run}
use a2a_agent_layer.Protocol.NonceStore.Tests.{alice, nonce, empty_store}
use a2a_agent_layer.Protocol.Service.{
  ProtocolDeps, A2aRequestDto, A2aResponse, Readings, State, context_of, check_hash, check_nonce,
  check_policy, meter, issue_receipt, handle_request, receipt_params, response_of,
}
use a2a_agent_layer.Protocol.Service.Replay.{handle_request_no_replay}
use a2a_agent_layer.Protocol.Service.Authority.{handle_request_denied}
use a2a_agent_layer.Protocol.Service.Billing.{IsBilled, handle_request-IsBilled}
use a2a_agent_layer.Protocol.Service.Unchecked.{forged, handle_request_unchecked}

abbrev deps : ProtocolDeps
deps = record {
  metering = record sample_deps { sign_message = λ s. ok (codes "signed") };
  sha256_hex = λ s. codes "digest";
  hash_data = λ s. codes "hash";
  price_text = show_ℕ;
  find_policies = query;
}

abbrev dto : A2aRequestDto
dto = record {
  agent_from_id = alice;
  agent_to_id = callee;
  session_id = codes "s";
  request_payload = obj (field (codes "q") (str (codes "x")) end);
  request_hash = codes "digest";
  max_budget = codes "5";
  policy_digest = none;
  nonce = some nonce;
  signature = codes "sig";
}

abbrev reading : ℕ → Readings
reading now = record {
  now = now;
  stamp = now;
  elapsed_ms = 0;
  timestamp = codes "t";
  receipt_nonce = codes "rn";
}

abbrev start : State deps
start = record {
  nonce_store = empty_store;
  metrics = no_metrics;
  usage = [];
  receipts = [];
  warnings = [];
}

abbrev answer : A2aResponse
answer =
    response_of (codes "s") (codes "hash")
      (receipt_row (receipt_of (receipt_params deps dto (reading 5)) (codes "rn") (codes "signed")))

answered : (handle_request deps dto (reading 5) start).0 ≡ ok answer
unfolding handle_request check_hash check_nonce check_policy meter issue_receipt assert_fresh
    assert_allowed record_usage create_signed_receipt evict_expired has get evaluate_policy_access
    rule_applies matches_any match_wildcard text_eq hash_canonical_request
answered = refl

-- What the state is when the replay arrives.
abbrev later : State deps
later = record start {
  nonce_store = run (tick 700 ∷ []) (handle_request deps dto (reading 5) start).1.nonce_store;
}

abbrev replay : A2aRequestDto
replay = record dto { session_id = codes "s2" }

handle_request_no_replay_example :
    ((handle_request deps replay (reading 1000) later).0
      ≡ throw (conflict (codes "Request nonce already used within replay window")))
    × ((handle_request deps replay (reading 1000) later).1.metrics ≡ no_metrics)
    × ((handle_request deps replay (reading 1000) later).1.usage ≡ [])
    × ((handle_request deps replay (reading 1000) later).1.receipts ≡ [])
handle_request_no_replay_example =
    handle_request_no_replay deps dto replay (reading 5) (reading 1000) start later answer b'n'
      (codes "1") (tick 700 ∷ []) refl refl refl answered refl (omega arith, tt) (omega arith)

-- A sender on the policy's denylist.
abbrev stranger : A2aRequestDto
stranger = record dto { agent_from_id = codes "did:y:1" }

denied : all (allows (context_of stranger)) (filter (is_active_of callee) table) ≡ false
unfolding evaluate_policy_access match_wildcard text_eq
denied = refl

handle_request_denied_example :
    ((answer : A2aResponse) → (handle_request deps stranger (reading 5) start).0 ≢ ok answer)
    × ((handle_request deps stranger (reading 5) start).1.usage ≡ [])
    × ((handle_request deps stranger (reading 5) start).1.receipts ≡ [])
handle_request_denied_example =
    handle_request_denied deps stranger (reading 5) start table found query_found found_rows denied

handle_request-IsBilled_example : IsBilled deps dto (reading 5) start (λ s. s) answer
handle_request-IsBilled_example =
    handle_request-IsBilled deps dto (reading 5) start (λ s. s) usage_repo-IsRepository
      receipt_repo-IsRepository answer answered

handle_request_unchecked_example :
    ((handle_request deps (forged dto [] []) (reading 5) start).0
      ≡ (handle_request deps dto (reading 5) start).0)
    × (record (handle_request deps (forged dto [] []) (reading 5) start).1 { warnings = [] }
        ≡ record (handle_request deps dto (reading 5) start).1 { warnings = [] })
handle_request_unchecked_example = handle_request_unchecked deps dto [] [] (reading 5) start
