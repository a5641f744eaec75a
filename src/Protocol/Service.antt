-- ===== src/Protocol/Service.antt =====
-- `ProtocolService.handleRequest` of src/modules/protocol/protocol.service.ts.
pub mod Steps
pub mod Frames
pub mod Replay
pub mod Authority
pub mod Billing
pub mod Unchecked
pub mod Tests
use a2a_agent_layer.Common.{
  ℕ, ◌+◌, ◌/◌, Bool, Option, none, some, List, [], ◌∷◌, ◌++◌, if◌then◌else◌, length, get_or, Text,
  codes, text_eq, show_ℕ, Outcome, ok, throw, Action, proceed,
}
use a2a_agent_layer.Common.Json.{Json, num, str, obj, end, field}
use a2a_agent_layer.Crypto.Canonical.{SignedRequestEnvelope, hash_canonical_request}
use a2a_agent_layer.Crypto.Canonical.Stringify.{stringify}
use a2a_agent_layer.Policy.Evaluator.{PolicyEvaluationContext}
use a2a_agent_layer.Policy.Service.{Policy, assert_allowed}
use a2a_agent_layer.Observability.BusinessMetrics.{BusinessMetrics}
use a2a_agent_layer.Metering.{
  UsageData, Receipt, MeteringDeps, ReceiptParams, record_usage, create_signed_receipt,
}
use a2a_agent_layer.Protocol.NonceStore.{NonceStore, assert_fresh}

-- src/modules/protocol/dto/a2a-request.dto.ts; `max_budget` is a number's text.
pub record A2aRequestDto : Type 0 where
  pub agent_from_id : Text
  pub agent_to_id : Text
  pub session_id : Text
  pub request_payload : Json
  pub request_hash : Text
  pub max_budget : Text
  pub policy_digest : Option Text
  pub nonce : Option Text
  pub signature : Text

pub record ReceiptView : Type 0 where
  pub id : Text
  pub session_id : Text
  pub request_hash : Text
  pub result_hash : Text
  pub usage_metrics : Json
  pub price_computed : Text
  pub nonce : Text
  pub signature : Text

pub record A2aResponse : Type 0 where
  pub status : Text
  pub session_id : Text
  pub result_hash : Text
  pub receipt : ReceiptView

-- What the handler calls of code that is not part of this one.
pub record ProtocolDeps : Type 1 where
  pub metering : MeteringDeps
  pub sha256_hex : Text → Text
  -- `blockchainService.hashData`
  pub hash_data : Text → Text
  -- `(tokens * 0.0001).toFixed(8)`, in floating point
  pub price_text : ℕ → Text
  -- `policyRepo.find`
  pub find_policies : (Policy → Bool) → Outcome (List Policy)

-- What one request reads of its environment: the clock in the nonce store (twice), the clock before
-- the result is built and what has passed after it, the printed time, and the receipt's random nonce.
pub record Readings : Type 0 where
  pub now : ℕ
  pub stamp : ℕ
  pub elapsed_ms : ℕ
  pub timestamp : Text
  pub receipt_nonce : Text

pub record World (UsageDb ReceiptDb : Type 0) : Type 0 where
  pub nonce_store : NonceStore
  pub metrics : BusinessMetrics
  pub usage : UsageDb
  pub receipts : ReceiptDb
  pub warnings : List Text

abbrev pub envelope_of : A2aRequestDto → SignedRequestEnvelope
envelope_of dto = record {
  agent_from_id = dto.agent_from_id;
  agent_to_id = dto.agent_to_id;
  session_id = dto.session_id;
  request_payload = dto.request_payload;
  max_budget = dto.max_budget;
  policy_digest = dto.policy_digest;
  nonce = dto.nonce;
}

abbrev pub context_of : A2aRequestDto → PolicyEvaluationContext
context_of dto = record {
  subject = dto.agent_from_id;
  action = codes "invoke";
  resource = dto.session_id;
}

unfoldable pub result_payload : A2aRequestDto → Text → Json
result_payload dto timestamp = obj (
    field (codes "agentFrom") (str dto.agent_to_id) (
      field (codes "agentTo") (str dto.agent_from_id) (
        field (codes "sessionId") (str dto.session_id) (
          field (codes "result") (str (codes "Processed request from " ++ dto.agent_from_id))
            (field (codes "timestamp") (str timestamp) end)))))

-- `Math.ceil(payloadStr.length / 4)`
unfoldable pub tokens_of : ℕ → ℕ
tokens_of n = (n + 3) / 4

pub record UsageMetrics : Type 0 where
  pub tokens_used : ℕ
  pub cpu_ms : ℕ
  pub bytes_in : ℕ
  pub bytes_out : ℕ
  pub tool_calls_count : ℕ

unfoldable pub usage_metrics_of : A2aRequestDto → Readings → UsageMetrics
usage_metrics_of dto r =
    let payload_length = length (stringify dto.request_payload) in
    record {
      tokens_used = tokens_of payload_length;
      cpu_ms = r.elapsed_ms;
      bytes_in = payload_length;
      bytes_out = length (stringify (result_payload dto r.timestamp));
      tool_calls_count = 1;
    }

abbrev pub metrics_json : UsageMetrics → Json
metrics_json m = obj (
    field (codes "tokensUsed") (num (show_ℕ m.tokens_used)) (
      field (codes "cpuMs") (num (show_ℕ m.cpu_ms)) (
        field (codes "bytesIn") (num (show_ℕ m.bytes_in)) (
          field (codes "bytesOut") (num (show_ℕ m.bytes_out))
            (field (codes "toolCallsCount") (num (show_ℕ m.tool_calls_count)) end)))))

abbrev pub usage_data_of : A2aRequestDto → UsageMetrics → UsageData
usage_data_of dto m = record {
  session_id = dto.session_id;
  agent_id = dto.agent_to_id;
  tokens_used = m.tokens_used;
  cpu_ms = m.cpu_ms;
  bytes_in = show_ℕ m.bytes_in;
  bytes_out = show_ℕ m.bytes_out;
  model_id = none;
  tool_calls_count = m.tool_calls_count;
}

abbrev pub response_of : Text → Text → Receipt → A2aResponse
response_of session_id result_hash receipt = record {
  status = codes "completed";
  session_id = session_id;
  result_hash = result_hash;
  receipt = record {
    id = receipt.id;
    session_id = receipt.columns.session_id;
    request_hash = receipt.columns.request_hash;
    result_hash = get_or receipt.columns.result_hash [];
    usage_metrics = receipt.columns.usage_metrics;
    price_computed = receipt.columns.price_computed;
    nonce = receipt.columns.nonce;
    signature = receipt.columns.signature;
  };
}

module _ (deps : ProtocolDeps) where
  open deps use {metering, sha256_hex, hash_data, price_text, find_policies}

  abbrev pub State : Type 0
  State = World metering.usage_repo.Db metering.receipt_repo.Db

  -- A hash that does not fit is logged, and the request goes on.
  unfoldable pub check_hash : A2aRequestDto → State → State
  check_hash dto w =
      if text_eq dto.request_hash (hash_canonical_request sha256_hex (envelope_of dto))
      then w
      else record w {
        warnings = w.warnings ++ (codes "Hash mismatch for session " ++ dto.session_id) ∷ [];
      }

  -- `if (dto.nonce) …`: an absent nonce and an empty one are not checked.
  unfoldable pub check_nonce : Text → Option Text → Readings → Action State (Unit {0})
  check_nonce agent none r w = (ok tt, w)
  check_nonce agent (some []) r w = (ok tt, w)
  check_nonce agent (some (c ∷ nonce)) r w =
      let (answer, store) = assert_fresh r.now r.stamp agent (c ∷ nonce) w.nonce_store in
      (answer, record w { nonce_store = store })

  unfoldable pub check_policy : A2aRequestDto → Action State (Unit {0})
  check_policy dto w =
      let (answer, metrics) =
        assert_allowed find_policies dto.agent_to_id (context_of dto) w.metrics in
      (answer, record w { metrics = metrics })

  abbrev pub receipt_params : A2aRequestDto → Readings → ReceiptParams
  receipt_params dto r =
      let m = usage_metrics_of dto r in
      record {
        session_id = dto.session_id;
        request_hash = hash_canonical_request sha256_hex (envelope_of dto);
        result_hash = some (hash_data (stringify (result_payload dto r.timestamp)));
        usage_metrics = metrics_json m;
        price_computed = price_text m.tokens_used;
      }

  unfoldable pub meter : A2aRequestDto → Readings → Action State (Unit {0})
  meter dto r w =
      let (answer, usage) =
        record_usage metering (usage_data_of dto (usage_metrics_of dto r)) w.usage in
      proceed (answer, record w { usage = usage }) (λ row w'. (ok tt, w'))

  unfoldable pub issue_receipt : A2aRequestDto → Readings → Action State A2aResponse
  issue_receipt dto r w =
      let (answer, receipts) =
        create_signed_receipt metering (receipt_params dto r) r.receipt_nonce w.receipts in
      proceed (answer, record w { receipts = receipts })
        (λ receipt w'. (
          ok (
              response_of dto.session_id (hash_data (stringify (result_payload dto r.timestamp)))
                receipt),
          w',
        ))

  unfoldable pub handle_request : A2aRequestDto → Readings → Action State A2aResponse
  handle_request dto r w =
      proceed (check_nonce dto.agent_from_id dto.nonce r (check_hash dto w)) (λ _ w₁.
        proceed (check_policy dto w₁)
          (λ _ w₂. proceed (meter dto r w₂) (λ _ w₃. issue_receipt dto r w₃)))
