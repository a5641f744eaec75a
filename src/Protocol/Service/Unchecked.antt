-- ===== src/Protocol/Service/Unchecked.antt =====
-- The request's own hash and signature play no part in its handling.
use a2a_agent_layer.Common.{
  ◌≡◌, refl, sym, ◌∙◌, ap, inl, inr, Bool-cases, List, Option, none, some, [], ◌∷◌, ◌++◌, codes,
  Text, text_eq, Outcome, ok, throw, proceed, Action,
}
use a2a_agent_layer.Crypto.Canonical.{hash_canonical_request}
use a2a_agent_layer.Crypto.Canonical.Stringify.{stringify}
use a2a_agent_layer.Metering.{UsageRecord, Receipt, record_usage, create_signed_receipt}
use a2a_agent_layer.Protocol.Service.{
  usage_data_of, usage_metrics_of, receipt_params, response_of, result_payload, ProtocolDeps,
  A2aRequestDto, A2aResponse, Readings, State, envelope_of, check_hash, check_nonce, check_policy,
  meter, issue_receipt, handle_request,
}

module _ (deps : ProtocolDeps) (log : List Text) where
  open deps use {metering, hash_data}

  -- The same outcome and state under another log.
  abbrev relog {ℓ} : {A : Type ℓ} → Outcome A × State deps → Outcome A × State deps
  relog x = (x.0, record x.1 { warnings = log })

  proceed-relog {ℓ} :
      {A : Type 0} {B : Type ℓ} (x : Outcome A × State deps)
      (f : A → State deps → Outcome B × State deps)
      → ((a : A) (s : State deps) → f a (record s { warnings = log }) ≡ relog (f a s))
      → proceed (relog x) f ≡ relog (proceed x f)
  proceed-relog (ok a, s) f h = h a s
  proceed-relog (throw e, s) f h = refl

  module _ (dto : A2aRequestDto) (r : Readings) (w : State deps) where
    check_policy-relog :
        check_policy deps dto (record w { warnings = log }) ≡ relog (check_policy deps dto w)
    unfolding check_policy
    check_policy-relog = refl

    meter-relog : meter deps dto r (record w { warnings = log }) ≡ relog (meter deps dto r w)
    unfolding meter
    meter-relog =
        let usage = usage_data_of dto (usage_metrics_of dto r) in
        proceed-relog {A = UsageRecord}
          (
            (record_usage metering usage w.usage).0,
            record w { usage = (record_usage metering usage w.usage).1 },
          )
          (λ row s. (ok tt, s)) (λ a s. refl)

    issue_receipt-relog :
        issue_receipt deps dto r (record w { warnings = log }) ≡ relog (issue_receipt deps dto r w)
    unfolding issue_receipt
    issue_receipt-relog =
        let call =
          create_signed_receipt metering (receipt_params deps dto r) r.receipt_nonce w.receipts in
        proceed-relog {A = Receipt} (call.0, record w { receipts = call.1 })
          (λ receipt s. (
            ok (
                response_of dto.session_id (hash_data (stringify (result_payload dto r.timestamp)))
                  receipt),
            s,
          ))
          (λ a s. refl)

  check_nonce-relog :
      (agent : Text) (nonce : Option Text) (r : Readings) (w : State deps)
      → check_nonce deps agent nonce r (record w { warnings = log })
        ≡ relog (check_nonce deps agent nonce r w)
  unfolding check_nonce
  check_nonce-relog agent none r w = refl
  check_nonce-relog agent (some []) r w = refl
  check_nonce-relog agent (some (c ∷ nonce)) r w = refl

-- The handler behind the comparison of the hashes, from its last step to its first.
module _ (deps : ProtocolDeps) (dto : A2aRequestDto) (r : Readings) where
  abbrev receipt_step : Unit {0} → Action (State deps) A2aResponse
  receipt_step _ w = issue_receipt deps dto r w

  abbrev meter_step : Unit {0} → Action (State deps) A2aResponse
  meter_step _ w = proceed (meter deps dto r w) receipt_step

  abbrev policy_step : Unit {0} → Action (State deps) A2aResponse
  policy_step _ w = proceed (check_policy deps dto w) meter_step

  abbrev process : Action (State deps) A2aResponse
  process w = proceed (check_nonce deps dto.agent_from_id dto.nonce r w) policy_step

  process-relog :
      (log : List Text) (w : State deps)
      → process (record w { warnings = log }) ≡ relog deps log (process w)
  process-relog log w = rw (check_nonce-relog deps log dto.agent_from_id dto.nonce r w) (
      proceed-relog deps log (check_nonce deps dto.agent_from_id dto.nonce r w) policy_step
        policies)
    where
      receipts :
          (a : Unit {0}) (s : State deps)
          → receipt_step a (record s { warnings = log }) ≡ relog deps log (receipt_step a s)
      receipts a s = issue_receipt-relog deps log dto r s

      meters :
          (a : Unit {0}) (s : State deps)
          → meter_step a (record s { warnings = log }) ≡ relog deps log (meter_step a s)
      meters a s =
          rw (meter-relog deps log dto r s)
            (proceed-relog deps log (meter deps dto r s) receipt_step receipts)

      policies :
          (a : Unit {0}) (s : State deps)
          → policy_step a (record s { warnings = log }) ≡ relog deps log (policy_step a s)
      policies a s =
          rw (check_policy-relog deps log dto r s)
            (proceed-relog deps log (check_policy deps dto s) meter_step meters)

check_hash_log :
    (deps : ProtocolDeps) (dto : A2aRequestDto) (w : State deps)
    → (log : List Text) × (check_hash deps dto w ≡ record w { warnings = log })
unfolding check_hash
check_hash_log deps dto w =
    elim (Bool-cases
      (text_eq dto.request_hash (hash_canonical_request deps.sha256_hex (envelope_of dto)))) [
        | inl e ↦ (w.warnings, rw e)
        | inr e ↦ (w.warnings ++ (codes "Hash mismatch for session " ++ dto.session_id) ∷ [], rw e)
      ]

abbrev pub forged : A2aRequestDto → Text → Text → A2aRequestDto
forged dto hash signature = record dto { request_hash = hash; signature = signature }

process-forged :
    (deps : ProtocolDeps) (dto : A2aRequestDto) (hash signature : Text) (r : Readings)
    (w : State deps)
    → process deps (forged dto hash signature) r w ≡ process deps dto r w
unfolding check_policy meter issue_receipt usage_metrics_of result_payload
process-forged deps dto hash signature r w = refl

handle_request_log :
    (deps : ProtocolDeps) (dto : A2aRequestDto) (r : Readings) (w : State deps)
    → (log : List Text) × (handle_request deps dto r w ≡ relog deps log (process deps dto r w))
unfolding handle_request
handle_request_log deps dto r w =
    let (log, e) = check_hash_log deps dto w in
    (log, ap (process deps dto r) e ∙ process-relog deps dto r log w)

-- With any other hash and any other signature a request has the same outcome and leaves the same
-- nonces, metrics and tables; only the log may differ.
pub handle_request_unchecked :
    (deps : ProtocolDeps) (dto : A2aRequestDto) (hash signature : Text) (r : Readings)
    (w : State deps)
    → ((handle_request deps (forged dto hash signature) r w).0 ≡ (handle_request deps dto r w).0)
      × (record (handle_request deps (forged dto hash signature) r w).1 { warnings = [] }
          ≡ record (handle_request deps dto r w).1 { warnings = [] })
handle_request_unchecked deps dto hash signature r w =
    let (log, e) = handle_request_log deps dto r w in
    let (log', e') = handle_request_log deps (forged dto hash signature) r w in
    let same = process-forged deps dto hash signature r w in
    (
      ap (λ x. x.0) e' ∙ ap (λ x. x.0) same ∙ sym (ap (λ x. x.0) e),
      ap (λ x. record x.1 { warnings = [] }) e'
          ∙ ap (λ x. record x.1 { warnings = [] }) same
          ∙ sym (ap (λ x. record x.1 { warnings = [] }) e),
    )
