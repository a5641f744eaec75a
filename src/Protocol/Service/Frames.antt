-- ===== src/Protocol/Service/Frames.antt =====
-- What each step of the handler leaves alone.
use a2a_agent_layer.Common.{
  ◌≡◌, refl, inl, inr, Bool-cases, Option, none, some, [], ◌∷◌, Text, text_eq, Outcome, ok, throw,
  proceed,
}
use a2a_agent_layer.Crypto.Canonical.{hash_canonical_request}
use a2a_agent_layer.Metering.{record_usage, create_signed_receipt}
use a2a_agent_layer.Policy.Service.{assert_allowed}
use a2a_agent_layer.Protocol.Service.{
  ProtocolDeps, A2aRequestDto, Readings, State, envelope_of, context_of, usage_metrics_of,
  usage_data_of, receipt_params, check_hash, check_nonce, check_policy, meter, issue_receipt,
}

proceed_keeps {ℓ} :
    {S A : Type 0} {B : Type ℓ} (m : Outcome A × S) (f : A → S → Outcome B × S)
    → ((a : A) (s : S) → (f a s).1 ≡ s)
    → (proceed m f).1 ≡ m.1
proceed_keeps (ok a, s) f h = h a s
proceed_keeps (throw e, s) f h = refl

module _ (deps : ProtocolDeps) (dto : A2aRequestDto) (r : Readings) (w : State deps) where
  open deps use {metering, sha256_hex, find_policies}

  -- Only the log may change.
  pub check_hash_frame :
      ((check_hash deps dto w).nonce_store ≡ w.nonce_store)
      × ((check_hash deps dto w).metrics ≡ w.metrics)
      × ((check_hash deps dto w).usage ≡ w.usage)
      × ((check_hash deps dto w).receipts ≡ w.receipts)
  unfolding check_hash
  check_hash_frame =
      elim (Bool-cases
        (text_eq dto.request_hash (hash_canonical_request sha256_hex (envelope_of dto)))) [
          | inl e ↦ rw e (refl, refl, refl, refl)
          | inr e ↦ rw e (refl, refl, refl, refl)
        ]

  pub meter_frame : (meter deps dto r w).1 ≡ record w {
    usage = (record_usage metering (usage_data_of dto (usage_metrics_of dto r)) w.usage).1;
  }
  unfolding meter
  meter_frame = proceed_keeps _ _ (λ a s. refl)

  pub issue_receipt_frame : (issue_receipt deps dto r w).1 ≡ record w {
    receipts =
        (create_signed_receipt metering (receipt_params deps dto r) r.receipt_nonce w.receipts).1;
  }
  unfolding issue_receipt
  issue_receipt_frame = proceed_keeps _ _ (λ a s. refl)

  pub check_policy_frame : check_policy deps dto w ≡ (
    (assert_allowed find_policies dto.agent_to_id (context_of dto) w.metrics).0,
    record w {
      metrics = (assert_allowed find_policies dto.agent_to_id (context_of dto) w.metrics).1;
    },
  )
  unfolding check_policy
  check_policy_frame = refl

module _ (deps : ProtocolDeps) (agent : Text) (r : Readings) (w : State deps) where
  pub check_nonce_frame :
      (nonce : Option Text)
      → (check_nonce deps agent nonce r w).1
        ≡ record w { nonce_store = (check_nonce deps agent nonce r w).1.nonce_store }
  unfolding check_nonce
  check_nonce_frame none = refl
  check_nonce_frame (some []) = refl
  check_nonce_frame (some (c ∷ nonce)) = refl
