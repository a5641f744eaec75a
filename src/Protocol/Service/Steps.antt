-- ===== src/Protocol/Service/Steps.antt =====
-- A request that is answered has passed each step of the handler in turn.
use a2a_agent_layer.Common.{◌≡◌, sym, ◌∙◌, ap, ok, proceed_ok}
use a2a_agent_layer.Protocol.Service.{
  ProtocolDeps, A2aRequestDto, A2aResponse, Readings, State, check_hash, check_nonce, check_policy,
  meter, issue_receipt, handle_request,
}

module _ (deps : ProtocolDeps) (dto : A2aRequestDto) (r : Readings) (w : State deps) where
  abbrev pub after_nonce : State deps
  after_nonce = (check_nonce deps dto.agent_from_id dto.nonce r (check_hash deps dto w)).1

  abbrev pub after_policy : State deps
  after_policy = (check_policy deps dto after_nonce).1

  abbrev pub after_meter : State deps
  after_meter = (meter deps dto r after_policy).1

  -- The steps returned, and the last one gave the answer.
  pub record IsAnswered (answer : A2aResponse) : Type 0 where
    pub fresh : (check_nonce deps dto.agent_from_id dto.nonce r (check_hash deps dto w)).0 ≡ ok tt
    pub allowed : (check_policy deps dto after_nonce).0 ≡ ok tt
    pub metered : (meter deps dto r after_policy).0 ≡ ok tt
    pub issued : (issue_receipt deps dto r after_meter).0 ≡ ok answer
    pub final : handle_request deps dto r w ≡ issue_receipt deps dto r after_meter

  pub handle_request-IsAnswered :
      (answer : A2aResponse) → (handle_request deps dto r w).0 ≡ ok answer → IsAnswered answer
  unfolding handle_request
  handle_request-IsAnswered answer e =
      let (_, fresh, e₁) = proceed_ok _ _ e in
      let (_, allowed, e₂) = proceed_ok _ _ (sym (ap (λ x. x.0) e₁) ∙ e) in
      let (_, metered, e₃) = proceed_ok _ _ (sym (ap (λ x. x.0) e₂) ∙ sym (ap (λ x. x.0) e₁) ∙ e) in
      let final = e₁ ∙ e₂ ∙ e₃ in
      record {
        fresh = fresh;
        allowed = allowed;
        metered = metered;
        issued = sym (ap (λ x. x.0) final) ∙ e;
        final = final;
      }
