-- ===== src/Protocol/Service/Authority.antt =====
-- Only a request that the callee's policies allow is answered or metered.
use mathlib.Core.List.{Permᴰ}
use a2a_agent_layer.Common.{
  true, false, ◌≡◌, ◌≢◌, ◌↔◌, ◌∙◌, ap, inl, inr, List, all, filter, Outcome-cases, ok, throw,
  Exception, proceed_value, proceed_throw,
}
use a2a_agent_layer.Policy.Service.{Policy, is_active_of}
use a2a_agent_layer.Policy.Service.Laws.{allows, assert_allowed-Decided}
use a2a_agent_layer.Protocol.Service.{
  ProtocolDeps, A2aRequestDto, A2aResponse, Readings, State, context_of, check_hash, check_nonce,
  check_policy, handle_request,
}
use a2a_agent_layer.Protocol.Service.Steps.{after_nonce, after_policy}
use a2a_agent_layer.Protocol.Service.Frames.{
  check_hash_frame, check_policy_frame, check_nonce_frame,
}

module _ (deps : ProtocolDeps) (dto : A2aRequestDto) (r : Readings) (w : State deps) where
  open deps use {find_policies}

  -- The nonce check leaves the tables alone.
  after_nonce_frame :
      ((after_nonce deps dto r w).usage ≡ w.usage)
      × ((after_nonce deps dto r w).receipts ≡ w.receipts)
  after_nonce_frame =
      let (_, _, u, t) = check_hash_frame deps dto r w in
      let kept = check_nonce_frame deps dto.agent_from_id r (check_hash deps dto w) dto.nonce in
      (ap (λ s. s.usage) kept ∙ u, ap (λ s. s.receipts) kept ∙ t)

  -- A request that fails at the nonce or at the policies changes no table.
  stopped :
      (e : Exception)
      → (check_policy deps dto (after_nonce deps dto r w)).0 ≡ throw e
      → ((answer : A2aResponse) → (handle_request deps dto r w).0 ≢ ok answer)
        × ((handle_request deps dto r w).1.usage ≡ w.usage)
        × ((handle_request deps dto r w).1.receipts ≡ w.receipts)
  unfolding handle_request
  stopped e denied =
      let (u, t) = after_nonce_frame in
      elim (Outcome-cases
        (check_nonce deps dto.agent_from_id dto.nonce r (check_hash deps dto w)).0) [
          | inl (a, fresh) ↦
              let stop : handle_request deps dto r w ≡ (throw e, after_policy deps dto r w) =
                proceed_value _ _ a fresh ∙ proceed_throw _ _ e denied in
              let state =
                ap (λ x. x.1) stop
                ∙ ap (λ x. x.1) (check_policy_frame deps dto r (after_nonce deps dto r w)) in
              (
                λ answer h. cc (ap (λ x. x.0) stop, h),
                ap (λ s. s.usage) state ∙ u,
                ap (λ s. s.receipts) state ∙ t,
              )
          | inr (x, stale) ↦
              let stop : handle_request deps dto r w ≡ (throw x, after_nonce deps dto r w) =
                proceed_throw _ _ x stale in
              let state = ap (λ y. y.1) stop in
              (
                λ answer h. cc (ap (λ y. y.0) stop, h),
                ap (λ s. s.usage) state ∙ u,
                ap (λ s. s.receipts) state ∙ t,
              )
        ]

  module _ (rows found : List Policy) (e : find_policies (is_active_of dto.agent_to_id) ≡ ok found)
      (d : Permᴰ found (filter (is_active_of dto.agent_to_id) rows)) where
    decision :
        ((check_policy deps dto (after_nonce deps dto r w)).0 ≡ ok tt)
        ↔ (all (allows (context_of dto)) (filter (is_active_of dto.agent_to_id) rows) ≡ true)
    decision =
        rw (check_policy_frame deps dto r (after_nonce deps dto r w))
          (assert_allowed-Decided (context_of dto) (after_nonce deps dto r w).metrics find_policies
            rows found dto.agent_to_id e d).1

    -- Let the database answer with the callee's active policies, in some order. If one of them denies
    -- the request, the request is not answered, and no usage record and no receipt is written.
    pub handle_request_denied :
        all (allows (context_of dto)) (filter (is_active_of dto.agent_to_id) rows) ≡ false
        → ((answer : A2aResponse) → (handle_request deps dto r w).0 ≢ ok answer)
          × ((handle_request deps dto r w).1.usage ≡ w.usage)
          × ((handle_request deps dto r w).1.receipts ≡ w.receipts)
    handle_request_denied denied =
        elim (Outcome-cases (check_policy deps dto (after_nonce deps dto r w)).0) [
          | inl (a, allowed) ↦ absurd (cc (decision.0 allowed, denied))
          | inr (x, refused) ↦ stopped x refused
        ]
