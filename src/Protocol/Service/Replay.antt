-- ===== src/Protocol/Service/Replay.antt =====
-- An answered request cannot be replayed within the window.
use a2a_agent_layer.Common.{
  ℕ, ◌+◌, ◌≤◌, ◌≡◌, refl, sym, ◌∙◌, ap, ap₂, some, List, ◌∷◌, All, Text, codes, ok, throw, conflict,
  proceed_throw,
}
use a2a_agent_layer.Protocol.NonceStore.{assert_fresh, Event, run}
use a2a_agent_layer.Protocol.NonceStore.Replay.{clock, assert_fresh_no_replay}
use a2a_agent_layer.Protocol.Service.{
  ProtocolDeps, A2aRequestDto, A2aResponse, Readings, State, check_hash, check_nonce,
  handle_request,
}
use a2a_agent_layer.Protocol.Service.Steps.{
  after_nonce, after_policy, after_meter, handle_request-IsAnswered,
}
use a2a_agent_layer.Protocol.Service.Frames.{
  check_hash_frame, meter_frame, issue_receipt_frame, check_policy_frame,
}

module _ (deps : ProtocolDeps) where
  check_nonce_lem :
      (agent : Text) (c : ℕ) (nonce : Text) (r : Readings) (w : State deps)
      → check_nonce deps agent (some (c ∷ nonce)) r w ≡ (
        (assert_fresh r.now r.stamp agent (c ∷ nonce) w.nonce_store).0,
        record w { nonce_store = (assert_fresh r.now r.stamp agent (c ∷ nonce) w.nonce_store).1 },
      )
  unfolding check_nonce
  check_nonce_lem agent c nonce r w = refl

  -- The nonce store that an answered request leaves.
  final_store :
      (dto : A2aRequestDto) (r : Readings) (w : State deps) (answer : A2aResponse)
      → (handle_request deps dto r w).0 ≡ ok answer
      → (handle_request deps dto r w).1.nonce_store ≡ (after_nonce deps dto r w).nonce_store
  final_store dto r w answer e =
      let a = handle_request-IsAnswered deps dto r w answer e in
      ap (λ x. x.1.nonce_store) a.final
      ∙ ap (λ s. s.nonce_store) (issue_receipt_frame deps dto r (after_meter deps dto r w))
      ∙ ap (λ s. s.nonce_store) (meter_frame deps dto r (after_policy deps dto r w))
      ∙ ap (λ x. x.1.nonce_store) (check_policy_frame deps dto r (after_nonce deps dto r w))

  module _ (dto : A2aRequestDto) (r : Readings) (w : State deps) (c : ℕ) (nonce : Text)
      (given : dto.nonce ≡ some (c ∷ nonce)) where
    -- The nonce check of a request, as a call of the store.
    nonce_call : check_nonce deps dto.agent_from_id dto.nonce r (check_hash deps dto w) ≡ (
      (assert_fresh r.now r.stamp dto.agent_from_id (c ∷ nonce) w.nonce_store).0,
      record (check_hash deps dto w) {
        nonce_store = (assert_fresh r.now r.stamp dto.agent_from_id (c ∷ nonce) w.nonce_store).1;
      },
    )
    nonce_call =
        ap (λ o. check_nonce deps dto.agent_from_id o r (check_hash deps dto w)) given
        ∙ check_nonce_lem dto.agent_from_id c nonce r (check_hash deps dto w)
        ∙ ap
            (λ s. (
              (assert_fresh r.now r.stamp dto.agent_from_id (c ∷ nonce) s).0,
              record (check_hash deps dto w) {
                nonce_store = (assert_fresh r.now r.stamp dto.agent_from_id (c ∷ nonce) s).1;
              },
            ))
            (check_hash_frame deps dto r w).0

    -- A nonce that the store rejects ends the request, and nothing is evaluated or metered.
    rejected :
        (assert_fresh r.now r.stamp dto.agent_from_id (c ∷ nonce) w.nonce_store).0
          ≡ throw (conflict (codes "Request nonce already used within replay window"))
        → ((handle_request deps dto r w).0
            ≡ throw (conflict (codes "Request nonce already used within replay window")))
          × ((handle_request deps dto r w).1.metrics ≡ w.metrics)
          × ((handle_request deps dto r w).1.usage ≡ w.usage)
          × ((handle_request deps dto r w).1.receipts ≡ w.receipts)
    unfolding handle_request
    rejected e =
        let (_, m, u, t) = check_hash_frame deps dto r w in
        let stop = proceed_throw _ _ _ (ap (λ x. x.0) nonce_call ∙ e) in
        let state = ap (λ x. x.1) stop ∙ ap (λ x. x.1) nonce_call in
        (
          ap (λ x. x.0) stop,
          ap (λ s. s.metrics) state ∙ m,
          ap (λ s. s.usage) state ∙ u,
          ap (λ s. s.receipts) state ∙ t,
        )

  -- After a request with a nonce was answered, a second request of the same sender with the same
  -- nonce, whatever else it holds, is rejected with a conflict if it arrives within the window and the
  -- store saw no other events than calls, ticks, readings and the module's end within that window. The
  -- second request reaches no policy decision and adds no usage record and no receipt.
  pub handle_request_no_replay :
      (dto dto' : A2aRequestDto) (r r' : Readings) (w w' : State deps) (answer : A2aResponse)
      (c : ℕ) (nonce : Text) (events : List Event)
      → dto.nonce ≡ some (c ∷ nonce)
      → dto'.nonce ≡ some (c ∷ nonce)
      → dto'.agent_from_id ≡ dto.agent_from_id
      → (handle_request deps dto r w).0 ≡ ok answer
      → w'.nonce_store ≡ run events (handle_request deps dto r w).1.nonce_store
      → All (λ e. clock e ≤ r.stamp + w.nonce_store.window_ms) events
      → r'.now ≤ r.stamp + w.nonce_store.window_ms
      → ((handle_request deps dto' r' w').0
          ≡ throw (conflict (codes "Request nonce already used within replay window")))
        × ((handle_request deps dto' r' w').1.metrics ≡ w'.metrics)
        × ((handle_request deps dto' r' w').1.usage ≡ w'.usage)
        × ((handle_request deps dto' r' w').1.receipts ≡ w'.receipts)
  handle_request_no_replay dto dto' r r' w w' answer c nonce events given given' sender e store le
        le' =
      let a = handle_request-IsAnswered deps dto r w answer e in
      let call = nonce_call dto r w c nonce given in
      let accepted = sym (ap (λ x. x.0) call) ∙ a.fresh in
      let left = final_store dto r w answer e ∙ ap (λ x. x.1.nonce_store) call in
      let refused =
        assert_fresh_no_replay r.now r.stamp dto.agent_from_id (c ∷ nonce) w.nonce_store events
          r'.now r'.stamp accepted le le' in
      rejected dto' r' w' c nonce given' (
        ap₂ (λ s agent. (assert_fresh r'.now r'.stamp agent (c ∷ nonce) s).0)
          (store ∙ ap (run events) left) sender
        ∙ refused)
