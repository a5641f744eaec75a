-- ===== src/Policy/Service/Laws.antt =====
-- A request passes exactly if every active policy of the callee allows it, and each request counts
-- as one decision.
use mathlib.Core.List.{Permᴰ}
use a2a_agent_layer.Common.{
  Bool, true, false, ◌≡◌, ◌↔◌, refl, Option, some, List, [], ◌∷◌, ◌++◌, ◌∙◌, inl, inr, not,
  Bool-cases, find, all, filter, Text, codes, Outcome, ok, throw, forbidden, arith,
}
use a2a_agent_layer.Policy.Evaluator.{PolicyEvaluationContext, evaluate_policy_access}
use a2a_agent_layer.Observability.BusinessMetrics.{
  BusinessMetrics, PolicyDecision, reason_label, record_policy_decision,
}
use a2a_agent_layer.Policy.Service.{
  Policy, is_active_of, check_policies, decide_policies, assert_allowed,
}

abbrev pub allows : PolicyEvaluationContext → Policy → Bool
allows ctx policy = (evaluate_policy_access policy.rules.access ctx).allowed

all-perm {ℓ} : {A : Type ℓ} (p : A → Bool) {xs ys : List A} → Permᴰ xs ys → all p xs ≡ all p ys
all-perm p Permᴰ.nil = refl
all-perm p (Permᴰ.cons e d) = rw (e, all-perm p d)
all-perm p (Permᴰ.swap e f) = rw (e, f) (ground arith)
all-perm p (Permᴰ.trans d e) = all-perm p d ∙ all-perm p e

-- The first policy of the list that denies.
abbrev pub first_denial : PolicyEvaluationContext → List Policy → Option Policy
first_denial ctx = find (λ policy. not (allows ctx policy))

abbrev pub deny_reason : PolicyEvaluationContext → Policy → Text
deny_reason ctx policy = (evaluate_policy_access policy.rules.access ctx).reason

-- A run over these policies: it passes and counts one allowed decision, or it fails with the reason
-- of the first policy that denies and counts one denied decision with that reason.
pub data Decided (ctx : PolicyEvaluationContext) (policies : List Policy) (before : BusinessMetrics)
    (r : Outcome (Unit {0}) × BusinessMetrics) : Type 0 where
  passes :
      (reason : Text)
      → all (allows ctx) policies ≡ true
      → r.0 ≡ ok tt
      → r.1 ≡ record before {
        policy_decisions =
            before.policy_decisions ++ (PolicyDecision.allow, reason_label reason) ∷ [];
      }
      → Decided ctx policies before r
  denies :
      (policy : Policy)
      → all (allows ctx) policies ≡ false
      → first_denial ctx policies ≡ some policy
      → r.0 ≡ throw (forbidden (codes "Policy denied: " ++ deny_reason ctx policy))
      → r.1 ≡ record before {
        policy_decisions =
            before.policy_decisions
            ++ (PolicyDecision.deny, reason_label (deny_reason ctx policy)) ∷ [];
      }
      → Decided ctx policies before r

passes_iff :
    {ctx : PolicyEvaluationContext} {m : BusinessMetrics} {r : Outcome (Unit {0}) × BusinessMetrics}
    (policies : List Policy)
    → Decided ctx policies m r
    → (r.0 ≡ ok tt) ↔ (all (allows ctx) policies ≡ true)
passes_iff policies (passes reason a o k) = (λ e. a, λ e. o)
passes_iff policies (denies policy a f o k) = (λ e. cc, λ e. cc)

module _ (ctx : PolicyEvaluationContext) (m : BusinessMetrics) where
  check_policies-Decided :
      (policies : List Policy) (reason : Text)
      → Decided ctx policies m (check_policies ctx policies reason m)
  unfolding check_policies record_policy_decision
  check_policies-Decided [] reason = passes reason refl refl refl
  check_policies-Decided (p ∷ ps) reason = elim (Bool-cases (allows ctx p)) [
    | inl yes_ ↦ elim (check_policies-Decided ps (deny_reason ctx p)) [
      | passes r a o k ↦ passes r (rw (yes_, a)) (rw (yes_, o)) (rw (yes_, k))
      | denies q a f o k ↦ denies q (rw (yes_, a)) (rw (yes_, f)) (rw (yes_, o)) (rw (yes_, k))
    ]
    | inr no_ ↦ denies p (rw no_) (rw no_) (rw no_) (rw no_)
  ]

  decide_policies-Decided :
      (policies : List Policy) → Decided ctx policies m (decide_policies ctx policies m)
  unfolding decide_policies record_policy_decision
  decide_policies-Decided [] = passes (codes "no active policy") refl refl refl
  decide_policies-Decided (p ∷ ps) = check_policies-Decided (p ∷ ps) (codes "allowed")

  assert_allowed_found :
      (find_policies : (Policy → Bool) → Outcome (List Policy)) (found : List Policy)
      (agent_id : Text)
      → find_policies (is_active_of agent_id) ≡ ok found
      → assert_allowed find_policies agent_id ctx m ≡ decide_policies ctx found m
  unfolding assert_allowed
  assert_allowed_found find_policies found agent_id e = rw (e, assert_allowed)

  -- If the database answers with the active policies of the agent, in some order, the call passes
  -- exactly if each of them allows the request. It counts one decision. Where it fails, the exception
  -- and the count carry the reason of the first policy that denies, in the order of the answer.
  pub assert_allowed-Decided :
      (find_policies : (Policy → Bool) → Outcome (List Policy)) (rows found : List Policy)
      (agent_id : Text)
      → find_policies (is_active_of agent_id) ≡ ok found
      → Permᴰ found (filter (is_active_of agent_id) rows)
      → Decided ctx found m (assert_allowed find_policies agent_id ctx m)
        × (((assert_allowed find_policies agent_id ctx m).0 ≡ ok tt)
            ↔ (all (allows ctx) (filter (is_active_of agent_id) rows) ≡ true))
  assert_allowed-Decided find_policies rows found agent_id e d =
      rw (assert_allowed_found find_policies found agent_id e, ← all-perm (allows ctx) d)
        (decide_policies-Decided found, passes_iff found (decide_policies-Decided found))
