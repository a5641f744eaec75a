-- ===== src/Policy/Service.antt =====
-- `PolicyEvaluatorService.assertAllowed` of src/modules/policy/policy-evaluator.service.ts, over the
-- policies that the database returns, and the row type of src/modules/policy/entities/policy.entity.ts.
pub mod Laws
pub mod Tests
use a2a_agent_layer.Common.{
  ℕ, Bool, ◌&&◌, Option, List, [], ◌∷◌, ◌++◌, if◌then◌else◌, Text, codes, text_eq, Outcome, ok,
  throw, Exception, forbidden,
}
use a2a_agent_layer.Policy.Evaluator.{
  PolicyEvaluationContext, PolicyRuleset, Access, evaluate_policy_access,
}
use a2a_agent_layer.Observability.BusinessMetrics.{
  BusinessMetrics, PolicyDecision, record_policy_decision,
}

-- The column `rules`: the rule set that is evaluated, and three settings that nothing reads.
pub record PolicyRules : Type 0 where
  pub access : PolicyRuleset
  pub max_spend_per_hour : Option ℕ
  pub require_verification : Option Bool
  pub max_latency_ms : Option ℕ

pub record Policy : Type 0 where
  pub id : Text
  pub agent_id : Text
  pub name : Text
  pub rules : PolicyRules
  pub signature : Option Text
  pub is_active : Bool

-- `where: { agentId, isActive: true }`
abbrev pub is_active_of : Text → Policy → Bool
is_active_of agent_id policy = text_eq policy.agent_id agent_id && policy.is_active

-- The loop over the policies, with `allowReason`.
unfoldable pub check_policies :
    PolicyEvaluationContext
    → List Policy
    → Text
    → BusinessMetrics
    → Outcome (Unit {0}) × BusinessMetrics
check_policies ctx [] allow_reason metrics =
    (ok tt, record_policy_decision PolicyDecision.allow allow_reason metrics)
check_policies ctx (policy ∷ policies) allow_reason metrics =
    let result = evaluate_policy_access policy.rules.access ctx in
    let rest = check_policies ctx policies result.reason metrics in
    if result.allowed then rest else (
      throw (forbidden (codes "Policy denied: " ++ result.reason)),
      record_policy_decision PolicyDecision.deny result.reason metrics,
    )

-- The answer to the policies that the query returned.
unfoldable pub decide_policies :
    PolicyEvaluationContext → List Policy → BusinessMetrics → Outcome (Unit {0}) × BusinessMetrics
decide_policies ctx [] metrics =
    (ok tt, record_policy_decision PolicyDecision.allow (codes "no active policy") metrics)
decide_policies ctx (policy ∷ policies) metrics =
    check_policies ctx (policy ∷ policies) (codes "allowed") metrics

-- `find` is the repository's query: the rows that meet a condition, or an exception.
unfoldable pub assert_allowed :
    ((Policy → Bool) → Outcome (List Policy))
    → Text
    → PolicyEvaluationContext
    → BusinessMetrics
    → Outcome (Unit {0}) × BusinessMetrics
unfolding check_policies decide_policies
assert_allowed find agent_id ctx metrics = elim (find (is_active_of agent_id)) [
  | throw e ↦ (throw e, metrics)
  | ok policies ↦ decide_policies ctx policies metrics
]
