-- ===== src/Policy/Evaluator/Tests.antt =====
-- Rule sets and requests.
use a2a_agent_layer.Common.{true, ◌≡◌, refl, some, none, [], ◌∷◌, codes}
use a2a_agent_layer.Policy.Wildcard.{match_wildcard}
use a2a_agent_layer.Policy.Evaluator.{
  allow, deny, AccessRule, PolicyEvaluationContext, PolicyRuleset, rule_applies, matches_any,
  evaluate_policy_access,
}
use a2a_agent_layer.Policy.Evaluator.Laws.{IsAllowed, evaluate_policy_access_iff}

abbrev pub invoke_rule : AccessRule
invoke_rule = record {
  effect = allow;
  subjects = codes "did:*" ∷ [];
  actions = some (codes "invoke" ∷ []);
  resources = none;
}

abbrev pub deny_rule : AccessRule
deny_rule = record {
  effect = deny;
  subjects = codes "did:x:9" ∷ [];
  actions = none;
  resources = none;
}

abbrev pub rules : PolicyRuleset
rules = record {
  allowlist = none;
  denylist = some (codes "did:y:*" ∷ []);
  access_rules = some (invoke_rule ∷ deny_rule ∷ []);
}

abbrev other_order : PolicyRuleset
other_order = record {
  allowlist = some [];
  denylist = some (codes "did:y:*" ∷ []);
  access_rules = some (deny_rule ∷ invoke_rule ∷ []);
}

abbrev pub request : PolicyEvaluationContext
request = record { subject = codes "did:x:1"; action = codes "invoke"; resource = codes "s" }

allowed : (evaluate_policy_access rules request).allowed ≡ true
unfolding evaluate_policy_access match_wildcard rule_applies matches_any
allowed = refl

evaluate_policy_access_iff_example : IsAllowed rules request
evaluate_policy_access_iff_example = (evaluate_policy_access_iff rules request).0 allowed
