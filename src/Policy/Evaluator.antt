-- ===== src/Policy/Evaluator.antt =====
-- src/modules/policy/policy-evaluator.ts: access rules, and the decision over them.
pub mod Laws
pub mod Order
pub mod Tests
use a2a_agent_layer.Common.{
  ℕ, Bool, true, false, ◌||◌, ◌&&◌, not, Option, none, some, List, [], ltb, ◌==◌, if◌then◌else◌,
  is_some, length, any, filter, find, Text, codes,
}
use a2a_agent_layer.Policy.Wildcard.{match_wildcard}

pub data PolicyEffect : Type 0 where
  allow deny : PolicyEffect

-- `rule.effect === 'allow'`, and `=== 'deny'`.
abbrev pub is_allow : PolicyEffect → Bool
is_allow allow = true
is_allow deny = false

abbrev pub is_deny : PolicyEffect → Bool
is_deny allow = false
is_deny deny = true

pub record AccessRule : Type 0 where
  pub effect : PolicyEffect
  pub subjects : List Text
  pub actions : Option (List Text)
  pub resources : Option (List Text)

pub record PolicyEvaluationContext : Type 0 where
  pub subject : Text
  pub action : Text
  pub resource : Text

pub record PolicyRuleset : Type 0 where
  pub allowlist : Option (List Text)
  pub denylist : Option (List Text)
  pub access_rules : Option (List AccessRule)

pub record Access : Type 0 where
  pub allowed : Bool
  pub reason : Text

-- `!patterns || patterns.length === 0`, else `patterns.some(…)`.
unfoldable pub matches_any : Option (List Text) → Text → Bool
matches_any none value = true
matches_any (some patterns) value =
    if length patterns == 0 then true else any (λ pattern. match_wildcard pattern value) patterns

unfoldable pub rule_applies : AccessRule → PolicyEvaluationContext → Bool
rule_applies rule ctx =
    matches_any (some rule.subjects) ctx.subject
    && matches_any rule.actions ctx.action
    && matches_any rule.resources ctx.resource

-- `(list?.length ?? 0) > 0`
abbrev pub is_given {ℓ} : {A : Type ℓ} → Option (List A) → Bool
is_given none = false
is_given (some xs) = ltb 0 (length xs)

-- `list?.some((pattern) => matchWildcard(pattern, value))`, where `undefined` counts as false.
abbrev pub lists : Option (List Text) → Text → Bool
lists none value = false
lists (some patterns) value = any (λ pattern. match_wildcard pattern value) patterns

-- `list ?? []`
abbrev pub or_empty {ℓ} : {A : Type ℓ} → Option (List A) → List A
or_empty none = []
or_empty (some xs) = xs

unfoldable pub evaluate_policy_access : PolicyRuleset → PolicyEvaluationContext → Access
evaluate_policy_access rules ctx =
    let has_access_constraints =
      is_given rules.access_rules || is_given rules.allowlist || is_given rules.denylist in
    let matching = filter (λ rule. rule_applies rule ctx) (or_empty rules.access_rules) in
    let deny_match = find (λ (rule : AccessRule). is_deny rule.effect) matching in
    let allow_match = find (λ (rule : AccessRule). is_allow rule.effect) matching in
    if not has_access_constraints
    then record { allowed = true; reason = codes "no access constraints" }
    else if lists rules.denylist ctx.subject
    then record { allowed = false; reason = codes "subject on denylist" }
    else if is_some deny_match
    then record { allowed = false; reason = codes "matched deny access rule" }
    else if is_some allow_match
    then record { allowed = true; reason = codes "matched allow access rule" }
    else if lists rules.allowlist ctx.subject
    then record { allowed = true; reason = codes "subject on allowlist" }
    else record { allowed = false; reason = codes "no matching allow rule" }
