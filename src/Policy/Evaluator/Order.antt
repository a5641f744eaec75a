-- ===== src/Policy/Evaluator/Order.antt =====
-- The decision depends on which rules and patterns there are, and not on their order.
use mathlib.Core.List.{Permᴰ}
use a2a_agent_layer.Common.{
  suc, Bool, ◌&&◌, ◌≡◌, refl, ◌∙◌, ap, Option, none, some, List, length, ltb, any, Text, arith,
}
use a2a_agent_layer.Policy.Wildcard.{match_wildcard}
use a2a_agent_layer.Policy.Evaluator.{
  AccessRule, PolicyEvaluationContext, PolicyRuleset, is_given, lists, or_empty, is_deny, is_allow,
  rule_applies, evaluate_policy_access,
}
use a2a_agent_layer.Policy.Evaluator.Laws.{evaluate_policy_access_lem}

module _ {ℓ} {A : Type ℓ} where
  pub any-perm : (p : A → Bool) {xs ys : List A} → Permᴰ xs ys → any p xs ≡ any p ys
  any-perm p Permᴰ.nil = refl
  any-perm p (Permᴰ.cons e d) = rw (e, any-perm p d)
  any-perm p (Permᴰ.swap e f) = rw (e, f) (ground arith)
  any-perm p (Permᴰ.trans d e) = any-perm p d ∙ any-perm p e

  length-perm : {xs ys : List A} → Permᴰ xs ys → length xs ≡ length ys
  length-perm Permᴰ.nil = refl
  length-perm (Permᴰ.cons e d) = ap suc (length-perm d)
  length-perm (Permᴰ.swap e f) = refl
  length-perm (Permᴰ.trans d e) = length-perm d ∙ length-perm e

  is_given_lem : (o : Option (List A)) → is_given o ≡ ltb 0 (length (or_empty o))
  is_given_lem none = refl
  is_given_lem (some xs) = refl

  is_given-perm :
      (o o' : Option (List A)) → Permᴰ (or_empty o) (or_empty o') → is_given o ≡ is_given o'
  is_given-perm o o' d = rw (is_given_lem o, is_given_lem o', length-perm d)

lists_lem :
    (o : Option (List Text)) (v : Text) → lists o v ≡ any (λ p. match_wildcard p v) (or_empty o)
lists_lem none v = refl
lists_lem (some ps) v = refl

lists-perm :
    (o o' : Option (List Text)) (v : Text)
    → Permᴰ (or_empty o) (or_empty o')
    → lists o v ≡ lists o' v
lists-perm o o' v d = rw (lists_lem o v, lists_lem o' v) (any-perm (λ p. match_wildcard p v) d)

-- Two rule sets with the same access rules, allowlist and denylist up to order decide alike, with
-- the same reason; an absent list counts as an empty one.
pub evaluate_policy_access-perm :
    (rules rules' : PolicyRuleset) (ctx : PolicyEvaluationContext)
    → Permᴰ (or_empty rules.access_rules) (or_empty rules'.access_rules)
    → Permᴰ (or_empty rules.allowlist) (or_empty rules'.allowlist)
    → Permᴰ (or_empty rules.denylist) (or_empty rules'.denylist)
    → evaluate_policy_access rules ctx ≡ evaluate_policy_access rules' ctx
evaluate_policy_access-perm rules rules' ctx r a d =
    simp (evaluate_policy_access_lem rules ctx, evaluate_policy_access_lem rules' ctx)
      (cc (
        is_given-perm rules.access_rules rules'.access_rules r,
        is_given-perm rules.allowlist rules'.allowlist a,
        is_given-perm rules.denylist rules'.denylist d,
        lists-perm rules.denylist rules'.denylist ctx.subject d,
        lists-perm rules.allowlist rules'.allowlist ctx.subject a,
        any-perm (λ (rule : AccessRule). is_deny rule.effect && rule_applies rule ctx) r,
        any-perm (λ (rule : AccessRule). is_allow rule.effect && rule_applies rule ctx) r,
      ))
