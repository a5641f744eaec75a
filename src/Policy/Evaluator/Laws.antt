-- ===== src/Policy/Evaluator/Laws.antt =====
-- What a decision of `evaluate_policy_access` means, stated with `Covers`.
use a2a_agent_layer.Common.{
  Bool, true, false, ◌&&◌, ◌≡◌, ◌↔◌, ◌⊎◌, inl, inr, refl, Option, none, some, List, [], ◌∷◌,
  is_some, any, suc, length, ◌==◌, not, ◌||◌, if◌then◌else◌, codes, filter, find, Any, any→Any,
  Any→any, arith,
}
use a2a_agent_layer.Policy.Wildcard.{match_wildcard}
use a2a_agent_layer.Policy.Wildcard.Spec.{Covers}
use a2a_agent_layer.Policy.Wildcard.Laws.{match_wildcard_iff}
use a2a_agent_layer.Policy.Evaluator.{
  Access, PolicyEffect, allow, deny, is_allow, is_deny, AccessRule, PolicyEvaluationContext,
  PolicyRuleset, matches_any, rule_applies, is_given, lists, or_empty, evaluate_policy_access,
}
use a2a_agent_layer.Common.{Text}

-- Some pattern of the list covers the value; an absent list has none.
abbrev pub Lists : Option (List Text) → Text → Type 0
Lists patterns value = Any (λ p. Covers p value) (or_empty patterns)

-- The patterns of one part of a rule: none given stands for every value.
abbrev pub Accepts : Option (List Text) → Text → Type 0
Accepts patterns value = (or_empty patterns ≡ []) ⊎ Lists patterns value

abbrev pub Applies : PolicyEvaluationContext → PolicyEffect → AccessRule → Type 0
Applies ctx effect rule =
    (rule.effect ≡ effect)
    × Accepts (some rule.subjects) ctx.subject
    × Accepts rule.actions ctx.action
    × Accepts rule.resources ctx.resource

-- A rule of the set with this effect applies.
abbrev pub HasRule : PolicyRuleset → PolicyEvaluationContext → PolicyEffect → Type 0
HasRule rules ctx effect = Any (Applies ctx effect) (or_empty rules.access_rules)

abbrev pub IsUnconstrained : PolicyRuleset → Type 0
IsUnconstrained rules =
    (or_empty rules.access_rules ≡ [])
    × (or_empty rules.allowlist ≡ [])
    × (or_empty rules.denylist ≡ [])

abbrev pub IsAllowed : PolicyRuleset → PolicyEvaluationContext → Type 0
IsAllowed rules ctx =
    IsUnconstrained rules
    ⊎ ((¬ Lists rules.denylist ctx.subject)
        × (¬ HasRule rules ctx deny)
        × (HasRule rules ctx allow ⊎ Lists rules.allowlist ctx.subject))

pub lists_iff : (o : Option (List Text)) (v : Text) → (lists o v ≡ true) ↔ Lists o v
lists_iff none v = (λ e. cc, λ e. absurd e)
lists_iff (some ps) v = (
  any→Any (λ p. Covers p v) (λ p. match_wildcard p v) ps (λ p. (match_wildcard_iff p v).0),
  Any→any (λ p. Covers p v) (λ p. match_wildcard p v) ps (λ p. (match_wildcard_iff p v).1),
)

matches_any-cons :
    (p : Text) (ps : List Text) (v : Text) → matches_any (some (p ∷ ps)) v ≡ lists (some (p ∷ ps)) v
unfolding matches_any
matches_any-cons p ps v = let e : (suc (length ps) == 0) ≡ false = ground arith in rw e

matches_any_iff : (o : Option (List Text)) (v : Text) → (matches_any o v ≡ true) ↔ Accepts o v
unfolding matches_any
matches_any_iff none v = (λ e. inl refl, λ e. refl)
matches_any_iff (some []) v = (λ e. inl refl, λ e. refl)
matches_any_iff (some (p ∷ ps)) v = rw (matches_any-cons p ps v) (
  λ e. inr ((lists_iff (some (p ∷ ps)) v).0 e),
  λ d. (lists_iff (some (p ∷ ps)) v).1 (elim d [ inl e ↦ absurd (cc) | inr h ↦ h ]),
)

rule_applies→ :
    (rule : AccessRule) (ctx : PolicyEvaluationContext)
    → rule_applies rule ctx ≡ true
    → Accepts (some rule.subjects) ctx.subject
      × Accepts rule.actions ctx.action
      × Accepts rule.resources ctx.resource
unfolding rule_applies
rule_applies→ rule ctx e = (
  (matches_any_iff (some rule.subjects) ctx.subject).0 (ground arith),
  (matches_any_iff rule.actions ctx.action).0 (ground arith),
  (matches_any_iff rule.resources ctx.resource).0 (ground arith),
)

→rule_applies :
    (rule : AccessRule) (ctx : PolicyEvaluationContext)
    → Accepts (some rule.subjects) ctx.subject
    → Accepts rule.actions ctx.action
    → Accepts rule.resources ctx.resource
    → rule_applies rule ctx ≡ true
unfolding rule_applies
→rule_applies rule ctx s a r = rw (
  (matches_any_iff (some rule.subjects) ctx.subject).1 s,
  (matches_any_iff rule.actions ctx.action).1 a,
  (matches_any_iff rule.resources ctx.resource).1 r,
)

-- The two `find` calls over the filtered rules, as one search.
pub find-filter {ℓ} :
    {A : Type ℓ} (p q : A → Bool) (xs : List A)
    → is_some (find p (filter q xs)) ≡ any (λ x. p x && q x) xs
find-filter p q [] = refl
find-filter p q (x ∷ xs) = ground (arith, find-filter p q xs)

abbrev pub has_deny : PolicyRuleset → PolicyEvaluationContext → Bool
has_deny rules ctx =
    any (λ rule. is_deny rule.effect && rule_applies rule ctx) (or_empty rules.access_rules)

abbrev pub has_allow : PolicyRuleset → PolicyEvaluationContext → Bool
has_allow rules ctx =
    any (λ rule. is_allow rule.effect && rule_applies rule ctx) (or_empty rules.access_rules)

is_deny_iff : (e : PolicyEffect) → (is_deny e ≡ true) ↔ (e ≡ deny)
is_deny_iff allow = (λ h. cc, λ h. cc)
is_deny_iff deny = (λ h. refl, λ h. refl)

is_allow_iff : (e : PolicyEffect) → (is_allow e ≡ true) ↔ (e ≡ allow)
is_allow_iff allow = (λ h. refl, λ h. refl)
is_allow_iff deny = (λ h. cc, λ h. cc)

any-rule_iff :
    (effect : PolicyEffect) (test : PolicyEffect → Bool)
    → ((e : PolicyEffect) → (test e ≡ true) ↔ (e ≡ effect))
    → (rules : PolicyRuleset) (ctx : PolicyEvaluationContext)
    → (any
          (λ (rule : AccessRule). test rule.effect && rule_applies rule ctx)
          (or_empty rules.access_rules)
        ≡ true)
      ↔ HasRule rules ctx effect
any-rule_iff effect test decides rules ctx = (
  any→Any (Applies ctx effect) _ (or_empty rules.access_rules) (λ r e.
      let (s, a, t) = rule_applies→ r ctx (ground arith) in
      ((decides r.effect).0 (ground arith), s, a, t)),
  Any→any (Applies ctx effect) _ (or_empty rules.access_rules)
      (λ r h. ground (arith, (decides r.effect).1 h.0, →rule_applies r ctx h.1 h.2 h.3)),
)

abbrev pub unconstrained : PolicyRuleset → Bool
unconstrained rules =
    not (is_given rules.access_rules || is_given rules.allowlist || is_given rules.denylist)

-- The decision as a table over five tests.
abbrev pub decide_access : Bool → Bool → Bool → Bool → Bool → Access
decide_access free denied deny_rule allow_rule allowed =
    if free
    then record { allowed = true; reason = codes "no access constraints" }
    else if denied
    then record { allowed = false; reason = codes "subject on denylist" }
    else if deny_rule
    then record { allowed = false; reason = codes "matched deny access rule" }
    else if allow_rule
    then record { allowed = true; reason = codes "matched allow access rule" }
    else if allowed
    then record { allowed = true; reason = codes "subject on allowlist" }
    else record { allowed = false; reason = codes "no matching allow rule" }

pub evaluate_policy_access_lem :
    (rules : PolicyRuleset) (ctx : PolicyEvaluationContext)
    → evaluate_policy_access rules ctx
      ≡ decide_access
          (unconstrained rules)
          (lists rules.denylist ctx.subject)
          (has_deny rules ctx)
          (has_allow rules ctx)
          (lists rules.allowlist ctx.subject)
unfolding evaluate_policy_access
evaluate_policy_access_lem rules ctx = rw (
  find-filter (λ (rule : AccessRule). is_deny rule.effect) (λ rule. rule_applies rule ctx)
      (or_empty rules.access_rules),
  find-filter (λ (rule : AccessRule). is_allow rule.effect) (λ rule. rule_applies rule ctx)
      (or_empty rules.access_rules),
)

is_given_iff {ℓ} : {A : Type ℓ} (o : Option (List A)) → (is_given o ≡ false) ↔ (or_empty o ≡ [])
is_given_iff none = (λ e. refl, λ e. refl)
is_given_iff (some []) = (λ e. refl, λ e. refl)
is_given_iff (some (x ∷ xs)) = (λ e. absurd (ground arith), λ e. cc)

unconstrained_iff : (rules : PolicyRuleset) → (unconstrained rules ≡ true) ↔ IsUnconstrained rules
unconstrained_iff rules = (
  λ e. (
    (is_given_iff rules.access_rules).0 (ground arith),
    (is_given_iff rules.allowlist).0 (ground arith),
    (is_given_iff rules.denylist).0 (ground arith),
  ),
  λ h. rw (
    (is_given_iff rules.access_rules).1 h.0,
    (is_given_iff rules.allowlist).1 h.1,
    (is_given_iff rules.denylist).1 h.2,
  ),
)

decide_access_iff :
    (free denied deny_rule allow_rule listed : Bool)
    → ((decide_access free denied deny_rule allow_rule listed).allowed ≡ true) ↔ (
        (free ≡ true)
        ⊎ ((denied ≡ false) × (deny_rule ≡ false) × ((allow_rule ≡ true) ⊎ (listed ≡ true))))
decide_access_iff free denied deny_rule allow_rule listed = ground arith

not-eq_true {ℓ} : {P : Type ℓ} (b : Bool) → (b ≡ true) ↔ P → (b ≡ false) ↔ (¬ P)
not-eq_true true e = (λ h. cc, λ n. absurd (n (e.0 refl)))
not-eq_true false e = (λ h p. cc (e.1 p), λ n. refl)

-- Access is allowed exactly if there is no rule and no list at all, or the subject is on no denylist
-- pattern, no deny rule applies, and an allow rule applies or the subject is on the allowlist.
pub evaluate_policy_access_iff :
    (rules : PolicyRuleset) (ctx : PolicyEvaluationContext)
    → ((evaluate_policy_access rules ctx).allowed ≡ true) ↔ IsAllowed rules ctx
evaluate_policy_access_iff rules ctx =
    let free = unconstrained_iff rules in
    let denied = lists_iff rules.denylist ctx.subject in
    let listed = lists_iff rules.allowlist ctx.subject in
    let deny_rule = any-rule_iff deny is_deny is_deny_iff rules ctx in
    let allow_rule = any-rule_iff allow is_allow is_allow_iff rules ctx in
    let table =
      decide_access_iff (unconstrained rules) (lists rules.denylist ctx.subject)
        (has_deny rules ctx) (has_allow rules ctx) (lists rules.allowlist ctx.subject) in
    rw (evaluate_policy_access_lem rules ctx) (
      λ e. elim (table.0 e) [
        | inl h ↦ inl (free.0 h)
        | inr h ↦ inr (
          (not-eq_true _ denied).0 h.0,
          (not-eq_true _ deny_rule).0 h.1,
          elim (h.2) [ inl a ↦ inl (allow_rule.0 a) | inr l ↦ inr (listed.0 l) ],
        )
      ],
      λ d. table.1 (elim d [
        | inl h ↦ inl (free.1 h)
        | inr h ↦ inr (
          (not-eq_true _ denied).1 h.0,
          (not-eq_true _ deny_rule).1 h.1,
          elim (h.2) [ inl a ↦ inl (allow_rule.1 a) | inr l ↦ inr (listed.1 l) ],
        )
      ]),
    )
