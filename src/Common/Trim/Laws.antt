-- ===== src/Common/Trim/Laws.antt =====
-- A trimmed text stays as it is when it is trimmed again; and what a text without the separator is split
-- into.
use Prim.Native.Nat.{ℕ}
use mathlib.Core.Path.{◌≡◌, refl, sym, ap, ◌∙◌}
use mathlib.Core.Logic.{inl, inr}
use mathlib.Core.Bool.{Bool, true, false, not}
use mathlib.Core.List.{[], ◌∷◌, ◌++◌, reverse, reverse-append, reverse-reverse}
use native.Mathlib.Omega.{arith}
use a2a_agent_layer.Common.Lists.{all}
use a2a_agent_layer.Common.Tests.{◌==◌, Bool-cases}
use a2a_agent_layer.Common.Strings.{Text}
use a2a_agent_layer.Common.Trim.{is_space, drop_spaces, trim, split_on}

abbrev starts_bare : Text → Bool
starts_bare [] = true
starts_bare (c ∷ s) = not (is_space c)

drop_spaces_bare : (s : Text) → starts_bare (drop_spaces s) ≡ true
unfolding drop_spaces
drop_spaces_bare [] = refl
drop_spaces_bare (c ∷ s) = elim (Bool-cases (is_space c)) [
  | inl h ↦ rw h (drop_spaces_bare s)
  | inr h ↦ rw h (ap not h)
]

bare_stays : (s : Text) → starts_bare s ≡ true → drop_spaces s ≡ s
unfolding drop_spaces
bare_stays [] h = refl
bare_stays (c ∷ s) h = let e : is_space c ≡ false = ground arith in rw e refl

dropped : (s : Text) → (p : Text) × (s ≡ p ++ drop_spaces s)
unfolding drop_spaces
dropped [] = ([], refl)
dropped (c ∷ s) = elim (Bool-cases (is_space c)) [
  | inl h ↦ rw h (let (p, e) = dropped s in (c ∷ p, ap (λ x. c ∷ x) e))
  | inr h ↦ rw h ([], refl)
]

bare_prefix : (t u : Text) → starts_bare (t ++ u) ≡ true → starts_bare t ≡ true
bare_prefix [] u h = refl
bare_prefix (c ∷ t) u h = h

pub trim_idem : (s : Text) → trim (trim s) ≡ trim s
unfolding trim
trim_idem s =
    let d = drop_spaces s in
    let r = drop_spaces (reverse d) in
    let (p, e) = dropped (reverse d) in
    let whole : d ≡ reverse r ++ reverse p =
      sym (reverse-reverse d) ∙ ap reverse e ∙ reverse-append p r in
    let bare : starts_bare (reverse r) ≡ true =
      bare_prefix (reverse r) (reverse p) (ap starts_bare (sym whole) ∙ drop_spaces_bare s) in
    ap (λ x. reverse (drop_spaces (reverse x))) (bare_stays (reverse r) bare)
    ∙ ap (λ x. reverse (drop_spaces x)) (reverse-reverse r)
    ∙ ap reverse (bare_stays r (drop_spaces_bare (reverse d)))

pub split_on-whole :
    (sep : ℕ) (s : Text) → all (λ c. not (c == sep)) s ≡ true → split_on sep s ≡ s ∷ []
unfolding split_on
split_on-whole sep [] h = refl
split_on-whole sep (c ∷ s) h =
    let e : (c == sep) ≡ false = ground arith in
    let others : all (λ c. not (c == sep)) s ≡ true = ground arith in
    rw (e, split_on-whole sep s others) refl

pub split_on-part :
    (sep : ℕ) (s rest : Text)
    → all (λ c. not (c == sep)) s ≡ true
    → split_on sep (s ++ (sep ∷ rest)) ≡ s ∷ split_on sep rest
unfolding split_on
split_on-part sep [] rest h = let e : (sep == sep) ≡ true = ground arith in rw e refl
split_on-part sep (c ∷ s) rest h =
    let e : (c == sep) ≡ false = ground arith in
    let others : all (λ c. not (c == sep)) s ≡ true = ground arith in
    rw (e, split_on-part sep s rest others) refl
