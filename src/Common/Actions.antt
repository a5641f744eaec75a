-- ===== src/Common/Actions.antt =====
-- Calls that change a state and may throw: the state after the call is there in both cases.
use a2a_agent_layer.Common.Outcomes.{Outcome, ok, throw, Exception}
use mathlib.Core.Path.{◌≡◌, refl, ap}
use native.Mathlib.Omega.{arith}

abbrev pub Action : Type 0 → Type 0 → Type 0
Action S A = S → Outcome A × S

-- Goes on with the value of a call that returned one.
abbrev pub proceed {ℓ} :
    {S A : Type 0} {B : Type ℓ} → Outcome A × S → (A → S → Outcome B × S) → Outcome B × S
proceed (ok a, s) f = f a s
proceed (throw e, s) f = (throw e, s)

pub proceed_ok {ℓ} :
    {S A : Type 0} {B : Type ℓ} (m : Outcome A × S) (f : A → S → Outcome B × S) {b : B}
    → (proceed m f).0 ≡ ok b
    → (a : A) × (m.0 ≡ ok a) × (proceed m f ≡ f a m.1)
proceed_ok (ok a, s) f e = (a, refl, refl)
proceed_ok (throw x, s) f e = cc

pub proceed_throw {ℓ} :
    {S A : Type 0} {B : Type ℓ} (m : Outcome A × S) (f : A → S → Outcome B × S) (e : Exception)
    → m.0 ≡ throw e
    → proceed m f ≡ (throw e, m.1)
proceed_throw (ok a, s) f e h = cc
proceed_throw (throw x, s) f e h = ground arith

pub proceed_value {ℓ} :
    {S A : Type 0} {B : Type ℓ} (m : Outcome A × S) (f : A → S → Outcome B × S) (a : A)
    → m.0 ≡ ok a
    → proceed m f ≡ f a m.1
proceed_value (ok a, s) f b h = ap (λ x. f x s) (cc)
proceed_value (throw x, s) f b h = cc
