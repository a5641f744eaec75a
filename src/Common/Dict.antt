-- ===== src/Common/Dict.antt =====
-- JavaScript's `Map` with string keys: an association list in insertion order. `set` on a present
-- key keeps its place.
pub mod Distinct
pub mod Filter
pub mod Spread
use mathlib.Core.Path.{◌≡◌, refl}
use mathlib.Core.Bool.{Bool}
use mathlib.Core.Option.{Option, none, some}
use mathlib.Core.List.{List, [], ◌∷◌}
use native.Mathlib.Omega.{arith}
use a2a_agent_layer.Common.Tests.{if◌then◌else◌, is_some}
use a2a_agent_layer.Common.Strings.{Text, text_eq, text_eq_iff, text_eq_refl}

module _ {V : Type 0} where
  unfoldable pub get : List (Text × V) → Text → Option V
  get [] k = none
  get ((j, v) ∷ m) k = if text_eq j k then some v else get m k

  unfoldable pub has : List (Text × V) → Text → Bool
  unfolding get
  has m k = is_some (get m k)

  unfoldable pub set : List (Text × V) → Text → V → List (Text × V)
  set [] k v = (k, v) ∷ []
  set ((j, w) ∷ m) k v = if text_eq j k then (j, v) ∷ m else (j, w) ∷ set m k v

  -- What is read after a write, at any key.
  pub get-set :
      (m : List (Text × V)) (k : Text) (v : V) (q : Text)
      → get (set m k v) q ≡ (if text_eq k q then some v else get m q)
  unfolding get set
  get-set [] k v q = refl
  get-set ((j, w) ∷ m) k v q =
      ground (arith, text_eq_iff j k, text_eq_iff j q, text_eq_iff k q, get-set m k v q)

  pub get-set_self : (m : List (Text × V)) (k : Text) (v : V) → get (set m k v) k ≡ some v
  get-set_self m k v = simp (get-set, text_eq_refl)
