-- ===== src/Common/Dict/Filter.antt =====
-- What is found in a dictionary after a filter, and after a write at an absent key.
use a2a_agent_layer.Common.Strings.{Text, text_eq_iff}
use a2a_agent_layer.Common.Lists.{filter}
use a2a_agent_layer.Common.Dict.{get, has, set, get-set}
use Prim.Native.Nat.{ℕ}
use mathlib.Core.Path.{◌≡◌}
use mathlib.Core.Bool.{Bool, true, false}
use mathlib.Core.Option.{some}
use mathlib.Core.List.{List, [], ◌∷◌}
use native.Mathlib.Omega.{arith}

-- An entry that passes a test is found behind a filter.
pub get-filter :
    (p : Text × ℕ → Bool) (m : List (Text × ℕ)) (k : Text) (v : ℕ)
    → get m k ≡ some v
    → ((j : Text) → j ≡ k → p (j, v) ≡ true)
    → get (filter p m) k ≡ some v
unfolding get
get-filter p [] k v e h = cc
get-filter p ((j, w) ∷ m) k v e h = ground (arith, text_eq_iff j k, h j, get-filter p m k v)

pub has_of_get : (m : List (Text × ℕ)) (k : Text) (v : ℕ) → get m k ≡ some v → has m k ≡ true
unfolding has
has_of_get m k v e = rw e

pub get-set_other :
    (m : List (Text × ℕ)) (k j : Text) (v w : ℕ)
    → has m j ≡ false
    → get m k ≡ some v
    → get (set m j w) k ≡ some v
get-set_other m k j v w absent e =
    ground (arith, get-set m j w k, text_eq_iff j k, has_of_get m k v e)
