-- ===== src/Common/Dict/Distinct.antt =====
-- Maps with distinct keys, and what a filter on the entries leaves of them.
use a2a_agent_layer.Common.Tests.{if◌then◌else◌}
use a2a_agent_layer.Common.Lists.{filter}
use a2a_agent_layer.Common.Strings.{Text, text_eq_iff}
use a2a_agent_layer.Common.Dict.{get, set, get-set}
use mathlib.Core.Path.{◌≡◌, refl}
use mathlib.Core.Logic.{◌≢◌}
use mathlib.Core.Bool.{Bool}
use mathlib.Core.Option.{none, some}
use mathlib.Core.List.{List, [], ◌∷◌}
use native.Mathlib.Omega.{arith}

module _ {V : Type 0} where
  abbrev pub Distinct : List (Text × V) → Type 0
  Distinct [] = Unit
  Distinct ((j, v) ∷ m) = (get m j ≡ none) × Distinct m

  pub get-filter-none :
      (p : Text × V → Bool) (m : List (Text × V)) (k : Text)
      → get m k ≡ none
      → get (filter p m) k ≡ none
  unfolding get
  get-filter-none p [] k e = refl
  get-filter-none p ((j, w) ∷ m) k e = ground (arith, get-filter-none p m k)

  pub Distinct-filter :
      (p : Text × V → Bool) (m : List (Text × V)) → Distinct m → Distinct (filter p m)
  Distinct-filter p [] d = tt
  Distinct-filter p ((j, w) ∷ m) d =
      ground (arith, get-filter-none p m j d.0, Distinct-filter p m d.1)

  pub Distinct-set : (m : List (Text × V)) (k : Text) (v : V) → Distinct m → Distinct (set m k v)
  unfolding set get
  Distinct-set [] k v d = (refl, tt)
  Distinct-set ((j, w) ∷ m) k v d =
      ground (arith, Distinct-set m k v d.1, get-set m k v j, text_eq_iff j k, text_eq_iff k j)

  -- A filter on a map with distinct keys keeps or drops each entry by itself.
  pub get-filter-some :
      (p : Text × V → Bool) (m : List (Text × V)) (k : Text) (v : V)
      → Distinct m
      → get m k ≡ some v
      → get (filter p m) k ≡ (if p (k, v) then some v else none)
  unfolding get
  get-filter-some p [] k v d e = absurd (ground arith)
  get-filter-some p ((j, w) ∷ m) k v d e =
      ground (arith, text_eq_iff j k, get-filter-none p m j d.0, get-filter-some p m k v d.1)

  -- A write under one key does not show at another, also behind a filter.
  pub get-filter-set_ne :
      (p : Text × V → Bool) (m : List (Text × V)) (k : Text) (v : V) (q : Text)
      → k ≢ q
      → get (filter p (set m k v)) q ≡ get (filter p m) q
  unfolding get set
  get-filter-set_ne p [] k v q n = ground (arith, text_eq_iff k q)
  get-filter-set_ne p ((j, w) ∷ m) k v q n =
      ground
        (arith, text_eq_iff j k, text_eq_iff j q, text_eq_iff k q, get-filter-set_ne p m k v q n)
