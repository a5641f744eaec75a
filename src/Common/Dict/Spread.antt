-- ===== src/Common/Dict/Spread.antt =====
-- `{ ...left, ...right }`, and the same loop of writes into a map.
use a2a_agent_layer.Common.Tests.{Bool-cases}
use a2a_agent_layer.Common.Strings.{Text, text_eq, text_eq_iff}
use a2a_agent_layer.Common.Dict.{get, set, get-set}
use a2a_agent_layer.Common.Dict.Distinct.{Distinct, Distinct-set}
use mathlib.Core.Path.{◌≡◌, refl, ap, ◌∙◌}
use mathlib.Core.Logic.{inl, inr}
use mathlib.Core.Option.{Option, none, some}
use mathlib.Core.List.{List, [], ◌∷◌}

module _ {V : Type 0} where
  unfoldable pub spread : List (Text × V) → List (Text × V) → List (Text × V)
  spread left [] = left
  spread left ((key, value) ∷ right) = spread (set left key value) right

  abbrev pub or_else : Option V → Option V → Option V
  or_else none d = d
  or_else (some v) d = some v

  -- What the right side has goes before what the left side has.
  pub get-spread :
      (left right : List (Text × V)) (k : Text)
      → Distinct right
      → get (spread left right) k ≡ or_else (get right k) (get left k)
  unfolding spread get
  get-spread left [] k d = refl
  get-spread left ((key, value) ∷ right) k d =
      get-spread (set left key value) right k d.1 ∙ elim (Bool-cases (text_eq key k)) [
        | inl h ↦
            let same = (text_eq_iff key k).0 h in
            let gone : get right k ≡ none = rw⁻¹ same d.0 in
            rw (gone, h) (rw (get-set left key value k, h) refl)
        | inr h ↦ rw h (ap (or_else (get right k)) (get-set left key value k ∙ rw h refl))
      ]

  pub Distinct-spread :
      (left right : List (Text × V)) → Distinct left → Distinct (spread left right)
  unfolding spread
  Distinct-spread left [] d = d
  Distinct-spread left ((key, value) ∷ right) d =
      Distinct-spread (set left key value) right (Distinct-set left key value d)
