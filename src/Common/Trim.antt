-- ===== src/Common/Trim.antt =====
-- JavaScript's `trim`, and `split` and `indexOf` at one character.
pub mod Laws
use Prim.Native.Nat.{ℕ}
use mathlib.Core.Bool.{Bool, true, false, ◌||◌}
use mathlib.Core.Option.{Option, none, some}
use mathlib.Core.List.{[], ◌∷◌, List, reverse}
use a2a_agent_layer.Common.Tests.{◌==◌, leb, if◌then◌else◌}
use a2a_agent_layer.Common.Strings.{Text}

-- White space and line terminators, which `trim` removes.
abbrev pub is_space : ℕ → Bool
is_space c =
    c == 32
    || c == 160
    || c == 5760
    || c == 8232
    || c == 8233
    || c == 8239
    || c == 8287
    || c == 12288
    || c == 65279
    || (if leb 9 c then leb c 13 else false)
    || (if leb 8192 c then leb c 8202 else false)

unfoldable pub drop_spaces : Text → Text
drop_spaces [] = []
drop_spaces (c ∷ s) = if is_space c then drop_spaces s else c ∷ s

unfoldable pub trim : Text → Text
unfolding drop_spaces
trim s = reverse (drop_spaces (reverse (drop_spaces s)))

-- One more character at the start of the first part.
abbrev onto_first : ℕ → List Text → List Text
onto_first c [] = (c ∷ []) ∷ []
onto_first c (part ∷ parts) = (c ∷ part) ∷ parts

-- `s.split(separator)`
unfoldable pub split_on : ℕ → Text → List Text
split_on separator [] = [] ∷ []
split_on separator (c ∷ s) =
    let rest = split_on separator s in if c == separator then [] ∷ rest else onto_first c rest

-- The text before and behind the first place where a character stands.
unfoldable pub cut_at : ℕ → Text → Option (Text × Text)
cut_at separator [] = none
cut_at separator (c ∷ s) =
    let rest = cut_at separator s in
    if c == separator
    then some ([], s)
    else elim rest [ none ↦ none | some (before, behind) ↦ some (c ∷ before, behind) ]
