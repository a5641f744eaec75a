-- ===== src/Policy/Wildcard.antt =====
-- `matchWildcard` of src/modules/policy/policy-evaluator.ts. The code builds a regular expression
-- from the pattern; here are the two replacements that build it, a reading of the expressions that
-- they can build, and the test of a text against one.
pub mod Spec
pub mod Laws
pub mod Patterns
pub mod Tests
use a2a_agent_layer.Common.{
  ℕ, Bool, true, false, not, ◌&&◌, ◌||◌, Option, none, some, List, [], ◌∷◌, ◌==◌, if◌then◌else◌,
  Text, codes, text_eq,
}
use mathlib.Core.Option

abbrev pub star : ℕ
star = b'*'

abbrev pub backslash : ℕ
backslash = 92

-- The characters of the class `[.+?^${}()|[\]\\]`.
pub is_special : ℕ → Bool
is_special c =
    c == b'.'
    || c == b'+'
    || c == b'?'
    || c == b'^'
    || c == b'$'
    || c == b'{'
    || c == b'}'
    || c == b'('
    || c == b')'
    || c == b'|'
    || c == b'['
    || c == b']'
    || c == backslash

-- `.replace(/[.+?^${}()|[\]\\]/g, '\\$&')`
pub escape_special : Text → Text
escape_special [] = []
escape_special (c ∷ s) =
    let rest = escape_special s in if is_special c then backslash ∷ c ∷ rest else c ∷ rest

-- `.replace(/\*/g, '.*')`
pub expand_stars : Text → Text
expand_stars [] = []
expand_stars (c ∷ s) =
    let rest = expand_stars s in if c == star then b'.' ∷ star ∷ rest else c ∷ rest

-- A regular expression of the fragment: literal characters and `.*`.
pub data Atom : Type 0 where
  literal : ℕ → Atom
  any_run : Atom

-- Reads the source of an expression. `none` is an expression outside the fragment.
pub parse_regex : Text → Option (List Atom)
parse_regex [] = some []
parse_regex (c ∷ []) = if is_special c || c == star then none else some (literal c ∷ [])
parse_regex (c ∷ d ∷ s) =
    let after_two = parse_regex s in
    let after_one = parse_regex (d ∷ s) in
    if c == backslash
    then (if is_special d then Option.map (◌∷◌ (literal d)) after_two else none)
    else if c == b'.'
    then (if d == star then Option.map (◌∷◌ any_run) after_two else none)
    else if is_special c || c == star
    then none
    else Option.map (◌∷◌ (literal c)) after_one

-- What `.` does not match.
pub is_line_terminator : ℕ → Bool
is_line_terminator c = c == 10 || c == 13 || c == 8232 || c == 8233

-- `new RegExp('^' + … + '$').test(value)`, without flags.
pub regex_test : List Atom → Text → Bool
regex_test [] [] = true
regex_test [] (c ∷ s) = false
regex_test (literal x ∷ p) [] = false
regex_test (literal x ∷ p) (c ∷ s) = x == c && regex_test p s
regex_test (any_run ∷ p) [] = regex_test p []
regex_test (any_run ∷ p) (c ∷ s) =
    regex_test p (c ∷ s) || not (is_line_terminator c) && regex_test (any_run ∷ p) s

-- An expression outside the fragment is none that the replacements build (`Laws`).
unfoldable pub match_wildcard : Text → Text → Bool
unfolding is_special escape_special expand_stars parse_regex is_line_terminator regex_test text_eq
match_wildcard pattern value =
    if text_eq pattern (codes "*")
    then true
    else elim (parse_regex (expand_stars (escape_special pattern))) [
      | none ↦ false
      | some atoms ↦ regex_test atoms value
    ]
