-- ===== src/Policy/Wildcard/Laws.antt =====
-- `match_wildcard` decides `Covers`: the expression that the code builds is always well formed, and
-- it means what the pattern says.
use a2a_agent_layer.Common.{
  ℕ, true, false, ◌≡◌, ◌↔◌, inl, inr, refl, some, List, [], ◌∷◌, ◌==◌, ==_iff, if◌then◌else◌, Text,
  codes, text_eq, text_eq_iff, arith, Bool-cases,
}
use a2a_agent_layer.Policy.Wildcard.{
  star, backslash, is_special, escape_special, expand_stars, Atom, literal, any_run, parse_regex,
  is_line_terminator, regex_test, match_wildcard,
}
use a2a_agent_layer.Policy.Wildcard.Spec.{Matches, empty, char, leave, take, Covers}

-- The atoms that a pattern stands for.
abbrev atoms : Text → List Atom
atoms [] = []
atoms (c ∷ p) = (if c == star then any_run else literal c) ∷ atoms p

star_of_special : (c : ℕ) → is_special c ≡ true → (c == star) ≡ false
unfolding is_special
star_of_special c h = ground arith

plain_of_ordinary :
    (c : ℕ) → is_special c ≡ false → ((c == b'.') ≡ false) × ((c == backslash) ≡ false)
unfolding is_special
plain_of_ordinary c h = (ground arith, ground arith)

module _ (s : Text) {found : List Atom} (rest : parse_regex s ≡ some found) where
  parse_regex-special :
      (c : ℕ) → is_special c ≡ true → parse_regex (backslash ∷ c ∷ s) ≡ some (literal c ∷ found)
  unfolding parse_regex
  parse_regex-special c h = rw (h, rest)

  parse_regex-star : parse_regex (b'.' ∷ star ∷ s) ≡ some (any_run ∷ found)
  unfolding parse_regex
  parse_regex-star = rw rest

parse_regex-plain :
    (c : ℕ) (s : Text) {found : List Atom}
    → is_special c ≡ false
    → (c == star) ≡ false
    → parse_regex s ≡ some found
    → parse_regex (c ∷ s) ≡ some (literal c ∷ found)
unfolding parse_regex
parse_regex-plain c [] h n rest = ground arith
parse_regex-plain c (d ∷ s) h n rest =
    let (dot, slash) = plain_of_ordinary c h in rw (slash, dot, h, n, rest)

parse_regex-nil : parse_regex [] ≡ some []
unfolding parse_regex
parse_regex-nil = refl

-- The replacements always build an expression of the fragment, which stands for the pattern's atoms.
pub parse_regex-escape : (p : Text) → parse_regex (expand_stars (escape_special p)) ≡ some (atoms p)
unfolding expand_stars escape_special
parse_regex-escape [] = parse_regex-nil
parse_regex-escape (c ∷ p) = elim (Bool-cases (is_special c)) [
  | inl special ↦
      rw (special, star_of_special c special)
        (parse_regex-special _ (parse_regex-escape p) c special)
  | inr ordinary ↦ elim (Bool-cases (c == star)) [
    | inl e ↦ rw (ordinary, e) (parse_regex-star _ (parse_regex-escape p))
    | inr n ↦ rw (ordinary, n) (parse_regex-plain c _ ordinary n (parse_regex-escape p))
  ]
]

test-leave : (p : List Atom) (s : Text) → regex_test p s ≡ true → regex_test (any_run ∷ p) s ≡ true
unfolding regex_test
test-leave p [] h = h
test-leave p (c ∷ s) h = rw h

Matches→test : {p s : Text} → Matches p s → regex_test (atoms p) s ≡ true
unfolding regex_test is_line_terminator
Matches→test empty = refl
Matches→test (char n d) = ground (arith, Matches→test d)
Matches→test (leave {p = p} {s = s} e d) = ground (arith, test-leave (atoms p) s (Matches→test d))
Matches→test (take e n d) = ground (arith, Matches→test d)

split :
    (c d : ℕ) (p s : Text)
    → (c == star) ≡ false
    → regex_test (atoms (c ∷ p)) (d ∷ s) ≡ true
    → (c ≡ d) × (regex_test (atoms p) s ≡ true)
unfolding regex_test
split c d p s n h = (ground arith, ground arith)

test→Matches : (p s : Text) → regex_test (atoms p) s ≡ true → Matches p s
unfolding regex_test is_line_terminator
test→Matches [] [] h = empty
test→Matches [] (c ∷ s) h = cc
test→Matches (c ∷ p) [] h = elim (Bool-cases (c == star)) [
  | inl e ↦ leave ((==_iff c star).0 e) (test→Matches p [] (ground arith))
  | inr n ↦ ground arith
]
test→Matches (c ∷ p) (d ∷ s) h = elim (Bool-cases (c == star)) [
  | inl e ↦ elim (Bool-cases (regex_test (atoms p) (d ∷ s))) [
    | inl here ↦ leave ((==_iff c star).0 e) (test→Matches p (d ∷ s) here)
    | inr later ↦ take ((==_iff c star).0 e) (ground arith) (test→Matches (c ∷ p) s (ground arith))
  ]
  | inr n ↦
      let (same, rest) = split c d p s n h in
      rw (← same) (char (λ e. ground arith) (test→Matches p s rest))
]

match_wildcard_lem :
    (pattern value : Text)
    → match_wildcard pattern value
      ≡ (if text_eq pattern (codes "*") then true else regex_test (atoms pattern) value)
unfolding match_wildcard
match_wildcard_lem pattern value = rw (parse_regex-escape pattern)

-- `match_wildcard` answers true exactly where the pattern covers the value: the characters of the
-- pattern stand for themselves, regular expression syntax included, a star for any run of characters
-- other than line terminators, and the pattern `*` for every value.
pub match_wildcard_iff :
    (pattern value : Text) → (match_wildcard pattern value ≡ true) ↔ Covers pattern value
match_wildcard_iff pattern value = (
  λ h. ground (
    arith,
    match_wildcard_lem pattern value,
    text_eq_iff pattern (codes "*"),
    test→Matches pattern value,
  ),
  λ d. covered d,
)
  where
    covered : Covers pattern value → match_wildcard pattern value ≡ true
    covered (inl e) =
        ground (arith, match_wildcard_lem pattern value, text_eq_iff pattern (codes "*"))
    covered (inr d) = ground (arith, match_wildcard_lem pattern value, Matches→test d)
