-- ===== src/Sanitize.antt =====
-- src/common/pipes/sanitize.pipe.ts, on JSON values. The properties of an object are assigned to a new
-- one, so that a property of its own named __proto__ is not among them.
pub mod Laws
pub mod Entities
pub mod Tests
use a2a_agent_layer.Common.{
  ℕ, zero, suc, ◌+◌, ◌-◌, ◌==◌, Bool, true, false, ◌||◌, Option, none, some, List, [], ◌∷◌, ◌++◌,
  if◌then◌else◌, length, is_lower, is_upper, is_digit, lower_case, Text, codes, text_eq,
}
use a2a_agent_layer.Common.Json.{
  Json, null, bool, num, str, arr, obj, Items, nil, cons, Fields, end, field,
}
use a2a_agent_layer.Common.Trim.{trim, is_space}
use a2a_agent_layer.Validation.{span}
use a2a_agent_layer.Blockchain.Retry.{starts_with}

-- What a regular expression matches at the start of a text: by how much the match is longer than one
-- character.
abbrev pub Matcher : Type 0
Matcher = Text → Option ℕ

abbrev pick : Option ℕ → Text → (ℕ → Text) → Text
pick none s f = s
pick (some more) s f = f more

-- `s.replace(regexp, r)` with the flag g: the matches from the left, none inside another. The number says
-- how many characters of the last match are still to be passed over.
unfoldable pub replace_matches : Matcher → Text → ℕ → Text → Text
replace_matches m r skip [] = []
replace_matches m r (suc skip) (c ∷ s) = replace_matches m r skip s
replace_matches m r zero (c ∷ s) =
    pick (m (c ∷ s)) (c ∷ replace_matches m r zero s) (λ more. r ++ replace_matches m r more s)

unfoldable pub replace_all : Matcher → Text → Text → Text
unfolding replace_matches
replace_all m r s = replace_matches m r zero s

-- Where the first `>` stands.
unfoldable pub index_of_gt : Text → Option ℕ
index_of_gt [] = none
index_of_gt (c ∷ s) =
    let rest = index_of_gt s in
    if c == b'>' then some zero else elim rest [ none ↦ none | some n ↦ some (suc n) ]

-- `/<[^>]*>/`
unfoldable pub tag : Matcher
unfolding index_of_gt
tag [] = none
tag (c ∷ s) =
    if c == b'<' then elim (index_of_gt s) [ none ↦ none | some n ↦ some (suc n) ] else none

-- The characters of a literal behind its first, if the text starts with it.
unfoldable pub literal : Text → Matcher
unfolding starts_with
literal p s = if starts_with p s then some (length p - 1) else none

-- The same with the flag i, for a literal in lower case.
unfoldable pub literal_any_case : Text → Matcher
unfolding literal lower_case
literal_any_case p s = literal p (lower_case s)

-- The class `\w`.
abbrev pub is_word : ℕ → Bool
is_word c = is_lower c || is_upper c || is_digit c || c == b'_'

abbrev pub equals_sign : ℕ → Text → Option ℕ
equals_sign n [] = none
equals_sign n (c ∷ s) = if c == b'=' then some n else none

-- `\w+\s*=`: no character is both of a word and white space, so that the longest runs are the only ones.
abbrev pub word_equals : Text × Text → Option ℕ
word_equals ([], rest) = none
word_equals (c ∷ w, rest) =
    let (spaces, after) = span is_space rest in equals_sign (length (c ∷ w) + length spaces) after

abbrev two_more : Option ℕ → Option ℕ
two_more none = none
two_more (some n) = some (n + 2)

-- `/on\w+\s*=/i`
unfoldable pub handler : Matcher
unfolding span
handler (c ∷ d ∷ s) =
    if text_eq (lower_case (c ∷ d ∷ [])) (codes "on")
    then two_more (word_equals (span is_word s))
    else none
handler _ = none

unfoldable pub strip_html : Text → Text
unfolding replace_all tag literal literal_any_case handler
strip_html input = replace_all handler [] (
    replace_all (literal_any_case (codes "javascript:")) [] (
      replace_all (literal (codes "&amp;")) (codes "&") (
        replace_all (literal (codes "&gt;")) (codes ">")
          (replace_all (literal (codes "&lt;")) (codes "<") (replace_all tag [] input)))))

unfoldable mutual
  unfolding strip_html trim text_eq

  pub sanitize : Json → Json
  sanitize null = null
  sanitize (bool b) = bool b
  sanitize (num n) = num n
  sanitize (str s) = str (trim (strip_html s))
  sanitize (arr items) = arr (sanitize_items items)
  sanitize (obj fields) = obj (sanitize_fields fields)

  pub sanitize_items : Items → Items
  sanitize_items nil = nil
  sanitize_items (cons j items) = cons (sanitize j) (sanitize_items items)

  pub sanitize_fields : Fields → Fields
  sanitize_fields end = end
  sanitize_fields (field key j fields) =
      let rest = sanitize_fields fields in
      if text_eq key (codes "__proto__") then rest else field key (sanitize j) rest

-- `metadata.type`
pub data ParamType : Type 0 where
  body query param custom : ParamType

unfoldable pub transform : Json → ParamType → Json
unfolding sanitize
transform value body = sanitize value
transform value query = value
transform value param = value
transform value custom = value
