-- ===== src/Catalog/Like.antt =====
-- What a search pattern matches, with PostgreSQL's reading of an ILIKE pattern: ASCII letters match in
-- either case.
use a2a_agent_layer.Common.{
  ℕ, ◌==◌, ◌||◌, Bool, ◌≡◌, ◌≢◌, ◌↔◌, refl, Option, none, some, lower_case, to_lower, [], ◌∷◌, ◌++◌,
  Text,
}
use a2a_agent_layer.Catalog.{percent, underscore, backslash}

-- A percent sign stands for any text, an underscore for any character, a character behind a backslash
-- for itself, and any other for itself; a letter stands for itself in either case.
pub data Like : Text → Text → Type 0 where
  empty : Like [] []
  plain :
      {c d : ℕ} {p s : Text}
      → c ≢ percent
      → c ≢ underscore
      → c ≢ backslash
      → to_lower c ≡ to_lower d
      → Like p s
      → Like (c ∷ p) (d ∷ s)
  one : {c d : ℕ} {p s : Text} → c ≡ underscore → Like p s → Like (c ∷ p) (d ∷ s)
  leave : {c : ℕ} {p s : Text} → c ≡ percent → Like p s → Like (c ∷ p) s
  more : {c d : ℕ} {p s : Text} → c ≡ percent → Like (c ∷ p) s → Like (c ∷ p) (d ∷ s)
  escaped :
      {c d x : ℕ} {p s : Text}
      → c ≡ backslash
      → to_lower d ≡ to_lower x
      → Like p s
      → Like (c ∷ d ∷ p) (x ∷ s)

Like-nil : {s : Text} → Like [] s → s ≡ []
Like-nil empty = refl

abbrev special : ℕ → Bool
special c = c == backslash || c == percent || c == underscore

-- Somewhere in the text stands the other one, in whichever case.
abbrev pub Contains : Text → Text → Type 0
Contains s v = (a t b : Text) × (s ≡ a ++ (t ++ b)) × (lower_case t ≡ lower_case v)

-- No pattern for an empty text, and for any other one that matches exactly the texts that contain it.
abbrev pub Searches : Text → Option Text → Type 0
Searches v none = v ≡ []
Searches v (some pattern) = (v ≢ []) × ((s : Text) → Like pattern s ↔ Contains s v)
