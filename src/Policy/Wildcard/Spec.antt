-- ===== src/Policy/Wildcard/Spec.antt =====
-- What it means for a text to match a wildcard pattern, with no regular expression in it.
use a2a_agent_layer.Common.{ℕ, ◌≡◌, ◌≢◌, ◌⊎◌, [], ◌∷◌, Text, codes}

-- A character that `.` matches.
abbrev pub IsPlain : ℕ → Type 0
IsPlain c = (c ≢ 10) × (c ≢ 13) × (c ≢ 8232) × (c ≢ 8233)

-- Each character of the pattern stands for itself, but a star for any run of plain characters.
pub data Matches : Text → Text → Type 0 where
  empty : Matches [] []
  char : {c : ℕ} {p s : Text} → c ≢ b'*' → Matches p s → Matches (c ∷ p) (c ∷ s)
  leave : {c : ℕ} {p s : Text} → c ≡ b'*' → Matches p s → Matches (c ∷ p) s
  take : {c d : ℕ} {p s : Text} → c ≡ b'*' → IsPlain d → Matches (c ∷ p) s → Matches (c ∷ p) (d ∷ s)

-- The pattern `*` alone stands for every text.
abbrev pub Covers : Text → Text → Type 0
Covers pattern value = (pattern ≡ codes "*") ⊎ Matches pattern value
