-- ===== src/Auth/ApiKeys/Entries.antt =====
-- What an entry of the configuration of keys spells.
use a2a_agent_layer.Common.{
  ◌==◌, true, not, all, ◌≡◌, ◌≢◌, ◌↔◌, refl, ◌∙◌, ap, inl, inr, Option, Option-cases, none, some,
  [], ◌∷◌, ◌++◌, Bool-cases, Text, arith,
}
use a2a_agent_layer.Common.Trim.{trim, cut_at}
use a2a_agent_layer.Validation.{colon}
use a2a_agent_layer.Auth.ApiKeys.{parse_pair}

-- The label and the key that the code finds in an entry.
abbrev pub entry : Text → Option (Text × Text)
entry pair = parse_pair (cut_at colon (trim pair))

-- What an entry of the configuration spells: trimmed, it is a label, a colon and a key, neither of them
-- empty, and the label has no colon.
abbrev pub Spells : Text → Text → Text → Type 0
Spells pair label secret =
    (trim pair ≡ label ++ (b':' ∷ secret))
    × (all (λ c. not (c == b':')) label ≡ true)
    × (label ≢ [])
    × (secret ≢ [])

cut_at→ :
    (s a b : Text)
    → cut_at colon s ≡ some (a, b)
    → (s ≡ a ++ (b':' ∷ b)) × (all (λ c. not (c == b':')) a ≡ true)
unfolding cut_at
cut_at→ [] a b e = cc
cut_at→ (c ∷ s) a b e = elim (Bool-cases (c == b':')) [
  | inl h ↦
      let same : c ≡ b':' = ground arith in
      let pair : (Text × Text) = ([], s) in
      let made : some ([], s) ≡ some (a, b) = rw h at e in
      let left : [] ≡ a = cc in
      let right : s ≡ b = cc in rw (← left, ← right) (ap (λ x. x ∷ s) same, refl)
  | inr h ↦ elim (Option-cases (cut_at colon s)) [
    | inl n ↦ absurd (cc (rw (h, n) at e))
    | inr ((x, y), n) ↦
        let made : some (c ∷ x, y) ≡ some (a, b) = rw (h, n) at e in
        let left : c ∷ x ≡ a = cc in
        let right : y ≡ b = cc in
        let (p, q) = cut_at→ s x y n in rw (← left, ← right) (ap (λ z. c ∷ z) p, ground (arith, q))
  ]
]

→cut_at :
    (a b : Text)
    → all (λ c. not (c == b':')) a ≡ true
    → cut_at colon (a ++ (b':' ∷ b)) ≡ some (a, b)
unfolding cut_at
→cut_at [] b h = refl
→cut_at (c ∷ a) b h = elim (Bool-cases (c == b':')) [
  | inl k ↦ absurd (ground arith)
  | inr k ↦ rw (k, →cut_at a b (ground arith))
]

parse_pair→ :
    (o : Option (Text × Text)) (label secret : Text)
    → parse_pair o ≡ some (label, secret)
    → (o ≡ some (label, secret)) × (label ≢ []) × (secret ≢ [])
parse_pair→ none l s e = cc
parse_pair→ (some ([], k)) l s e = cc
parse_pair→ (some (c ∷ x, [])) l s e = cc
parse_pair→ (some (c ∷ x, d ∷ k)) l s e = (e, λ z. cc, λ z. cc)

→parse_pair :
    (label secret : Text)
    → label ≢ []
    → secret ≢ []
    → parse_pair (some (label, secret)) ≡ some (label, secret)
→parse_pair [] s x y = absurd (x refl)
→parse_pair (c ∷ l) [] x y = absurd (y refl)
→parse_pair (c ∷ l) (d ∷ s) x y = refl

pub entry_iff :
    (pair label secret : Text) → (entry pair ≡ some (label, secret)) ↔ Spells pair label secret
entry_iff pair label secret = (
  λ e.
      let (o, x, y) = parse_pair→ (cut_at colon (trim pair)) label secret e in
      let (p, q) = cut_at→ (trim pair) label secret o in (p, q, x, y),
  λ (p, q, x, y).
      ap (λ s. parse_pair (cut_at colon s)) p
      ∙ ap parse_pair (→cut_at label secret q)
      ∙ →parse_pair label secret x y,
)
