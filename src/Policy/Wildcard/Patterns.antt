-- ===== src/Policy/Wildcard/Patterns.antt =====
-- Two common kinds of pattern: a literal text, and a prefix that ends in a star.
use a2a_agent_layer.Common.{
  ℕ, true, ◌≡◌, ◌≢◌, ◌↔◌, inl, inr, refl, ap, [], ◌∷◌, ◌++◌, All, Text, codes, arith,
}
use a2a_agent_layer.Policy.Wildcard.{star, match_wildcard}
use a2a_agent_layer.Policy.Wildcard.Spec.{IsPlain, Matches, empty, char, leave, take}
use a2a_agent_layer.Policy.Wildcard.Laws.{match_wildcard_iff}

abbrev pub NoStar : Text → Type 0
NoStar s = All (λ c. c ≢ star) s

Matches-nil : {t : Text} → Matches [] t → t ≡ []
Matches-nil empty = refl

run-IsPlain : {c : ℕ} {t : Text} → c ≡ star → Matches (c ∷ []) t → All IsPlain t
run-IsPlain e (char n d) = absurd (n e)
run-IsPlain e (leave f d) = rw (Matches-nil d) tt
run-IsPlain e (take f p d) = (p, run-IsPlain e d)

run-Matches : (t : Text) → All IsPlain t → Matches (star ∷ []) t
run-Matches [] h = leave refl empty
run-Matches (c ∷ t) h = take refl h.0 (run-Matches t h.1)

Matches-prefix : (s p t : Text) → NoStar s → Matches p t → Matches (s ++ p) (s ++ t)
Matches-prefix [] p t n d = d
Matches-prefix (c ∷ s) p t n d = char n.0 (Matches-prefix s p t n.1 d)

prefix-inv :
    (s p v : Text) → NoStar s → Matches (s ++ p) v → (t : Text) × (v ≡ s ++ t) × Matches p t
prefix-inv [] p v n d = (v, refl, d)
prefix-inv (c ∷ s) p _ n (char {s = v} m d) =
    let (t, e, r) = prefix-inv s p v n.1 d in (t, ap (◌∷◌ c) e, r)
prefix-inv (c ∷ s) p v n (leave e d) = absurd (n.0 e)
prefix-inv (c ∷ s) p v n (take e q d) = absurd (n.0 e)

-- A pattern that is a prefix of at least one character, with no star in it, and a star at the end
-- matches exactly the values that continue the prefix by characters that are no line terminators.
-- The continuation may hold further `:` segments.
pub match_wildcard-prefix :
    (s v : Text)
    → s ≢ []
    → NoStar s
    → (match_wildcard (s ++ star ∷ []) v ≡ true) ↔ ((t : Text) × (v ≡ s ++ t) × All IsPlain t)
match_wildcard-prefix [] v ne n = absurd (ne refl)
match_wildcard-prefix (c ∷ s) v ne n = (
  λ h. elim ((match_wildcard_iff (c ∷ s ++ star ∷ []) v).0 h) [
    | inl e ↦ absurd (n.0 (ground arith))
    | inr d ↦ let (t, e, r) = prefix-inv (c ∷ s) (star ∷ []) v n d in (t, e, run-IsPlain refl r)
  ],
  λ w.
      (match_wildcard_iff (c ∷ s ++ star ∷ []) v).1
        (inr (rw w.1 (Matches-prefix (c ∷ s) (star ∷ []) w.0 n (run-Matches w.0 w.2)))),
)

literal-inv : (p v : Text) → NoStar p → Matches p v → v ≡ p
literal-inv [] v n d = Matches-nil d
literal-inv (c ∷ p) _ n (char {s = v} m d) = ap (◌∷◌ c) (literal-inv p v n.1 d)
literal-inv (c ∷ p) v n (leave e d) = absurd (n.0 e)
literal-inv (c ∷ p) v n (take e q d) = absurd (n.0 e)

literal-Matches : (p : Text) → NoStar p → Matches p p
literal-Matches [] n = empty
literal-Matches (c ∷ p) n = char n.0 (literal-Matches p n.1)

-- A pattern with no star matches itself and nothing else, whatever regular expression syntax it holds.
pub match_wildcard-literal : (p v : Text) → NoStar p → (match_wildcard p v ≡ true) ↔ (v ≡ p)
match_wildcard-literal p v n = (
  λ h. elim ((match_wildcard_iff p v).0 h) [
    | inl e ↦ absurd (no_star p n e)
    | inr d ↦ literal-inv p v n d
  ],
  λ e. (match_wildcard_iff p v).1 (inr (rw e (literal-Matches p n))),
)
  where
    no_star : (q : Text) → NoStar q → ¬ (q ≡ codes "*")
    no_star [] m e = cc
    no_star (c ∷ q) m e = m.0 (ground arith)
