-- ===== src/Sanitize/Laws.antt =====
-- What a replacement leaves as it is, and that no tag is left.
use a2a_agent_layer.Common.{
  ℕ, zero, suc, ◌==◌, Bool, true, false, ◌&&◌, ◌||◌, ◌≡◌, refl, ap, Option-cases, none, inl, inr,
  [], ◌∷◌, ◌++◌, any, Text, arith,
}
use a2a_agent_layer.Sanitize.{Matcher, replace_matches, replace_all, index_of_gt, tag}

-- Somewhere a `<` stands before a `>`.
abbrev pub has_tag : Text → Bool
has_tag [] = false
has_tag (c ∷ s) = ((c == b'<') && any (λ d. d == b'>') s) || has_tag s

no_gt : (s : Text) → index_of_gt s ≡ none → any (λ d. d == b'>') s ≡ false
unfolding index_of_gt
no_gt [] e = refl
no_gt (c ∷ s) e = ground (arith, no_gt s)

no_gt_after :
    (c : ℕ) (s : Text) → tag (c ∷ s) ≡ none → ((c == b'<') && any (λ d. d == b'>') s) ≡ false
unfolding tag
no_gt_after c s e = ground (arith, no_gt s)

-- A replacement by nothing brings in no character.
any_removed :
    (p : ℕ → Bool) (m : Matcher) (s : Text) (skip : ℕ)
    → any p s ≡ false
    → any p (replace_matches m [] skip s) ≡ false
unfolding replace_matches
any_removed p m [] skip e = refl
any_removed p m (c ∷ s) (suc skip) e = any_removed p m s skip (ground arith)
any_removed p m (c ∷ s) zero e =
    let head : p c ≡ false = ground arith in
    let others : any p s ≡ false = ground arith in
    elim (Option-cases (m (c ∷ s))) [
      | inl h ↦ rw (h, head) (any_removed p m s zero others)
      | inr (more, h) ↦ rw h (any_removed p m s more others)
    ]

tags_removed : (s : Text) (skip : ℕ) → has_tag (replace_matches tag [] skip s) ≡ false
unfolding replace_matches
tags_removed [] skip = refl
tags_removed (c ∷ s) (suc skip) = tags_removed s skip
tags_removed (c ∷ s) zero = elim (Option-cases (tag (c ∷ s))) [
  | inr (more, h) ↦ rw h (tags_removed s more)
  | inl h ↦
      let rest = replace_matches tag [] zero s in
      rw h (
        no_tag_before (c == b'<') (any (λ d. d == b'>') rest) (has_tag rest)
          (before (c == b'<') s (no_gt_after c s h)) (tags_removed s zero))
]
  where
    no_tag_before : (b x y : Bool) → (b && x) ≡ false → y ≡ false → ((b && x) || y) ≡ false
    no_tag_before b x y e f = ground arith

    before :
        (b : Bool) (s : Text)
        → (b && any (λ d. d == b'>') s) ≡ false
        → (b && any (λ d. d == b'>') (replace_matches tag [] zero s)) ≡ false
    before true s e = any_removed (λ d. d == b'>') tag s zero e
    before false s e = refl

-- After the first of the replacements no `<` is left with a `>` behind it.
pub replace_all-tag : (s : Text) → has_tag (replace_all tag [] s) ≡ false
unfolding replace_all
replace_all-tag s = tags_removed s zero

-- Where a matcher needs a character, a text without it stays as it is.
pub replace_matches_free :
    (p : ℕ → Bool) (m : Matcher) (r : Text)
    → ((t : Text) → any p t ≡ false → m t ≡ none)
    → (s : Text) → any p s ≡ false
    → replace_matches m r zero s ≡ s
unfolding replace_matches
replace_matches_free p m r f [] e = refl
replace_matches_free p m r f (c ∷ s) e =
    let others : any p s ≡ false = ground arith in
    rw (f (c ∷ s) e) (ap (λ x. c ∷ x) (replace_matches_free p m r f s others))

-- Where a matcher needs a first character, what is before such a character stays as it is.
pub replace_matches-append :
    (k : ℕ) (m : Matcher) (r : Text)
    → ((c : ℕ) (t : Text) → (c == k) ≡ false → m (c ∷ t) ≡ none)
    → (s t : Text) → any (λ c. c == k) s ≡ false
    → replace_matches m r zero (s ++ t) ≡ s ++ replace_matches m r zero t
unfolding replace_matches
replace_matches-append k m r f [] t e = refl
replace_matches-append k m r f (c ∷ s) t e =
    let first : (c == k) ≡ false = ground arith in
    let others : any (λ c. c == k) s ≡ false = ground arith in
    rw (f c (s ++ t) first) (ap (λ x. c ∷ x) (replace_matches-append k m r f s t others))
