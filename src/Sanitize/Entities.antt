-- ===== src/Sanitize/Entities.antt =====
-- A tag that is written with entities comes out as a tag.
use a2a_agent_layer.Common.{
  ℕ, ◌+◌, ◌==◌, Bool, true, false, Bool-cases, ◌≡◌, refl, ap, ◌∙◌, Option, none, inl, inr, [], ◌∷◌,
  ◌++◌, any, length, if◌then◌else◌, lower_case, text_eq, Text, codes, arith,
}
use a2a_agent_layer.Common.Trim.{is_space}
use a2a_agent_layer.Validation.{span}
use a2a_agent_layer.Blockchain.Retry.{starts_with}
use a2a_agent_layer.Sanitize.{
  Matcher, replace_matches, replace_all, tag, literal, literal_any_case, is_word, equals_sign,
  word_equals, handler, strip_html,
}
use a2a_agent_layer.Sanitize.Laws.{replace_matches_free, replace_matches-append}

abbrev Lacks : ℕ → Text → Type 0
Lacks k s = any (λ c. c == k) s ≡ false

tag_free : (s : Text) → Lacks b'<' s → tag s ≡ none
unfolding tag
tag_free [] e = refl
tag_free (c ∷ s) e = ground arith

-- A literal starts with its first character.
literal_first :
    (k : ℕ) (p : Text) (c : ℕ) (t : Text) → (c == k) ≡ false → literal (k ∷ p) (c ∷ t) ≡ none
unfolding literal starts_with
literal_first k p c t e = let f : (k == c) ≡ false = ground arith in rw f refl

-- What a literal holds is in each text that starts with it.
starts_with-any :
    (k : ℕ) (p s : Text) → any (λ c. c == k) p ≡ true → Lacks k s → starts_with p s ≡ false
unfolding starts_with
starts_with-any k [] s h e = cc
starts_with-any k (c ∷ p) [] h e = refl
starts_with-any k (c ∷ p) (d ∷ s) h e = ground (arith, starts_with-any k p s)

lower_case_colon : (s : Text) → Lacks b':' s → Lacks b':' (lower_case s)
unfolding lower_case
lower_case_colon [] e = refl
lower_case_colon (c ∷ s) e = ground (arith, lower_case_colon s)

script_free : (s : Text) → Lacks b':' s → literal_any_case (codes "javascript:") s ≡ none
unfolding literal_any_case literal
script_free s e =
    let f = starts_with-any b':' (codes "javascript:") (lower_case s) refl (lower_case_colon s e) in
    rw f refl

span_rest : (k : ℕ) (test : ℕ → Bool) (s : Text) → Lacks k s → Lacks k (span test s).1
unfolding span
span_rest k test [] e = refl
span_rest k test (c ∷ s) e = elim (Bool-cases (test c)) [
  | inl h ↦ rw h (span_rest k test s (ground arith))
  | inr h ↦ rw h e
]

equals_free : (n : ℕ) (s : Text) → Lacks b'=' s → equals_sign n s ≡ none
equals_free n [] e = refl
equals_free n (c ∷ s) e = ground arith

word_free : (p : Text × Text) → Lacks b'=' p.1 → word_equals p ≡ none
word_free ([], rest) e = refl
word_free (c ∷ w, rest) e =
    equals_free (length (c ∷ w) + length (span is_space rest).0) (span is_space rest).1
      (span_rest b'=' is_space rest e)

handler_free : (s : Text) → Lacks b'=' s → handler s ≡ none
unfolding handler
handler_free [] e = refl
handler_free (c ∷ []) e = refl
handler_free (c ∷ d ∷ s) e =
    let f = word_free (span is_word s) (span_rest b'=' is_word s (ground arith)) in
    rw f (both_none (text_eq (lower_case (c ∷ d ∷ [])) (codes "on")))
  where
    both_none : (b : Bool) → (if◌then◌else◌ {A = Option ℕ} b none none) ≡ none
    both_none true = refl
    both_none false = refl

literal_free : (k : ℕ) (p s : Text) → Lacks k s → literal (k ∷ p) s ≡ none
unfolding literal starts_with
literal_free k p [] e = refl
literal_free k p (c ∷ s) e = literal_first k p c s (ground arith)

Lacks-append : (k : ℕ) (s t : Text) → Lacks k s → Lacks k t → Lacks k (s ++ t)
Lacks-append k [] t e f = f
Lacks-append k (c ∷ s) t e f = ground (arith, Lacks-append k s t)

-- A text with nothing that the pipe looks for.
abbrev pub IsPlain : Text → Type 0
IsPlain s = Lacks b'<' s × Lacks b'>' s × Lacks b'&' s × Lacks b':' s × Lacks b'=' s

open_entity :
    (s : Text)
    → Lacks b'&' s
    → replace_all (literal (codes "&lt;")) (codes "<") (codes "&lt;" ++ (s ++ codes "&gt;"))
      ≡ (b'<' ∷ s) ++ codes "&gt;"
unfolding replace_all replace_matches literal starts_with
open_entity s e =
    ap (λ x. b'<' ∷ x)
      (replace_matches-append b'&' (literal (codes "&lt;")) (codes "<")
        (literal_first b'&' (codes "lt;")) s (codes "&gt;") e)

close_entity :
    (s : Text)
    → Lacks b'&' s
    → replace_all (literal (codes "&gt;")) (codes ">") (s ++ codes "&gt;") ≡ s ++ codes ">"
unfolding replace_all replace_matches literal starts_with
close_entity s e =
    replace_matches-append b'&' (literal (codes "&gt;")) (codes ">")
      (literal_first b'&' (codes "gt;")) s (codes "&gt;") e

free_all :
    (k : ℕ) (m : Matcher) (r s : Text)
    → ((t : Text) → Lacks k t → m t ≡ none)
    → Lacks k s
    → replace_all m r s ≡ s
unfolding replace_all
free_all k m r s f e = replace_matches_free (λ c. c == k) m r f s e

-- A plain text between the entities of angle brackets comes out between angle brackets: what the
-- replacements make of the entities is not looked at again.
pub strip_html-entities :
    (s : Text)
    → IsPlain s
    → strip_html (codes "&lt;" ++ (s ++ codes "&gt;")) ≡ codes "<" ++ (s ++ codes ">")
unfolding strip_html
strip_html-entities s (lt, gt, amp, colon, equals) =
    let out = (b'<' ∷ s) ++ codes ">" in
    let lacks : (k : ℕ) → (b'<' == k) ≡ false → (b'>' == k) ≡ false → Lacks k s → Lacks k out =
      λ k a b e. Lacks-append k (b'<' ∷ s) (codes ">") (ground arith) (ground arith) in
    let handlers : Text → Text = replace_all handler [] in
    let scripts : Text → Text = replace_all (literal_any_case (codes "javascript:")) [] in
    let ampersands : Text → Text = replace_all (literal (codes "&amp;")) (codes "&") in
    let closing : Text → Text = replace_all (literal (codes "&gt;")) (codes ">") in
    let opening : Text → Text = replace_all (literal (codes "&lt;")) (codes "<") in
    ap (λ x. handlers (scripts (ampersands (closing (opening x)))))
      (free_all b'<' tag [] (codes "&lt;" ++ (s ++ codes "&gt;")) tag_free
        (Lacks-append b'<' s (codes "&gt;") lt refl))
    ∙ ap (λ x. handlers (scripts (ampersands (closing x)))) (open_entity s amp)
    ∙ ap (λ x. handlers (scripts (ampersands x))) (close_entity (b'<' ∷ s) amp)
    ∙ ap (λ x. handlers (scripts x))
        (free_all b'&' (literal (codes "&amp;")) (codes "&") out (literal_free b'&' (codes "amp;"))
          (lacks b'&' refl refl amp))
    ∙ ap handlers (
        free_all b':' (literal_any_case (codes "javascript:")) [] out script_free
          (lacks b':' refl refl colon))
    ∙ free_all b'=' handler [] out handler_free (lacks b'=' refl refl equals)
