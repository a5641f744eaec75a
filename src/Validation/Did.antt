-- ===== src/Validation/Did.antt =====
-- The texts that are DIDs, and what a DID determines.
use a2a_agent_layer.Common.{
  ℕ, Bool, true, false, ◌≡◌, ◌≢◌, ◌↔◌, inl, inr, refl, sym, ◌∙◌, none, some, [], ◌∷◌, ◌++◌, all,
  All, Option-cases, Text, codes, ok, arith, append_assoc,
}
use a2a_agent_layer.Validation.{
  colon, is_method_char, is_identifier_char, strip, span, DidParts, all_of, exec_did, is_did,
  ParsedDid, transform_did, did_tail, did_method,
}

-- The two parts make up the DID, and each is a run of at least one character of its alphabet.
pub record IsDidOf (parts : DidParts) (value : Text) : Type 0 where
  pub text : value ≡ codes "did:" ++ (parts.method ++ colon ∷ parts.identifier)
  pub method_given : parts.method ≢ []
  pub method_chars : all is_method_char parts.method ≡ true
  pub identifier_given : parts.identifier ≢ []
  pub identifier_chars : all is_identifier_char parts.identifier ≡ true

strip-append : (p s : Text) → strip p (p ++ s) ≡ some s
unfolding strip
strip-append [] s = refl
strip-append (c ∷ p) s = ground (arith, strip-append p s)

strip-inv : (p s r : Text) → strip p s ≡ some r → s ≡ p ++ r
unfolding strip
strip-inv [] s r e = ground arith
strip-inv (c ∷ p) [] r e = cc
strip-inv (c ∷ p) (d ∷ s) r e = ground (arith, strip-inv p s r)

span-append :
    (test : ℕ → Bool) (u : Text) (c : ℕ) (s : Text)
    → all test u ≡ true
    → test c ≡ false
    → span test (u ++ c ∷ s) ≡ (u, c ∷ s)
unfolding span
span-append test [] c s h n = rw n
span-append test (d ∷ u) c s h n = ground (arith, span-append test u c s)

span_parts :
    (test : ℕ → Bool) (s : Text)
    → ((span test s).0 ++ (span test s).1 ≡ s) × (all test (span test s).0 ≡ true)
unfolding span
span_parts test [] = (refl, refl)
span_parts test (c ∷ s) = ground (arith, span_parts test s)

all_of_inv : (test : ℕ → Bool) (s : Text) → all_of test s ≡ true → (s ≢ []) × (all test s ≡ true)
all_of_inv test [] h = cc
all_of_inv test (c ∷ s) h = (λ e. cc, h)

did_tail-inv :
    (m r : Text) (p : DidParts)
    → did_tail m r ≡ some p
    → (p.method ≡ m) × (r ≡ colon ∷ p.identifier) × (all_of is_identifier_char p.identifier ≡ true)
did_tail-inv m [] p e = cc
did_tail-inv m (c ∷ i) p e = ground arith

did_method-inv :
    (w : Text × Text) (p : DidParts)
    → did_method w ≡ some p
    → (w.0 ≢ []) × (did_tail w.0 w.1 ≡ some p)
did_method-inv ([], r) p e = cc
did_method-inv (c ∷ m, r) p e = (λ h. cc, e)

exec_did-some :
    (value r : Text)
    → strip (codes "did:") value ≡ some r
    → exec_did value ≡ did_method (span is_method_char r)
unfolding exec_did
exec_did-some value r e = rw (e, exec_did)

exec_did-none : (value : Text) → strip (codes "did:") value ≡ none → exec_did value ≡ none
unfolding exec_did
exec_did-none value e = rw (e, exec_did)

did_method-append :
    (p : DidParts)
    → p.method ≢ []
    → p.identifier ≢ []
    → all is_identifier_char p.identifier ≡ true
    → did_method (p.method, colon ∷ p.identifier) ≡ some p
did_method-append p m i h = parts p.method p.identifier m i h
  where
    parts :
        (method identifier : Text)
        → method ≢ []
        → identifier ≢ []
        → all is_identifier_char identifier ≡ true
        → did_method (method, colon ∷ identifier)
          ≡ some (record { method = method; identifier = identifier })
    parts [] identifier m i h = absurd (m refl)
    parts (c ∷ method) [] m i h = absurd (i refl)
    parts (c ∷ method) (d ∷ identifier) m i h = rw h

module _ (value : Text) (p : DidParts) where
  exec_did-IsDidOf : exec_did value ≡ some p → IsDidOf p value
  exec_did-IsDidOf e = elim (Option-cases (strip (codes "did:") value)) [
    | inl missing ↦ absurd (cc (exec_did-none value missing))
    | inr (rest, found) ↦
        let (whole, chars) = span_parts is_method_char rest in
        let (given, tail) =
          did_method-inv (span is_method_char rest) p (sym (exec_did-some value rest found) ∙ e) in
        let (same, cut, ok_chars) = did_tail-inv _ (span is_method_char rest).1 p tail in
        let (i_given, i_chars) = all_of_inv is_identifier_char p.identifier ok_chars in
        record {
          text = rw (strip-inv (codes "did:") value rest found, ← whole, cut, ← same);
          method_given = rw same given;
          method_chars = rw same chars;
          identifier_given = i_given;
          identifier_chars = i_chars;
        }
  ]

  IsDidOf-exec_did : IsDidOf p value → exec_did value ≡ some p
  IsDidOf-exec_did d =
      exec_did-some value (p.method ++ colon ∷ p.identifier)
        (rw d.text (strip-append (codes "did:") (p.method ++ colon ∷ p.identifier)))
      ∙ rw (span-append is_method_char p.method colon p.identifier d.method_chars refl)
          (did_method-append p d.method_given d.identifier_given d.identifier_chars)

transform_did-some :
    (value : Text) (p : DidParts)
    → exec_did value ≡ some p
    → transform_did value
      ≡ ok (record { did = value; method = p.method; identifier = p.identifier })
unfolding transform_did
transform_did-some value p e = rw (e, transform_did)

transform_did-none :
    (value : Text) (d : ParsedDid) → exec_did value ≡ none → transform_did value ≢ ok d
unfolding transform_did
transform_did-none value d e h = cc (rw (e, transform_did) at h)

-- The pipe accepts exactly the DIDs, and returns the text unchanged with its two parts.
pub transform_did_iff :
    (value : Text) (d : ParsedDid)
    → (transform_did value ≡ ok d)
      ↔ ((d.did ≡ value) × IsDidOf (record { method = d.method; identifier = d.identifier }) value)
transform_did_iff value d = (
  λ e. elim (Option-cases (exec_did value)) [
    | inl missing ↦ absurd (transform_did-none value d missing e)
    | inr (p, found) ↦
        let same = sym (transform_did-some value p found) ∙ e in
        let same_did : d.did ≡ value = cc in
        let same_parts : p ≡ record { method = d.method; identifier = d.identifier } =
          ground arith in
        (same_did, rw (← same_parts) (exec_did-IsDidOf value p found))
  ],
  λ h. transform_did-some value _ (IsDidOf-exec_did value _ h.1) ∙ ground arith,
)

cut_colon :
    (x y r s : Text)
    → All (λ c. c ≢ colon) x
    → All (λ c. c ≢ colon) y
    → x ++ colon ∷ r ≡ y ++ colon ∷ s
    → (x ≡ y) × (r ≡ s)
cut_colon [] [] r s h k e = (refl, ground arith)
cut_colon [] (d ∷ y) r s h k e = absurd (k.0 (ground arith))
cut_colon (c ∷ x) [] r s h k e = absurd (h.0 (ground arith))
cut_colon (c ∷ x) (d ∷ y) r s h k e =
    let (p, q) = cut_colon x y r s h.1 k.1 (ground arith) in (ground arith, q)

method_no_colon : (s : Text) → all is_method_char s ≡ true → All (λ c. c ≢ colon) s
method_no_colon [] h = tt
method_no_colon (c ∷ s) h = (λ e. ground arith, method_no_colon s (ground arith))

identifier_no_colon : (s : Text) → all is_identifier_char s ≡ true → All (λ c. c ≢ colon) s
identifier_no_colon [] h = tt
identifier_no_colon (c ∷ s) h = (λ e. ground arith, identifier_no_colon s (ground arith))

is_did-none : (a : Text) → exec_did a ≡ none → is_did a ≡ false
unfolding is_did
is_did-none a e = rw (e, is_did)

is_did_parts : (a : Text) → is_did a ≡ true → (p : DidParts) × IsDidOf p a
is_did_parts a h = elim (Option-cases (exec_did a)) [
  | inl missing ↦ absurd (cc (is_did-none a missing))
  | inr (p, found) ↦ (p, exec_did-IsDidOf a p found)
]

prefix_inj : (x y : Text) → codes "did:" ++ x ≡ codes "did:" ++ y → x ≡ y
prefix_inj x y e = ground arith

-- What is joined to a DID by a colon can be taken apart again.
pub did-colon_inj :
    (a b n m : Text)
    → is_did a ≡ true
    → is_did b ≡ true
    → a ++ colon ∷ n ≡ b ++ colon ∷ m
    → (a ≡ b) × (n ≡ m)
did-colon_inj a b n m ha hb e =
    let (p, da) = is_did_parts a ha in
    let (q, db) = is_did_parts b hb in
    let joined = prefix_inj _ _ (rw (da.text, db.text) at e) in
    let regrouped : p.method ++ (colon ∷ (p.identifier ++ colon ∷ n))
        ≡ q.method ++ (colon ∷ (q.identifier ++ colon ∷ m)) =
      simp append_assoc at joined in
    let (methods, rests) =
      cut_colon _ _ _ _ (method_no_colon _ da.method_chars) (method_no_colon _ db.method_chars)
        regrouped in
    let (identifiers, tails) =
      cut_colon _ _ _ _ (identifier_no_colon _ da.identifier_chars)
        (identifier_no_colon _ db.identifier_chars) rests in
    (rw (da.text, db.text, methods, identifiers), tails)
