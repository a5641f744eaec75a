-- ===== src/Identity/Claim/Laws.antt =====
-- What a registration message binds.
use a2a_agent_layer.Common.{
  ◌≡◌, ◌≢◌, refl, sym, ◌∙◌, ap, [], ◌∷◌, ◌++◌, All, append_assoc, Text, codes, lower_case,
}
use a2a_agent_layer.Identity.Claim.{RegistrationClaim, join_lines, build_registration_message}

abbrev pub OneLine : Text → Type 0
OneLine s = All (λ c. c ≢ 10) s

-- A text without a line break can be told from what follows the break.
line_inj : (s t u v : Text) → OneLine s → OneLine t → s ++ 10 ∷ u ≡ t ++ 10 ∷ v → (s ≡ t) × (u ≡ v)
line_inj [] [] u v p q e = (refl, cc)
line_inj [] (d ∷ t) u v p q e = absurd (q.0 (cc))
line_inj (c ∷ s) [] u v p q e = absurd (p.0 (cc))
line_inj (c ∷ s) (d ∷ t) u v p q e = let (h, r) = line_inj s t u v p.1 q.1 (cc) in (cc, r)

prefix_inj : (p s t : Text) → p ++ s ≡ p ++ t → s ≡ t
prefix_inj [] s t e = e
prefix_inj (c ∷ p) s t e = prefix_inj p s t (cc)

-- The message, line by line.
message-lines :
    (c : RegistrationClaim)
    → build_registration_message c
      ≡ codes "PROM agent registration\ndid: "
        ++ (c.agent_did
            ++ 10
              ∷ (codes "owner: "
                  ++ (lower_case c.owner
                      ++ 10
                        ∷ (codes "publicKey: "
                            ++ (c.public_key ++ 10 ∷ (codes "endpoint: " ++ c.endpoint))))))
unfolding build_registration_message join_lines
message-lines c = refl

-- Two claims whose DIDs, owners and public keys have no line break in them have the same message only
-- if they agree in every field, up to the case of the owner's address.
pub build_registration_message-inj :
    (c d : RegistrationClaim)
    → OneLine c.agent_did
    → OneLine d.agent_did
    → OneLine (lower_case c.owner)
    → OneLine (lower_case d.owner)
    → OneLine c.public_key
    → OneLine d.public_key
    → build_registration_message c ≡ build_registration_message d
    → (c.agent_did ≡ d.agent_did)
      × (lower_case c.owner ≡ lower_case d.owner)
      × (c.public_key ≡ d.public_key)
      × (c.endpoint ≡ d.endpoint)
build_registration_message-inj c d p p' q q' r r' e =
    let e₁ =
      prefix_inj (codes "PROM agent registration\ndid: ") _ _
        (sym (message-lines c) ∙ e ∙ message-lines d) in
    let (same_did, e₂) = line_inj c.agent_did d.agent_did _ _ p p' e₁ in
    let (same_owner, e₃) =
      line_inj (lower_case c.owner) (lower_case d.owner) _ _ q q'
        (prefix_inj (codes "owner: ") _ _ e₂) in
    let (same_key, e₄) =
      line_inj c.public_key d.public_key _ _ r r' (prefix_inj (codes "publicKey: ") _ _ e₃) in
    (same_did, same_owner, same_key, prefix_inj (codes "endpoint: ") _ _ e₄)

abbrev pub break : Text
break = 10 ∷ codes "endpoint: "

-- A line break in the public key or the endpoint lets text move from one to the other: a claim whose
-- public key ends in an endpoint line has the message of the claim whose endpoint starts with it.
pub build_registration_message_shift :
    (agent_did owner a b e : Text)
    → build_registration_message (record {
      agent_did = agent_did;
      owner = owner;
      public_key = a ++ (break ++ b);
      endpoint = e;
    })
      ≡ build_registration_message (record {
        agent_did = agent_did;
        owner = owner;
        public_key = a;
        endpoint = b ++ (break ++ e);
      })
unfolding build_registration_message
build_registration_message_shift agent_did owner a b e =
    ap
      (λ s.
        codes "PROM agent registration\ndid: "
        ++ (agent_did
            ++ 10 ∷ (codes "owner: " ++ (lower_case owner ++ 10 ∷ (codes "publicKey: " ++ s)))))
      (append_assoc a (break ++ b) (break ++ e))
