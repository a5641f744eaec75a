-- ===== src/Auth/ApiKeys/Laws.antt =====
-- Which keys are accepted.
use a2a_agent_layer.Common.{
  ℕ, All, ◌≡◌, ◌≢◌, ◌↔◌, ◌⊎◌, refl, sym, ◌∙◌, ap, inl, inr, Option, Option-cases, none, some, List,
  [], ◌∷◌, ◌++◌, if◌then◌else◌, get_or, Bool-cases, Text, text_eq, text_eq_iff, get, get-set,
}
use a2a_agent_layer.Common.Trim.{split_on}
use a2a_agent_layer.Auth.ApiKeys.Entries.{entry, Spells, entry_iff}
use a2a_agent_layer.Auth.ApiKeys.{
  ApiKeyIdentity, ApiKeyConfig, Keys, add_pair, add_pairs, load_keys, find_key, verify_key,
}

abbrev overrides : (Text → Text) → Text → Option (Text × Text) → Option Text → Option Text
overrides digest k none before = before
overrides digest k (some (label, secret)) before =
    if text_eq (digest secret) k then some label else before

-- The label of the last entry whose key has this digest, or else what was there before.
abbrev last_label : (Text → Text) → Text → List Text → Option Text → Option Text
last_label digest k [] before = before
last_label digest k (pair ∷ pairs) before =
    last_label digest k pairs (overrides digest k (entry pair) before)

abbrev identity_of : Option Text → Option ApiKeyIdentity
identity_of none = none
identity_of (some label) = some (record { label = label })

module _ (digest : Text → Text) where
  get-add_pair :
      (keys : Keys) (pair k : Text)
      → get (add_pair digest keys pair) k ≡ overrides digest k (entry pair) (get keys k)
  unfolding add_pair
  get-add_pair keys pair k = elim (Option-cases (entry pair)) [
    | inl e ↦ rw (e, add_pair)
    | inr ((label, secret), e) ↦ rw (e, add_pair) (get-set keys (digest secret) label k)
  ]

  get-add_pairs :
      (pairs : List Text) (keys : Keys) (k : Text)
      → get (add_pairs digest keys pairs) k ≡ last_label digest k pairs (get keys k)
  unfolding add_pairs
  get-add_pairs [] keys k = refl
  get-add_pairs (pair ∷ pairs) keys k =
      get-add_pairs pairs (add_pair digest keys pair) k
      ∙ ap (last_label digest k pairs) (get-add_pair keys pair k)

  find_key-get : (k : Text) (keys : Keys) → find_key digest k keys ≡ identity_of (get keys k)
  unfolding find_key get
  find_key-get k [] = refl
  find_key-get k ((known, label) ∷ keys) = elim (Bool-cases (text_eq known k)) [
    | inl h ↦ rw h
    | inr h ↦ rw h (find_key-get k keys)
  ]

module _ (digest : Text → Text) (k : Text) where
  -- The entry spells no key with this digest.
  abbrev pub Other : Text → Type 0
  Other pair = (label secret : Text) → Spells pair label secret → digest secret ≢ k

  -- The last entry with a key of this digest spells this label.
  abbrev pub IsLast : List Text → Text → Type 0
  IsLast pairs label =
      (before : List Text) × (pair : Text) × (after : List Text) × (secret : Text) × (pairs
        ≡ before ++ (pair ∷ after))
      × Spells pair label secret
      × (digest secret ≡ k)
      × All Other after

  Other-overrides :
      (pair : Text) (before : Option Text)
      → Other pair
      → overrides digest k (entry pair) before ≡ before
  Other-overrides pair before o = elim (Option-cases (entry pair)) [
    | inl e ↦ rw e
    | inr ((label, secret), e) ↦ elim (Bool-cases (text_eq (digest secret) k)) [
      | inl h ↦
          absurd (
            o label secret ((entry_iff pair label secret).0 e)
              ((text_eq_iff (digest secret) k).0 h))
      | inr h ↦ rw (e, h)
    ]
  ]

  Other-last_label :
      (pairs : List Text) (before : Option Text)
      → All Other pairs
      → last_label digest k pairs before ≡ before
  Other-last_label [] before o = refl
  Other-last_label (pair ∷ pairs) before (o, rest) =
      Other-last_label pairs (overrides digest k (entry pair) before) rest
      ∙ Other-overrides pair before o

  IsLast-last_label :
      (before : List Text) (pair : Text) (after : List Text) (label secret : Text)
      (start : Option Text)
      → Spells pair label secret
      → digest secret ≡ k
      → All Other after
      → last_label digest k (before ++ (pair ∷ after)) start ≡ some label
  IsLast-last_label [] pair after label secret start p d o =
      Other-last_label after (overrides digest k (entry pair) start) o
      ∙ rw ((entry_iff pair label secret).1 p, (text_eq_iff (digest secret) k).1 d)
  IsLast-last_label (x ∷ before) pair after label secret start p d o =
      IsLast-last_label before pair after label secret (overrides digest k (entry x) start) p d o

  overrides→ :
      (pair label : Text) (start : Option Text)
      → overrides digest k (entry pair) start ≡ some label
      → ((secret : Text) × Spells pair label secret × (digest secret ≡ k))
        ⊎ ((start ≡ some label) × Other pair)
  overrides→ pair label start e = elim (Option-cases (entry pair)) [
    | inl n ↦ inr (rw n at e, λ l s p d. absurd (cc ((entry_iff pair l s).1 p)))
    | inr ((l, secret), f) ↦ elim (Bool-cases (text_eq (digest secret) k)) [
      | inl h ↦
          let made : some l ≡ some label = rw (f, h) at e in
          let same : l ≡ label = cc in
          inl (secret, rw (← same) ((entry_iff pair l secret).0 f), (text_eq_iff _ _).0 h)
      | inr h ↦ inr (
        rw (f, h) at e,
        λ x s p d.
            let found = (entry_iff pair x s).1 p in
            let same : secret ≡ s = cc in
            absurd (cc ((text_eq_iff (digest secret) k).1 (ap digest same ∙ d))),
      )
    ]
  ]

  label_found→ :
      (pairs : List Text) (start : Option Text) (label : Text)
      → last_label digest k pairs start ≡ some label
      → IsLast pairs label ⊎ ((start ≡ some label) × All Other pairs)
  label_found→ [] start label e = inr (e, tt)
  label_found→ (pair ∷ pairs) start label e =
      elim (label_found→ pairs (overrides digest k (entry pair) start) label e) [
        | inl (before, p, after, secret, same, s, d, o) ↦
            inl (pair ∷ before, p, after, secret, ap (λ x. pair ∷ x) same, s, d, o)
        | inr (now, others) ↦ elim (overrides→ pair label start now) [
          | inl (secret, p, d) ↦ inl ([], pair, pairs, secret, refl, p, d, others)
          | inr (s, o) ↦ inr (s, (o, others))
        ]
      ]

  last_label_iff :
      (pairs : List Text) (label : Text)
      → (last_label digest k pairs none ≡ some label) ↔ IsLast pairs label
  last_label_iff pairs label = (
    λ e. elim (label_found→ pairs none label e) [ inl l ↦ l | inr (z, o) ↦ absurd (cc) ],
    λ (before, pair, after, secret, same, p, d, o).
        rw same (IsLast-last_label before pair after label secret none p d o),
  )

abbrev labelled : Option ApiKeyIdentity → Option Text
labelled none = none
labelled (some who) = some who.label

identity_of_iff :
    (o : Option Text) (label : Text)
    → (identity_of o ≡ some (record { label = label })) ↔ (o ≡ some label)
identity_of_iff none label = (λ e. cc, λ e. cc)
identity_of_iff (some l) label = (λ e. ap labelled e, λ e. ap identity_of e)

-- A key that is not empty is accepted under a label exactly if the last entry of the configuration that
-- spells a key with its digest spells this label; an entry spells a label and a key if, trimmed, it is
-- the label, the first colon in it and the key, neither of them empty.
pub verify_key-load_keys :
    (digest : Text → Text) (config : ApiKeyConfig) (c : ℕ) (s : Text) (label : Text)
    → (verify_key digest (some (c ∷ s)) (load_keys digest config) ≡ some (record { label = label }))
      ↔ IsLast digest (digest (c ∷ s)) (split_on b',' (get_or config.raw [])) label
unfolding verify_key load_keys get
verify_key-load_keys digest config c s label =
    let k = digest (c ∷ s) in
    let pairs = split_on b',' (get_or config.raw []) in
    let same : verify_key digest (some (c ∷ s)) (load_keys digest config)
        ≡ identity_of (last_label digest k pairs none) =
      find_key-get digest k (load_keys digest config)
      ∙ ap identity_of (get-add_pairs digest pairs [] k) in
    let identity = identity_of_iff (last_label digest k pairs none) label in
    let last = last_label_iff digest k pairs label in
    (λ e. last.0 (identity.0 (sym same ∙ e)), λ l. same ∙ identity.1 (last.1 l))
