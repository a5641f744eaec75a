-- ===== src/Middleware/Csrf/Tokens.antt =====
-- Which tokens are valid, and that the minted ones are.
use a2a_agent_layer.Common.{
  ℕ, ◌+◌, ◌-◌, ◌≤◌, leb, leb→le, ◌==◌, true, not, ◌≡◌, ◌≢◌, ◌↔◌, refl, sym, ap, ◌∙◌, inl, inr,
  Bool-cases, Option, none, some, List, [], ◌∷◌, ◌++◌, all, is_digit, Text, text_eq, text_eq_iff,
  text_eq_refl, arith,
}
use a2a_agent_layer.Common.Decimal.{show_ℕ}
use a2a_agent_layer.Common.Trim.{split_on}
use a2a_agent_layer.Common.Trim.Laws.{split_on-whole, split_on-part}
use a2a_agent_layer.Config.{Parsed, nan, plus, minus, parse_number}
use a2a_agent_layer.Config.Numbers.{all-show_ℕ, show_ℕ_nonempty, parse_number-show_ℕ}
use a2a_agent_layer.Middleware.Csrf.{
  CsrfConfig, Crypto, age_of, is_recent, three_parts, sign, mint, parts_valid, is_valid,
}

-- A part of a token: not empty, and without a dot.
abbrev pub IsPart : Text → Type 0
IsPart s = (s ≢ []) × (all (λ c. not (c == b'.')) s ≡ true)

digits_undotted : (s : Text) → all is_digit s ≡ true → all (λ c. not (c == b'.')) s ≡ true
digits_undotted [] h = refl
digits_undotted (c ∷ s) h = ground (arith, digits_undotted s)

three_parts-cons :
    (a b c : Text) (rest : List Text)
    → a ≢ []
    → b ≢ []
    → c ≢ []
    → three_parts (a ∷ b ∷ c ∷ rest) ≡ some (a, b, c)
three_parts-cons [] b c rest x y z = absurd (x refl)
three_parts-cons (p ∷ a) [] c rest x y z = absurd (y refl)
three_parts-cons (p ∷ a) (q ∷ b) [] rest x y z = absurd (z refl)
three_parts-cons (p ∷ a) (q ∷ b) (r ∷ c) rest x y z = refl

three_parts→ :
    {a b c : Text} (parts : List Text)
    → three_parts parts ≡ some (a, b, c)
    → (rest : List Text) × (parts ≡ a ∷ b ∷ c ∷ rest) × (a ≢ []) × (b ≢ []) × (c ≢ [])
three_parts→ ((p ∷ a) ∷ (q ∷ b) ∷ (r ∷ c) ∷ rest) e = (rest, cc, λ z. cc, λ z. cc, λ z. cc)
three_parts→ [] e = cc
three_parts→ ([] ∷ parts) e = cc
three_parts→ ((p ∷ a) ∷ []) e = cc
three_parts→ ((p ∷ a) ∷ [] ∷ parts) e = cc
three_parts→ ((p ∷ a) ∷ (q ∷ b) ∷ []) e = cc
three_parts→ ((p ∷ a) ∷ (q ∷ b) ∷ [] ∷ parts) e = cc

module _ (crypto : Crypto) (config : CsrfConfig) where
  -- A time of issue that is not ahead of the clock, and behind it by no more than the time to live.
  abbrev pub Recent : ℕ → Parsed → Type 0
  Recent now nan = ⊥
  Recent now (plus t) = (t ≤ now) × (now ≤ t + config.ttl_ms)
  Recent now (minus t) = now + t ≤ config.ttl_ms

  -- A valid token: between its dots stand a nonce, a time of issue and the signature of both, none of
  -- them empty, and the time of issue is recent. What stands behind a third dot does not matter.
  abbrev pub IsGenuine : ℕ → Text → Type 0
  IsGenuine now token =
      (nonce : Text) × (issued_at : Text) × (rest : List Text) × (split_on b'.' token
        ≡ nonce ∷ issued_at ∷ sign crypto config nonce issued_at ∷ rest)
      × (nonce ≢ [])
      × (issued_at ≢ [])
      × (sign crypto config nonce issued_at ≢ [])
      × Recent now (parse_number issued_at)

  is_recent→ : (now : ℕ) (p : Parsed) → is_recent config.ttl_ms (age_of now p) ≡ true → Recent now p
  is_recent→ now nan h = cc
  is_recent→ now (plus t) h = elim (Bool-cases (leb t now)) [
    | inl le ↦
        let same : age_of now (plus t) ≡ some (now - t) = rw le refl in
        let young = leb→le (now - t) config.ttl_ms (ap (is_recent config.ttl_ms) (sym same) ∙ h) in
        (leb→le t now le, omega (arith, young))
    | inr gt ↦
        let same : age_of now (plus t) ≡ none = rw gt refl in
        let z = ap (is_recent config.ttl_ms) (sym same) ∙ h in cc
  ]
  is_recent→ now (minus t) h = leb→le (now + t) config.ttl_ms h

  Recent→ : (now : ℕ) (p : Parsed) → Recent now p → is_recent config.ttl_ms (age_of now p) ≡ true
  Recent→ now nan z = absurd z
  Recent→ now (plus t) (le, young) =
      let below : leb t now ≡ true = ground arith in
      let small : leb (now - t) config.ttl_ms ≡ true = ground arith in rw below small
  Recent→ now (minus t) young = ground arith

  parts_valid→ :
      (now : ℕ) (token : Text) (o : Option (Text × Text × Text))
      → three_parts (split_on b'.' token) ≡ o
      → parts_valid crypto config now o ≡ true
      → IsGenuine now token
  parts_valid→ now token none e h = cc
  parts_valid→ now token (some (nonce, issued_at, mac)) e h =
      let recent : is_recent config.ttl_ms (age_of now (parse_number issued_at)) ≡ true =
        ground arith in
      let signed : text_eq mac (sign crypto config nonce issued_at) ≡ true = ground arith in
      let same = (text_eq_iff mac (sign crypto config nonce issued_at)).0 signed in
      let (rest, parts, x, y, z) = three_parts→ (split_on b'.' token) e in
      (
        nonce,
        issued_at,
        rest,
        rw⁻¹ same parts,
        x,
        y,
        rw⁻¹ same z,
        is_recent→ now (parse_number issued_at) recent,
      )

  genuine_valid :
      (now : ℕ) (token : Text) → IsGenuine now token → is_valid crypto config now token ≡ true
  unfolding is_valid
  genuine_valid now token (nonce, issued_at, rest, e, x, y, z, r) =
      let mac = sign crypto config nonce issued_at in
      let parts = ap three_parts e ∙ three_parts-cons nonce issued_at mac rest x y z in
      let recent = Recent→ now (parse_number issued_at) r in
      rw parts (rw (recent, text_eq_refl mac) refl)

  pub is_valid_iff :
      (now : ℕ) (token : Text) → (is_valid crypto config now token ≡ true) ↔ IsGenuine now token
  unfolding is_valid
  is_valid_iff now token =
      (parts_valid→ now token (three_parts (split_on b'.' token)) refl, genuine_valid now token)

  split_on-mint :
      (nonce : Text) (at : ℕ)
      → IsPart nonce
      → IsPart (sign crypto config nonce (show_ℕ at))
      → split_on b'.' (mint crypto config nonce at)
        ≡ nonce ∷ show_ℕ at ∷ sign crypto config nonce (show_ℕ at) ∷ []
  unfolding mint
  split_on-mint nonce at n m =
      let mac = sign crypto config nonce (show_ℕ at) in
      rw (split_on-part b'.' nonce (show_ℕ at ++ (b'.' ∷ mac)) n.1) (
        rw (split_on-part b'.' (show_ℕ at) mac (digits_undotted (show_ℕ at) (all-show_ℕ at)))
          (rw (split_on-whole b'.' mac m.1) refl))

  pub mint-IsGenuine :
      (nonce : Text) (at now : ℕ)
      → IsPart nonce
      → IsPart (sign crypto config nonce (show_ℕ at))
      → at ≤ now
      → now ≤ at + config.ttl_ms
      → IsGenuine now (mint crypto config nonce at)
  mint-IsGenuine nonce at now n m a b = (
    nonce,
    show_ℕ at,
    [],
    split_on-mint nonce at n m,
    n.0,
    show_ℕ_nonempty at,
    m.0,
    rw (parse_number-show_ℕ at) (a, b),
  )
