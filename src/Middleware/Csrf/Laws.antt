-- ===== src/Middleware/Csrf/Laws.antt =====
-- Which requests pass, and that a token that was handed out is accepted.
use a2a_agent_layer.Common.{
  ℕ, ◌+◌, ◌≤◌, true, Bool-cases, ◌&&◌, ◌≢◌, sym, ap, ◌∙◌, is_some, codes, ◌≡◌, ◌↔◌, ◌⊎◌, inl, inr,
  refl, Option, none, some, [], ◌∷◌, Text, text_eq, text_eq_iff, ok, arith,
}
use mathlib.Core.Path.{subst}
use a2a_agent_layer.Common.Decimal.{show_ℕ}
use a2a_agent_layer.Common.Trim.{split_on}
use a2a_agent_layer.Config.{given}
use a2a_agent_layer.Middleware.Csrf.{
  CsrfConfig, Crypto, Request, Response, Readings, is_safe, is_exempt, sign, mint, is_valid,
  read_cookie, check_tokens, check_request, needs_token, use_csrf,
}
use a2a_agent_layer.Middleware.Csrf.Tokens.{IsPart, IsGenuine, is_valid_iff, mint-IsGenuine}

some_inj : {s t : Text} → some s ≡ some t → s ≡ t
some_inj e = cc

-- A header or a cookie that is there and not empty.
abbrev pub HasText : Option Text → Type 0
HasText o = (s : Text) × (o ≡ some s) × (s ≢ [])

is_some-given_iff : (o : Option Text) → (is_some (given o) ≡ true) ↔ HasText o
is_some-given_iff none = (λ e. cc, λ (s, e, n). cc)
is_some-given_iff (some []) = (λ e. cc, λ (s, e, n). absurd (n cc))
is_some-given_iff (some (c ∷ t)) = (λ e. (c ∷ t, refl, λ z. cc), λ h. refl)

given-some→ : (o : Option Text) {s : Text} → given o ≡ some s → o ≡ some s
given-some→ none e = cc
given-some→ (some []) e = cc
given-some→ (some (c ∷ t)) e = e

is_safe_iff :
    (method : Text)
    → (is_safe method ≡ true)
      ↔ ((method ≡ codes "GET") ⊎ (method ≡ codes "HEAD") ⊎ (method ≡ codes "OPTIONS"))
is_safe_iff method =
    let get_ = text_eq_iff (codes "GET") method in
    let head = text_eq_iff (codes "HEAD") method in
    let options = text_eq_iff (codes "OPTIONS") method in
    (
      λ e. elim (Bool-cases (text_eq (codes "GET") method)) [
        | inl h ↦ inl (sym (get_.0 h))
        | inr n ↦ elim (Bool-cases (text_eq (codes "HEAD") method)) [
          | inl h ↦ inr (inl (sym (head.0 h)))
          | inr k ↦ inr (inr (sym (options.0 (ground arith))))
        ]
      ],
      λ z. elim z [
        | inl e ↦ let h = get_.1 (sym e) in ground arith
        | inr (inl e) ↦ let h = head.1 (sym e) in ground arith
        | inr (inr e) ↦ let h = options.1 (sym e) in ground arith
      ],
    )

is_exempt_iff :
    (config : CsrfConfig) (request : Request)
    → (is_exempt config request ≡ true) ↔ (
        HasText (request.headers (codes "authorization"))
        ⊎ HasText (request.headers config.api_key_header))
is_exempt_iff config request =
    let bearer = is_some-given_iff (request.headers (codes "authorization")) in
    let key = is_some-given_iff (request.headers config.api_key_header) in
    (
      λ e. elim (Bool-cases (is_some (given (request.headers (codes "authorization"))))) [
        | inl h ↦ inl (bearer.0 h)
        | inr n ↦ inr (key.0 (ground arith))
      ],
      λ z. elim z [
        | inl t ↦ let h = bearer.1 t in ground arith
        | inr t ↦ let h = key.1 t in ground arith
      ],
    )

module _ (crypto : Crypto) (config : CsrfConfig) where
  -- The cookie and the header hold the same valid token.
  abbrev pub Echoes : ℕ → Option Text → Option Text → Type 0
  Echoes now cookie presented =
      (token : Text) × (cookie ≡ some token)
      × (presented ≡ some token)
      × IsGenuine crypto config now token

  not_genuine_nil : (now : ℕ) → IsGenuine crypto config now [] → ⊥
  unfolding split_on
  not_genuine_nil now (nonce, issued_at, rest, e, a, b, m, r) = cc

  check_tokens_iff :
      (now : ℕ) (cookie presented : Option Text)
      → (check_tokens crypto config now cookie presented ≡ ok tt) ↔ Echoes now cookie presented
  check_tokens_iff now none none = (λ e. cc, λ (t, a, b, g). cc)
  check_tokens_iff now none (some t) = (λ e. cc, λ (t, a, b, g). cc)
  check_tokens_iff now (some c) none = (λ e. cc, λ (t, a, b, g). cc)
  check_tokens_iff now (some c) (some t) =
      elim (Bool-cases (is_valid crypto config now t && text_eq c t)) [
        | inl h ↦ rw h (
          λ e. (
            t,
            ap some ((text_eq_iff c t).0 (ground arith)),
            refl,
            (is_valid_iff crypto config now t).0 (ground arith),
          ),
          λ z. refl,
        )
        | inr h ↦ rw h (
          λ e. cc,
          λ (u, a, b, g).
              let at_t : IsGenuine crypto config now t = rw (some_inj b) g in
              let v = (is_valid_iff crypto config now t).1 at_t in
              let s = (text_eq_iff c t).1 (some_inj (a ∙ sym b)) in absurd (ground arith),
        )
      ]

  given-genuine :
      (now : ℕ) (o : Option Text) (token : Text)
      → IsGenuine crypto config now token
      → o ≡ some token
      → given o ≡ some token
  given-genuine now none token g e = cc
  given-genuine now (some []) token g e =
      absurd (not_genuine_nil now (subst (λ s. IsGenuine crypto config now s) (sym (some_inj e)) g))
  given-genuine now (some (c ∷ s)) token g e = e

  -- Whether a request goes on, by what it holds.
  abbrev pub Passes : Request → ℕ → Option Text → Type 0
  Passes request now cookie =
      (request.method ≡ codes "GET")
      ⊎ (request.method ≡ codes "HEAD")
      ⊎ (request.method ≡ codes "OPTIONS")
      ⊎ HasText (request.headers (codes "authorization"))
      ⊎ HasText (request.headers config.api_key_header)
      ⊎ Echoes now cookie (request.headers config.header_name)

  check_request_iff :
      (request : Request) (now : ℕ) (cookie : Option Text)
      → (check_request crypto config request now cookie ≡ ok tt) ↔ Passes request now cookie
  check_request_iff request now cookie =
      let presented = request.headers config.header_name in
      let iff = check_tokens_iff now (given cookie) (given presented) in
      let safe = is_safe_iff request.method in
      let exempt = is_exempt_iff config request in
      elim (Bool-cases (is_safe request.method)) [
        | inl s ↦ rw s (
          λ e. elim (safe.0 s) [
            | inl a ↦ inl a
            | inr (inl a) ↦ inr (inl a)
            | inr (inr a) ↦ inr (inr (inl a))
          ],
          λ z. refl,
        )
        | inr s ↦ elim (Bool-cases (is_exempt config request)) [
          | inl x ↦
              rw (s, x)
                (
                  λ e. elim (exempt.0 x) [
                    | inl a ↦ inr (inr (inr (inl a)))
                    | inr a ↦ inr (inr (inr (inr (inl a))))
                  ],
                  λ z. refl,
                )
          | inr x ↦
              rw (s, x)
                (
                  λ e.
                      let (t, a, b, g) = iff.0 e in
                      inr (
                        inr
                          (inr (inr (inr (t, given-some→ cookie a, given-some→ presented b, g))))),
                  λ z. elim z [
                    | inl a ↦ let y = safe.1 (inl a) in absurd (cc)
                    | inr (inl a) ↦ let y = safe.1 (inr (inl a)) in absurd (cc)
                    | inr (inr (inl a)) ↦ let y = safe.1 (inr (inr a)) in absurd (cc)
                    | inr (inr (inr (inl a))) ↦ let y = exempt.1 (inl a) in absurd (cc)
                    | inr (inr (inr (inr (inl a)))) ↦ let y = exempt.1 (inr a) in absurd (cc)
                    | inr (inr (inr (inr (inr (t, a, b, g))))) ↦
                        iff.1
                          (t, given-genuine now cookie t g a, given-genuine now presented t g b, g)
                  ],
                )
        ]
      ]

  -- A request whose cookie can be read goes on exactly if its method is GET, HEAD or OPTIONS, or it has an
  -- authorization or an API key header that is not empty, or its cookie and its header hold the same
  -- token, with a right signature and an age within the time to live.
  pub use_csrf_iff :
      (request : Request) (readings : Readings) (response : Response) (cookie : Option Text)
      → read_cookie crypto config request ≡ ok cookie
      → ((use_csrf crypto config request readings response).0 ≡ ok tt)
        ↔ Passes request readings.now_presented cookie
  unfolding use_csrf
  use_csrf_iff request readings response cookie e =
      rw e (check_request_iff request readings.now_presented cookie)

  -- A token that a request is handed out is accepted from a later request that shows it in the cookie and
  -- in the header, as long as it is not older than the time to live; the random bytes and the HMAC are
  -- given as texts without dots that are not empty.
  pub use_csrf-mint :
      (first : Request) (r₁ : Readings) (response : Response) (cookie : Option Text)
      → read_cookie crypto config first ≡ ok cookie
      → needs_token crypto config r₁.now_existing (given cookie) ≡ true
      → IsPart r₁.nonce
      → IsPart (sign crypto config r₁.nonce (show_ℕ r₁.now_mint))
      → (token : Text) → (use_csrf crypto config first r₁ response).1.cookie ≡ some token
      → (later : Request) (r₂ : Readings) → read_cookie crypto config later ≡ ok (some token)
      → later.headers config.header_name ≡ some token
      → r₁.now_mint ≤ r₂.now_presented
      → r₂.now_presented ≤ r₁.now_mint + config.ttl_ms
      → (use_csrf crypto config later r₂ response).0 ≡ ok tt
  unfolding use_csrf mint
  use_csrf-mint first r₁ response cookie e n p m token h later r₂ e₂ h₂ a b =
      let handed : some (mint crypto config r₁.nonce r₁.now_mint) ≡ some token =
        rw⁻¹ h (rw e (rw n refl)) in
      let same : mint crypto config r₁.nonce r₁.now_mint ≡ token = some_inj handed in
      let genuine = mint-IsGenuine crypto config r₁.nonce r₁.now_mint r₂.now_presented p m a b in
      (use_csrf_iff later r₂ response (some token) e₂).1
        (inr (inr (inr (inr (inr (token, refl, h₂, rw⁻¹ same genuine))))))
