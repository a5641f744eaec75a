-- ===== src/Middleware/Csrf.antt =====
-- src/common/middleware/csrf.middleware.ts. The HMAC and `decodeURIComponent` are parameters. Tokens
-- are compared as texts, which stand for their bytes, and a header is its first value.
pub mod Tokens
pub mod Laws
pub mod Tests
use a2a_agent_layer.Common.{
  ℕ, ◌+◌, ◌-◌, leb, Bool, true, false, not, ◌&&◌, ◌||◌, any, Option, none, some, is_some, List, [],
  ◌∷◌, ◌++◌, if◌then◌else◌, Text, codes, text_eq, get, Outcome, ok, throw, forbidden, ◌>>=◌, Action,
  proceed,
}
use a2a_agent_layer.Common.Decimal.{show_ℕ}
use a2a_agent_layer.Common.Trim.{trim, split_on, cut_at}
use a2a_agent_layer.Config.{Parsed, nan, plus, minus, parse_number, given}

pub record CsrfConfig : Type 0 where
  pub cookie_name : Text
  pub header_name : Text
  pub api_key_header : Text
  pub secret : Text
  pub ttl_ms : ℕ

-- `cookies` is what a cookie parser ahead of the middleware found, if there is one.
pub record Request : Type 0 where
  pub method : Text
  pub cookies : Option (List (Text × Text))
  pub headers : Text → Option Text

-- The cookie and the header that the middleware sets.
pub record Response : Type 0 where
  pub cookie : Option Text
  pub header : Option Text

-- What the call reads: the clock at each of its uses, and the random bytes in hexadecimal.
pub record Readings : Type 0 where
  pub now_existing : ℕ
  pub now_mint : ℕ
  pub now_presented : ℕ
  pub nonce : Text

pub record Crypto : Type 0 where
  pub hmac : Text → Text → Text
  pub decode : Text → Outcome Text

abbrev pub safe_methods : List Text
safe_methods = codes "GET" ∷ codes "HEAD" ∷ codes "OPTIONS" ∷ []

abbrev pub is_safe : Text → Bool
is_safe method = any (λ m. text_eq m method) safe_methods

-- An age in milliseconds, if the clock and the time of issue give one that is not negative.
abbrev pub age_of : ℕ → Parsed → Option ℕ
age_of now nan = none
age_of now (plus t) = if leb t now then some (now - t) else none
age_of now (minus t) = some (now + t)

abbrev pub is_recent : ℕ → Option ℕ → Bool
is_recent ttl none = false
is_recent ttl (some age) = leb age ttl

-- The first three parts of a token, if none of them is empty. Further parts are passed over.
abbrev pub three_parts : List Text → Option (Text × Text × Text)
three_parts ((a ∷ nonce) ∷ (b ∷ issued_at) ∷ (c ∷ mac) ∷ rest) =
    some (a ∷ nonce, b ∷ issued_at, c ∷ mac)
three_parts _ = none

-- `part.trim().split('=')`, with what follows joined again.
abbrev pub key_and_rest : Text → Option (Text × Text) → Text × Text
key_and_rest part none = (part, [])
key_and_rest part (some kv) = kv

unfoldable pub find_cookie : (Text → Outcome Text) → Text → List Text → Outcome (Option Text)
unfolding trim cut_at
find_cookie decode name [] = ok none
find_cookie decode name (part ∷ parts) =
    let (key, value) = key_and_rest (trim part) (cut_at b'=' (trim part)) in
    let rest = find_cookie decode name parts in
    if text_eq key name then decode value >>= (λ v. ok (some v)) else rest

abbrev cookie_in : Option (List (Text × Text)) → Text → Option Text
cookie_in none name = none
cookie_in (some cookies) name = given (get cookies name)

abbrev from_header : (Text → Outcome Text) → Text → Option Text → Outcome (Option Text)
from_header decode name none = ok none
from_header decode name (some header) = find_cookie decode name (split_on b';' header)

abbrev pub is_exempt : CsrfConfig → Request → Bool
is_exempt config request =
    is_some (given (request.headers (codes "authorization")))
    || is_some (given (request.headers config.api_key_header))

module _ (crypto : Crypto) (config : CsrfConfig) where
  unfoldable pub sign : Text → Text → Text
  sign nonce issued_at = crypto.hmac config.secret (nonce ++ (b'.' ∷ issued_at))

  unfoldable pub mint : Text → ℕ → Text
  unfolding sign show_ℕ
  mint nonce now = nonce ++ (b'.' ∷ show_ℕ now ++ (b'.' ∷ sign nonce (show_ℕ now)))

  abbrev pub parts_valid : ℕ → Option (Text × Text × Text) → Bool
  parts_valid now none = false
  parts_valid now (some (nonce, issued_at, mac)) =
      is_recent config.ttl_ms (age_of now (parse_number issued_at))
      && text_eq mac (sign nonce issued_at)

  unfoldable pub is_valid : ℕ → Text → Bool
  is_valid now token = parts_valid now (three_parts (split_on b'.' token))

  unfoldable pub read_cookie : Request → Outcome (Option Text)
  unfolding find_cookie split_on get
  read_cookie request = elim (cookie_in request.cookies config.cookie_name) [
    | some value ↦ ok (some value)
    | none ↦ from_header crypto.decode config.cookie_name (given (request.headers (codes "cookie")))
  ]

  -- A cookie that is missing, empty or not valid is replaced.
  abbrev pub needs_token : ℕ → Option Text → Bool
  needs_token now none = true
  needs_token now (some token) = not (is_valid now token)

  abbrev pub check_tokens : ℕ → Option Text → Option Text → Outcome (Unit {0})
  check_tokens now none presented = throw (forbidden (codes "CSRF token missing"))
  check_tokens now (some cookie) none = throw (forbidden (codes "CSRF token missing"))
  check_tokens now (some cookie) (some presented) =
      if is_valid now presented && text_eq cookie presented
      then ok tt
      else throw (forbidden (codes "CSRF token invalid"))

  abbrev pub check_request : Request → ℕ → Option Text → Outcome (Unit {0})
  check_request request now cookie =
      if is_safe request.method
      then ok tt
      else if is_exempt config request
      then ok tt
      else check_tokens now (given cookie) (given (request.headers config.header_name))

  -- `use`: what the request is answered with so far, and whether it goes on.
  unfoldable pub use_csrf : Request → Readings → Action Response (Unit {0})
  unfolding read_cookie is_valid mint
  use_csrf request readings response =
      proceed (read_cookie request, response)
        (λ existing response.
          let token = mint readings.nonce readings.now_mint in
          (
            check_request request readings.now_presented existing,
            if needs_token readings.now_existing (given existing)
                then record { cookie = some token; header = some token }
                else response,
          ))
