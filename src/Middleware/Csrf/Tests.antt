-- ===== src/Middleware/Csrf/Tests.antt =====
-- A browser that is handed a token and sends it back, with a HMAC that concatenates.
use a2a_agent_layer.Common.{
  ℕ, ◌≡◌, inl, refl, if◌then◌else◌, Option, none, some, Text, codes, text_eq, get, ok, arith,
}
use a2a_agent_layer.Common.Decimal.{show_ℕ, digits}
use a2a_agent_layer.Common.Trim.{trim, drop_spaces, split_on, cut_at}
use a2a_agent_layer.Validation.{span}
use a2a_agent_layer.Auth.RefreshToken.{parse_int}
use a2a_agent_layer.Config.{parse_number}
use a2a_agent_layer.Middleware.Csrf.{
  CsrfConfig, Crypto, Request, Response, Readings, sign, mint, is_valid, read_cookie, find_cookie,
  use_csrf,
}
use a2a_agent_layer.Middleware.Csrf.Laws.{use_csrf_iff, use_csrf-mint}

abbrev crypto : Crypto
crypto = record { hmac = λ key text. codes "m"; decode = λ s. ok s }

abbrev csrf : CsrfConfig
csrf = record {
  cookie_name = codes "a2a.csrf";
  header_name = codes "x-csrf-token";
  api_key_header = codes "x-api-key";
  secret = codes "s";
  ttl_ms = 100;
}

abbrev no_headers : Text → Option Text
no_headers name = none

abbrev echoing : Text → Option Text
echoing name =
    if text_eq name (codes "cookie")
    then some (codes "a=1; a2a.csrf=ff.7.m")
    else if text_eq name (codes "x-csrf-token")
    then some (codes "ff.7.m")
    else none

abbrev reading : Request
reading = record { method = codes "GET"; cookies = none; headers = no_headers }

abbrev writing : Request
writing = record { method = codes "POST"; cookies = none; headers = echoing }

abbrev readings : ℕ → Readings
readings now = record {
  now_existing = now;
  now_mint = now;
  now_presented = now;
  nonce = codes "ff";
}

abbrev untouched : Response
untouched = record { cookie = none; header = none }

use_csrf-mint_example : (use_csrf crypto csrf writing (readings 90) untouched).0 ≡ ok tt
unfolding read_cookie find_cookie split_on trim drop_spaces cut_at text_eq sign mint show_ℕ digits
    is_valid span parse_int parse_number use_csrf get
use_csrf-mint_example =
    use_csrf-mint crypto csrf reading (readings 7) untouched none refl refl (λ e. cc, refl)
      (λ e. cc, refl) (codes "ff.7.m") refl writing (readings 90) refl refl (omega arith)
      (omega arith)

use_csrf_iff_example : (use_csrf crypto csrf reading (readings 7) untouched).0 ≡ ok tt
unfolding read_cookie find_cookie split_on trim drop_spaces cut_at text_eq get
use_csrf_iff_example =
    (use_csrf_iff crypto csrf reading (readings 7) untouched none refl).1 (inl refl)
