-- ===== src/Observability/HttpMetrics.antt =====
-- src/observability/metrics.service.ts, what it counts of HTTP requests, and
-- src/observability/http-metrics.middleware.ts, which calls it. Prometheus' series are lists here.
pub mod Ended
pub mod Laws
pub mod Tests
use a2a_agent_layer.Common.{
  ℕ, zero, suc, ◌-◌, ◌==◌, Bool, true, false, any, Option, none, some, get_or, List, [], ◌∷◌, ◌++◌,
  if◌then◌else◌, Text, codes, text_eq, is_lower, map, show_ℕ,
}
use a2a_agent_layer.Common.Trim.{cut_at}

abbrev pub known_methods : List Text
known_methods =
    codes "GET"
    ∷ codes "POST"
    ∷ codes "PUT"
    ∷ codes "PATCH"
    ∷ codes "DELETE"
    ∷ codes "HEAD"
    ∷ codes "OPTIONS"
    ∷ []

-- `toUpperCase`, for the ASCII letters that a method may have.
abbrev pub to_upper : ℕ → ℕ
to_upper c = if is_lower c then c - 32 else c

unfoldable pub normalize_method : Option Text → Text
normalize_method method =
    let upper = map to_upper (get_or method []) in
    if any (λ known. text_eq known upper) known_methods then upper else codes "OTHER"

pub record Labels : Type 0 where
  pub method : Text
  pub status : Text

-- A request that the middleware counts, with the variable that its listeners share.
pub record Tracked : Type 0 where
  pub method : Text
  pub started_at : ℕ
  pub settled : Bool

-- The requests are numbered from the first. A duration is in nanoseconds.
pub record HttpMetrics : Type 0 where
  pub requests : List Labels
  pub durations : List (Labels × ℕ)
  pub in_flight : ℕ
  pub tracked : List Tracked

unfoldable pub observe_http_request : Text → ℕ → ℕ → HttpMetrics → HttpMetrics
unfolding normalize_method show_ℕ
observe_http_request method status_code duration m =
    let labels : Labels = record {
      method = normalize_method (some method);
      status = show_ℕ status_code;
    } in
    record m {
      requests = m.requests ++ (labels ∷ []);
      durations = m.durations ++ ((labels, duration) ∷ []);
    }

-- `(originalUrl ?? url ?? '').split('?')[0]`
abbrev path_of : Text → Text
path_of url = elim (cut_at b'?' url) [ none ↦ url | some (path, query) ↦ path ]

unfoldable pub is_scrape : Text → Bool
unfolding cut_at
is_scrape url = text_eq (path_of url) (codes "/metrics")

abbrev pub begin : Text → ℕ → HttpMetrics → HttpMetrics
begin method now m = record m {
  in_flight = suc m.in_flight;
  tracked = m.tracked ++ (record { method = method; started_at = now; settled = false } ∷ []);
}

abbrev pub begin_unless : Bool → Text → ℕ → HttpMetrics → HttpMetrics
begin_unless true method now m = m
begin_unless false method now m = begin method now m

-- `use`, up to the call of `next`.
unfoldable pub use_metrics : Text → Text → ℕ → HttpMetrics → HttpMetrics
use_metrics method url now m = begin_unless (is_scrape url) method now m

abbrev pub find_tracked : ℕ → List Tracked → Option Tracked
find_tracked n [] = none
find_tracked zero (o ∷ tracked) = some o
find_tracked (suc n) (o ∷ tracked) = find_tracked n tracked

abbrev pub mark_settled : ℕ → List Tracked → List Tracked
mark_settled n [] = []
mark_settled zero (o ∷ tracked) = record o { settled = true } ∷ tracked
mark_settled (suc n) (o ∷ tracked) = o ∷ mark_settled n tracked

abbrev pub settle_tracked : ℕ → ℕ → ℕ → Option Tracked → HttpMetrics → HttpMetrics
settle_tracked n status_code now none m = m
settle_tracked n status_code now (some o) m =
    if o.settled
    then m
    else observe_http_request o.method status_code (now - o.started_at)
        (record m { in_flight = m.in_flight - 1; tracked = mark_settled n m.tracked })

-- `settle`, the body that the two listeners of a request share.
unfoldable pub settle : ℕ → ℕ → ℕ → HttpMetrics → HttpMetrics
unfolding observe_http_request
settle n status_code now m = settle_tracked n status_code now (find_tracked n m.tracked) m

-- What may happen: a request comes in, and the events of the response of a request.
pub data Event : Type 0 where
  arrived : Text → Text → ℕ → Event
  finished : ℕ → ℕ → ℕ → Event
  closed : ℕ → Bool → ℕ → ℕ → Event

unfoldable pub step : HttpMetrics → Event → HttpMetrics
unfolding use_metrics settle
step m (arrived method url now) = use_metrics method url now m
step m (finished n status_code now) = settle n status_code now m
step m (closed n ended status_code now) = settle n (if ended then status_code else 499) now m

unfoldable pub run : HttpMetrics → List Event → HttpMetrics
unfolding step
run m [] = m
run m (event ∷ events) = run (step m event) events
