-- ===== src/Observability/HttpMetrics/Laws.antt =====
-- Every request is counted once.
use a2a_agent_layer.Common.{
  ℕ, zero, suc, ◌+◌, ◌-◌, Bool, true, false, Bool-cases, any, ◌≡◌, ◌⊎◌, refl, inl, inr, ap, ◌∙◌,
  Option, none, some, List, [], ◌∷◌, ◌++◌, if◌then◌else◌, length, length-append, All, Text, codes,
  text_eq, text_eq_iff, Any, any→Any, map, get_or, show_ℕ, arith,
}
use a2a_agent_layer.Observability.HttpMetrics.Ended.{ended, run-ended}
use a2a_agent_layer.Observability.HttpMetrics.{
  known_methods, to_upper, normalize_method, Labels, Tracked, HttpMetrics, observe_http_request,
  is_scrape, begin_unless, use_metrics, find_tracked, mark_settled, settle_tracked, settle, Event,
  arrived, finished, closed, step, run,
}

-- The requests that are not settled.
abbrev pub unsettled : List Tracked → ℕ
unsettled [] = 0
unsettled (o ∷ tracked) = (if o.settled then 0 else 1) + unsettled tracked

-- The requests that came in, without the scrapes.
abbrev pub arrivals : List Event → ℕ
arrivals [] = 0
arrivals (arrived method url now ∷ events) = (if is_scrape url then 0 else 1) + arrivals events
arrivals (finished n status now ∷ events) = arrivals events
arrivals (closed n ended status now ∷ events) = arrivals events

-- The labels of methods: few, whatever the requests hold.
abbrev pub IsMethod : Text → Type 0
IsMethod method = Any (λ known. known ≡ method) known_methods ⊎ (method ≡ codes "OTHER")

-- Of `total` requests, those that are not settled are in flight, and the others are counted once.
abbrev pub Keeps : ℕ → HttpMetrics → Type 0
Keeps total m =
    (m.in_flight ≡ unsettled m.tracked)
    × (length m.requests + m.in_flight ≡ total)
    × (length m.durations ≡ length m.requests)
    × All (λ labels. IsMethod labels.method) m.requests

unsettled-append :
    (tracked : List Tracked) (o : Tracked)
    → unsettled (tracked ++ (o ∷ [])) ≡ unsettled tracked + unsettled (o ∷ [])
unsettled-append [] o = omega arith
unsettled-append (p ∷ tracked) o = omega (arith, unsettled-append tracked o)

unsettled-mark_settled :
    (n : ℕ) (tracked : List Tracked) (o : Tracked)
    → find_tracked n tracked ≡ some o
    → o.settled ≡ false
    → unsettled tracked ≡ suc (unsettled (mark_settled n tracked))
unsettled-mark_settled n [] o e h = cc
unsettled-mark_settled zero (p ∷ tracked) o e h =
    let same = ap (λ q. (get_or {A = Tracked} q o).settled) e in rw (same ∙ h) (omega arith)
unsettled-mark_settled (suc n) (p ∷ tracked) o e h =
    omega (arith, unsettled-mark_settled n tracked o e h)

normalize_method-IsMethod : (method : Option Text) → IsMethod (normalize_method method)
unfolding normalize_method
normalize_method-IsMethod method =
    let upper = map to_upper (get_or method []) in
    elim (Bool-cases (any (λ known. text_eq known upper) known_methods)) [
      | inl h ↦ rw h (
          inl (
            any→Any (λ known. known ≡ upper) (λ known. text_eq known upper) known_methods
              (λ known. (text_eq_iff known upper).0) h))
      | inr h ↦ rw h (inr refl)
    ]

All-append :
    (P : Labels → Type 0) (xs : List Labels) (x : Labels) → All P xs → P x → All P (xs ++ (x ∷ []))
All-append P [] x a p = (p, tt)
All-append P (y ∷ xs) x (a, as₁) p = (a, All-append P xs x as₁ p)

begin_unless-Keeps :
    (scrape : Bool) (method : Text) (now total : ℕ) (m : HttpMetrics)
    → Keeps total m
    → Keeps ((if scrape then 0 else 1) + total) (begin_unless scrape method now m)
begin_unless-Keeps true method now total m (i, c, d, l) = (i, omega (arith, c), d, l)
begin_unless-Keeps false method now total m (i, c, d, l) = (
  omega (
    arith,
    i,
    unsettled-append m.tracked (record { method = method; started_at = now; settled = false }),
  ),
  omega (arith, c),
  d,
  l,
)

settle_tracked-Keeps :
    (n status now total : ℕ) (m : HttpMetrics) (o : Option Tracked)
    → find_tracked n m.tracked ≡ o
    → Keeps total m
    → Keeps total (settle_tracked n status now o m)
unfolding observe_http_request
settle_tracked-Keeps n status now total m none e b = b
settle_tracked-Keeps n status now total m (some o) e b = elim (Bool-cases o.settled) [
  | inl h ↦ rw h b
  | inr h ↦
      let (i, c, d, l) = b in
      let labels : Labels = record {
        method = normalize_method (some o.method);
        status = show_ℕ status;
      } in
      let one_less = unsettled-mark_settled n m.tracked o e h in
      rw h (
        omega (arith, i, one_less),
        omega (arith, i, c, one_less, length-append m.requests (labels ∷ [])),
        omega (
          arith,
          d,
          length-append m.requests (labels ∷ []),
          length-append m.durations ((labels, now - o.started_at) ∷ []),
        ),
        All-append (λ labels. IsMethod labels.method) m.requests labels l
            (normalize_method-IsMethod (some o.method)),
      )
]

settle-Keeps :
    (n status now total : ℕ) (m : HttpMetrics) → Keeps total m → Keeps total (settle n status now m)
unfolding settle
settle-Keeps n status now total m b =
    settle_tracked-Keeps n status now total m (find_tracked n m.tracked) refl b

regroup : (a k total : ℕ) (m : HttpMetrics) → Keeps (k + (a + total)) m → Keeps (a + k + total) m
regroup a k total m (i, c, d, l) = (i, omega (arith, c), d, l)

run-Keeps :
    (events : List Event) (total : ℕ) (m : HttpMetrics)
    → Keeps total m
    → Keeps (arrivals events + total) (run m events)
unfolding run step use_metrics
run-Keeps [] total m (i, c, d, l) = (i, omega (arith, c), d, l)
run-Keeps (arrived method url now ∷ events) total m b =
    let new = if is_scrape url then 0 else 1 in
    regroup new (arrivals events) total (run m (arrived method url now ∷ events)) (
      run-Keeps events (new + total) (use_metrics method url now m)
        (begin_unless-Keeps (is_scrape url) method now total m b))
run-Keeps (finished n status now ∷ events) total m b =
    run-Keeps events total (settle n status now m) (settle-Keeps n status now total m b)
run-Keeps (closed n ended status now ∷ events) total m b =
    run-Keeps events total (settle n (if ended then status else 499) now m)
      (settle-Keeps n (if ended then status else 499) now total m b)

-- Before the first request.
abbrev pub no_metrics : HttpMetrics
no_metrics = record { requests = []; durations = []; in_flight = 0; tracked = [] }

-- As many requests are counted as came in and saw an end of their response, each has its duration, the
-- others that came in are in flight, and the labels of methods are few.
abbrev pub IsBalanced : List Event → HttpMetrics → Type 0
IsBalanced events m =
    (length m.requests ≡ ended 0 events)
    × (length m.requests + m.in_flight ≡ arrivals events)
    × (length m.durations ≡ length m.requests)
    × All (λ labels. IsMethod labels.method) m.requests

-- However requests arrive and whichever of the two events of their responses come, in any order and as
-- often as they like: each request that is not a scrape and that sees one of the events behind its
-- arrival, whether the response finished or the client closed it, is counted and timed exactly once, the
-- gauge holds the number of all others that came in, and the methods that label the counts are the known
-- ones and one for all others.
pub run-IsBalanced : (events : List Event) → IsBalanced events (run no_metrics events)
run-IsBalanced events =
    let (i, total, d, l) = run-Keeps events 0 no_metrics (refl, refl, refl, tt) in
    (run-ended events no_metrics ∙ omega arith, omega (arith, total), d, l)
