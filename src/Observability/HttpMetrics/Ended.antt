-- ===== src/Observability/HttpMetrics/Ended.antt =====
-- How many requests have come to an end, by the events alone.
use a2a_agent_layer.Common.{
  ℕ, zero, suc, ◌+◌, ◌<◌, ◌==◌, Bool, true, false, Bool-cases, any, ◌≡◌, refl, sym, ap, ◌∙◌, inl,
  inr, Option, none, some, List, [], ◌∷◌, ◌++◌, if◌then◌else◌, length, length-append, Text, show_ℕ,
  arith,
}
use a2a_agent_layer.Observability.HttpMetrics.{
  normalize_method, Tracked, HttpMetrics, observe_http_request, is_scrape, begin_unless,
  use_metrics, find_tracked, mark_settled, settle_tracked, settle, Event, arrived, finished, closed,
  step, run,
}

-- Whether an event is the end of the response of the request of this number.
abbrev pub ends : ℕ → Event → Bool
ends n (arrived method url now) = false
ends n (finished k status now) = k == n
ends n (closed k ended status now) = k == n

abbrev pub one_if : Bool → ℕ
one_if true = 1
one_if false = 0

-- The requests that come in from the one of this number on, without the scrapes, and see an end of their
-- response behind that.
abbrev pub ended : ℕ → List Event → ℕ
ended next [] = 0
ended next (arrived method url now ∷ events) =
    if is_scrape url
    then ended next events
    else one_if (any (ends next) events) + ended (suc next) events
ended next (finished n status now ∷ events) = ended next events
ended next (closed n ended_ status now ∷ events) = ended next events

-- Of the requests that were there before, those that are not settled and see an end.
abbrev pub ended_from : ℕ → List Tracked → List Event → ℕ
ended_from i [] events = 0
ended_from i (o ∷ tracked) events =
    (if o.settled then 0 else one_if (any (ends i) events)) + ended_from (suc i) tracked events

ended_from-nil : (i : ℕ) (tracked : List Tracked) → ended_from i tracked [] ≡ 0
ended_from-nil i [] = refl
ended_from-nil i (o ∷ tracked) = elim (Bool-cases o.settled) [
  | inl h ↦ rw (h, ended_from-nil (suc i) tracked) (omega arith)
  | inr h ↦ rw (h, ended_from-nil (suc i) tracked) (omega arith)
]

ended_from-append :
    (i : ℕ) (tracked : List Tracked) (o : Tracked) (events : List Event)
    → o.settled ≡ false
    → ended_from i (tracked ++ (o ∷ [])) events
      ≡ ended_from i tracked events + one_if (any (ends (i + length tracked)) events)
ended_from-append i [] o events h = let same : i + 0 ≡ i = omega arith in rw (h, same) (omega arith)
ended_from-append i (p ∷ tracked) o events h =
    let same : i + length (p ∷ tracked) ≡ suc i + length tracked = omega arith in
    rw same (omega (arith, ended_from-append (suc i) tracked o events h))

-- An event that ends none of the requests.
passed_over :
    (k i : ℕ) (tracked : List Tracked) (e : Event) (events : List Event)
    → ((n : ℕ) → ends n e ≡ (k == n))
    → k < i
    → ended_from i tracked (e ∷ events) ≡ ended_from i tracked events
passed_over k i [] e events same h = refl
passed_over k i (o ∷ tracked) e events same h =
    let other : (k == i) ≡ false = ground arith in
    let rest = passed_over k (suc i) tracked e events same (omega (arith, h)) in
    rw (same i, other, rest)

-- An event that ends the request at this place.
ended_from-mark_settled :
    (n i : ℕ) (tracked : List Tracked) (o : Tracked) (e : Event) (events : List Event)
    → ((m : ℕ) → ends m e ≡ (i + n == m))
    → find_tracked n tracked ≡ some o
    → o.settled ≡ false
    → ended_from i tracked (e ∷ events) ≡ suc (ended_from i (mark_settled n tracked) events)
ended_from-mark_settled n i [] o e events same f h = cc
ended_from-mark_settled zero i (p ∷ tracked) o e events same f h =
    let is_p : p ≡ o = cc in
    let here : (i + 0 == i) ≡ true = ground arith in
    let rest = passed_over (i + 0) (suc i) tracked e events same (omega arith) in
    rw (is_p, h, same i, here, rest) (omega arith)
ended_from-mark_settled (suc n) i (p ∷ tracked) o e events same f h =
    let later : (i + suc n == i) ≡ false = ground arith in
    let move : (m : ℕ) → ends m e ≡ (suc i + n == m) = λ m. same m ∙ ground arith in
    let rest = ended_from-mark_settled n (suc i) tracked o e events move f h in
    elim (Bool-cases p.settled) [
      | inl s ↦ rw (s, rest) (omega arith)
      | inr s ↦ rw (s, same i, later, rest) (omega arith)
    ]

-- An event of a request that is settled or not there.
ended_from-settled :
    (n i : ℕ) (tracked : List Tracked) (e : Event) (events : List Event)
    → ((m : ℕ) → ends m e ≡ (i + n == m))
    → ((o : Tracked) → find_tracked n tracked ≡ some o → o.settled ≡ true)
    → ended_from i tracked (e ∷ events) ≡ ended_from i tracked events
ended_from-settled n i [] e events same f = refl
ended_from-settled zero i (p ∷ tracked) e events same f =
    let rest = passed_over (i + 0) (suc i) tracked e events same (omega arith) in
    rw (f p refl, rest)
ended_from-settled (suc n) i (p ∷ tracked) e events same f =
    let later : (i + suc n == i) ≡ false = ground arith in
    let move : (m : ℕ) → ends m e ≡ (suc i + n == m) = λ m. same m ∙ ground arith in
    let rest = ended_from-settled n (suc i) tracked e events move f in rw (same i, later, rest)

quiet :
    (i : ℕ) (tracked : List Tracked) (e : Event) (events : List Event)
    → ((n : ℕ) → ends n e ≡ false)
    → ended_from i tracked (e ∷ events) ≡ ended_from i tracked events
quiet i [] e events h = refl
quiet i (o ∷ tracked) e events h = rw (h i, quiet (suc i) tracked e events h)

length-mark_settled :
    (n : ℕ) (tracked : List Tracked) → length (mark_settled n tracked) ≡ length tracked
length-mark_settled n [] = refl
length-mark_settled zero (o ∷ tracked) = refl
length-mark_settled (suc n) (o ∷ tracked) = ap suc (length-mark_settled n tracked)

-- What `settle` adds to the counts was still to come, and nothing else changes.
settle_tracked-ended :
    (n status now : ℕ) (m : HttpMetrics) (e : Event) (events : List Event) (found : Option Tracked)
    → ((k : ℕ) → ends k e ≡ (0 + n == k))
    → find_tracked n m.tracked ≡ found
    → let m' = settle_tracked n status now found m in
      (length m'.requests + ended_from 0 m'.tracked events
        ≡ length m.requests + ended_from 0 m.tracked (e ∷ events))
      × (length m'.tracked ≡ length m.tracked)
unfolding observe_http_request
settle_tracked-ended n status now m e events none same f =
    (rw (ended_from-settled n 0 m.tracked e events same (λ o g. cc)) refl, refl)
settle_tracked-ended n status now m e events (some o) same f = elim (Bool-cases o.settled) [
  | inl h ↦ rw h (
    rw
        (ended_from-settled n 0 m.tracked e events same
          (λ p g. let is_p : o ≡ p = cc in ap (λ q. q.settled) (sym is_p) ∙ h))
        refl,
    refl,
  )
  | inr h ↦
      let once = ended_from-mark_settled n 0 m.tracked o e events same f h in
      rw h (
        omega (
          arith,
          once,
          length-append m.requests
              (record { method = normalize_method (some o.method); status = show_ℕ status } ∷ []),
        ),
        length-mark_settled n m.tracked,
      )
]

settle-ended :
    (n status now : ℕ) (m : HttpMetrics) (e : Event) (events : List Event)
    → ((k : ℕ) → ends k e ≡ (n == k))
    → (length (settle n status now m).requests + ended_from 0 (settle n status now m).tracked events
        ≡ length m.requests + ended_from 0 m.tracked (e ∷ events))
      × (length (settle n status now m).tracked ≡ length m.tracked)
unfolding settle
settle-ended n status now m e events same =
    let zero_left : 0 + n ≡ n = omega arith in
    settle_tracked-ended n status now m e events (find_tracked n m.tracked)
      (λ k. rw zero_left (same k)) refl

begin_unless-ended :
    (scrape : Bool) (method : Text) (now : ℕ) (m : HttpMetrics) (events : List Event)
    → let m' = begin_unless scrape method now m in
      length m'.requests + ended_from 0 m'.tracked events + ended (length m'.tracked) events
      ≡ length m.requests
        + ended_from 0 m.tracked events
        + (if scrape
            then ended (length m.tracked) events
            else one_if (any (ends (length m.tracked)) events)
              + ended (suc (length m.tracked)) events)
begin_unless-ended true method now m events = refl
begin_unless-ended false method now m events =
    let o : Tracked = record { method = method; started_at = now; settled = false } in
    let longer : length (m.tracked ++ (o ∷ [])) ≡ suc (length m.tracked) =
      omega (arith, length-append m.tracked (o ∷ [])) in
    let first : 0 + length m.tracked ≡ length m.tracked = omega arith in
    let one = ended_from-append 0 m.tracked o events refl in
    rw longer (omega (arith, rw first at one))

-- Each request is counted once for the first end that it sees.
pub run-ended :
    (events : List Event) (m : HttpMetrics)
    → length (run m events).requests
      ≡ length m.requests + ended_from 0 m.tracked events + ended (length m.tracked) events
unfolding run step use_metrics
run-ended [] m = omega (arith, ended_from-nil 0 m.tracked)
run-ended (arrived method url now ∷ events) m =
    let e = arrived method url now in
    let still = quiet 0 m.tracked e events (λ n. refl) in
    run-ended events (use_metrics method url now m)
    ∙ begin_unless-ended (is_scrape url) method now m events
    ∙ rw still refl
run-ended (finished n status now ∷ events) m =
    let e = finished n status now in
    let (counts, same) = settle-ended n status now m e events (λ k. refl) in
    run-ended events (settle n status now m) ∙ rw same (omega (arith, counts))
run-ended (closed n ended_ status now ∷ events) m =
    let e = closed n ended_ status now in
    let code = if ended_ then status else 499 in
    let (counts, same) = settle-ended n code now m e events (λ k. refl) in
    run-ended events (settle n code now m) ∙ rw same (omega (arith, counts))
