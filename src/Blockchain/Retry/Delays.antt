-- ===== src/Blockchain/Retry/Delays.antt =====
-- How often a retried operation waits, and how long.
use a2a_agent_layer.Common.{
  ℕ, zero, suc, ◌+◌, ◌-◌, ◌*◌, ◌≤◌, ◌<◌, Bool, true, false, not, ◌||◌, ◌≡◌, sym, ◌∙◌, inl, inr,
  List, [], ◌∷◌, ◌++◌, leb, if◌then◌else◌, All, length, append-nil, append_assoc, Bool-cases,
  Outcome-cases, Exception, Action, arith,
}
use a2a_agent_layer.Blockchain.Retry.{
  RetryOptions, RetrySettings, settings_of, Waiting, attempts, with_retry,
}
use a2a_agent_layer.Blockchain.Retry.Turns.{
  next, attempts_returned, attempts_stopped, attempts_again,
}

module _ {S A : Type 0} (scale : ℕ → ℕ) (operation : Action S A) where
  -- The waits that a run adds: how many at most, and that each is at most one and a half times a bound.
  pub record Waits (bound most : ℕ) (before after : List ℕ) : Type 0 where
    pub added : List ℕ
    pub appended : after ≡ before ++ added
    pub few : length added ≤ most
    pub short : All (λ d. d * 2 ≤ 3 * bound) added

  nothing_added : (bound most : ℕ) (before : List ℕ) → Waits bound most before before
  nothing_added bound most before = record {
    added = [];
    appended = sym (append-nil before);
    few = omega arith;
    short = tt;
  }

  one_wait :
      (bound most most' d : ℕ) (before after : List ℕ)
      → most < most'
      → d * 2 ≤ 3 * bound
      → Waits bound most (before ++ d ∷ []) after
      → Waits bound most' before after
  one_wait bound most most' d before after lt le rest = record {
    added = d ∷ rest.added;
    appended = rest.appended ∙ append_assoc before (d ∷ []) rest.added;
    few = omega (arith, rest.few);
    short = (le, rest.short);
  }

  module _ (scaled : (d : ℕ) → scale d * 2 ≤ 3 * d) where
    wait-bound :
        (jitter : Bool) (bound delay : ℕ)
        → delay ≤ bound
        → (if jitter then scale delay else delay) * 2 ≤ 3 * bound
    wait-bound true bound delay le = omega (arith, scaled delay)
    wait-bound false bound delay le = omega arith

    fewer :
        (opts : RetrySettings) (left attempt : ℕ) (x : Exception)
        → attempt + suc left ≡ opts.max_attempts
        → leb opts.max_attempts (attempt + 1) || not (opts.should_retry x) ≡ false
        → left - 1 < suc left - 1
    fewer opts left attempt x m go = ground arith

    attempts-Waits :
        (opts : RetrySettings) (left attempt delay : ℕ) (w : Waiting S)
        → attempt + left ≡ opts.max_attempts
        → delay ≤ opts.max_delay_ms
        → Waits opts.max_delay_ms
            (left - 1)
            w.waits
            (attempts scale operation opts left attempt delay w).1.waits
    unfolding attempts
    attempts-Waits opts zero attempt delay w m le = nothing_added _ _ w.waits
    attempts-Waits opts (suc left) attempt delay w m le =
        elim (Outcome-cases (operation w.inner).0) [
          | inl (b, h) ↦
              rw (attempts_returned scale operation opts left attempt delay w b h)
                (nothing_added _ _ w.waits)
          | inr (x, h) ↦
              elim (Bool-cases (leb opts.max_attempts (attempt + 1) || not (opts.should_retry x))) [
                | inl stop ↦
                    rw (attempts_stopped scale operation opts left attempt delay w x h stop)
                      (nothing_added _ _ w.waits)
                | inr go ↦
                    let again = attempts_again scale operation opts left attempt delay w x h go in
                    rw again (
                      one_wait _ (left - 1) _ _ w.waits _ (fewer opts left attempt x m go)
                        (wait-bound opts.jitter _ delay le)
                        (attempts-Waits opts left (attempt + 1) _
                          (next scale operation opts left attempt delay w) (omega arith)
                          (omega arith)))
              ]
        ]

    -- If the random factor is at most one and a half, and the first delay at most the greatest, a run
    -- waits less often than it may attempt, and each time at most one and a half times the greatest
    -- delay, whatever the operation answers.
    pub with_retry-Waits :
        (options : RetryOptions) (w : Waiting S)
        → (settings_of options).initial_delay_ms ≤ (settings_of options).max_delay_ms
        → Waits
            (settings_of options).max_delay_ms
            ((settings_of options).max_attempts - 1)
            w.waits
            (with_retry scale operation options w).1.waits
    unfolding with_retry
    with_retry-Waits options w le =
        let opts = settings_of options in
        attempts-Waits opts opts.max_attempts 0 opts.initial_delay_ms w (omega arith) le
