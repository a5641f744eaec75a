-- ===== src/Blockchain/Retry/Laws.antt =====
-- When a retried operation returns.
use a2a_agent_layer.Common.{
  ℕ, zero, suc, ◌+◌, ◌<◌, Bool, true, false, not, ◌||◌, ◌≡◌, ◌↔◌, sym, ◌∙◌, ap, inl, inr, leb,
  Bool-cases, Outcome-cases, ok, throw, Exception, Action, arith,
}
use a2a_agent_layer.Blockchain.Retry.{
  RetryOptions, RetrySettings, settings_of, Waiting, attempts, with_retry,
}
use a2a_agent_layer.Blockchain.Retry.Turns.{
  next, attempts_returned, attempts_stopped, attempts_again,
}

module _ {S A : Type 0} (scale : ℕ → ℕ) (operation : Action S A) where
  -- The operation, called `k` times in a row from one state, threw an error that is retried each time.
  pub data Fails (should_retry : Exception → Bool) : ℕ → S → S → Type 0 where
    none_yet : {s : S} → Fails should_retry 0 s s
    one_more :
        {k : ℕ} {s t : S} (e : Exception)
        → (operation s).0 ≡ throw e
        → should_retry e ≡ true
        → Fails should_retry k (operation s).1 t
        → Fails should_retry (suc k) s t

  -- Some call, within the attempts that are left, returned the value after failures that are retried.
  abbrev pub Returns : RetrySettings → ℕ → S → A → Type 0
  Returns opts left s a =
      (k : ℕ) × (t : S) × (k < left) × Fails opts.should_retry k s t × ((operation t).0 ≡ ok a)

  retried_of : (m n : ℕ) (b : Bool) → leb m n || not b ≡ false → b ≡ true
  retried_of m n b h = ground arith

  goes_on : (m n : ℕ) (b : Bool) → n < m → b ≡ true → leb m n || not b ≡ false
  goes_on m n b h e = ground arith

  attempts-Returns :
      (opts : RetrySettings) (left attempt delay : ℕ) (w : Waiting S) (a : A)
      → attempt + left ≡ opts.max_attempts
      → (attempts scale operation opts left attempt delay w).0 ≡ ok a
      → Returns opts left w.inner a
  unfolding attempts
  attempts-Returns opts zero attempt delay w a m e = cc
  attempts-Returns opts (suc left) attempt delay w a m e =
      elim (Outcome-cases (operation w.inner).0) [
        | inl (b, h) ↦ (
          0,
          w.inner,
          omega arith,
          none_yet,
          h
              ∙ sym
                  (ap (λ x. x.0) (attempts_returned scale operation opts left attempt delay w b h))
              ∙ e,
        )
        | inr (x, h) ↦
            elim (Bool-cases (leb opts.max_attempts (attempt + 1) || not (opts.should_retry x))) [
              | inl stop ↦ absurd (
                  cc (
                    ap (λ y. y.0)
                        (attempts_stopped scale operation opts left attempt delay w x h stop),
                    e,
                  ))
              | inr go ↦
                  let again = attempts_again scale operation opts left attempt delay w x h go in
                  let (k, t, lt, f, r) =
                    attempts-Returns opts left (attempt + 1) _
                      (next scale operation opts left attempt delay w) a (omega arith)
                      (sym (ap (λ y. y.0) again) ∙ e) in
                  (suc k, t, omega arith, one_more x h (retried_of _ _ _ go) f, r)
            ]
      ]

  Returns-attempts :
      (opts : RetrySettings) (left attempt delay : ℕ) (w : Waiting S) (a : A)
      → attempt + left ≡ opts.max_attempts
      → Returns opts left w.inner a
      → (attempts scale operation opts left attempt delay w).0 ≡ ok a
  Returns-attempts opts zero attempt delay w a m r = absurd (omega (arith, r.2))
  Returns-attempts opts (suc left) attempt delay w a m (zero, t, lt, none_yet, e) =
      ap (λ x. x.0) (attempts_returned scale operation opts left attempt delay w a e)
  Returns-attempts opts (suc left) attempt delay w a m
        (suc k, t, lt, one_more x thrown retried f, e) =
      let again =
        attempts_again scale operation opts left attempt delay w x thrown
          (goes_on _ _ _ (omega arith) retried) in
      let rest =
        Returns-attempts opts left (attempt + 1) _ (next scale operation opts left attempt delay w)
          a (omega arith) (k, t, omega arith, f, e) in
      ap (λ y. y.0) again ∙ rest

  -- `with_retry` returns a value exactly if, of the calls of the operation in a row, one within the
  -- number of attempts returns it and all before it throw errors that are retried.
  pub with_retry-ok_iff :
      (options : RetryOptions) (w : Waiting S) (a : A)
      → ((with_retry scale operation options w).0 ≡ ok a)
        ↔ Returns (settings_of options) (settings_of options).max_attempts w.inner a
  unfolding with_retry
  with_retry-ok_iff options w a =
      let opts = settings_of options in
      (
        attempts-Returns opts opts.max_attempts 0 opts.initial_delay_ms w a (omega arith),
        Returns-attempts opts opts.max_attempts 0 opts.initial_delay_ms w a (omega arith),
      )
