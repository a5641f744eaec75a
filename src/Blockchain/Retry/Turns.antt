-- ===== src/Blockchain/Retry/Turns.antt =====
-- One turn of the loop of `with_retry`.
use a2a_agent_layer.Common.{
  ℕ, suc, ◌+◌, ◌*◌, min, true, false, not, ◌||◌, ◌≡◌, [], ◌∷◌, ◌++◌, leb, if◌then◌else◌, ok, throw,
  Exception, Action,
}
use a2a_agent_layer.Blockchain.Retry.{RetrySettings, Waiting, attempts}

module _ {S A : Type 0} (scale : ℕ → ℕ) (operation : Action S A) where
  module _ (opts : RetrySettings) (left attempt delay : ℕ) (w : Waiting S) where
    abbrev pub next : Waiting S
    next = record {
      inner = (operation w.inner).1;
      waits = w.waits ++ (if opts.jitter then scale delay else delay) ∷ [];
    }

    pub attempts_returned :
        (a : A)
        → (operation w.inner).0 ≡ ok a
        → attempts scale operation opts (suc left) attempt delay w
          ≡ (ok a, record w { inner = (operation w.inner).1 })
    unfolding attempts
    attempts_returned a e = rw (e, attempts)

    pub attempts_thrown :
        (e : Exception)
        → (operation w.inner).0 ≡ throw e
        → attempts scale operation opts (suc left) attempt delay w ≡ (
            if leb opts.max_attempts (attempt + 1) || not (opts.should_retry e)
            then (throw e, record w { inner = (operation w.inner).1 })
            else attempts scale operation opts left
                (attempt + 1)
                (min (delay * opts.factor) opts.max_delay_ms)
                next)
    unfolding attempts
    attempts_thrown e h = rw (h, attempts)

    pub attempts_stopped :
        (e : Exception)
        → (operation w.inner).0 ≡ throw e
        → leb opts.max_attempts (attempt + 1) || not (opts.should_retry e) ≡ true
        → attempts scale operation opts (suc left) attempt delay w
          ≡ (throw e, record w { inner = (operation w.inner).1 })
    attempts_stopped e h b = rw (attempts_thrown e h, b)

    pub attempts_again :
        (e : Exception)
        → (operation w.inner).0 ≡ throw e
        → leb opts.max_attempts (attempt + 1) || not (opts.should_retry e) ≡ false
        → attempts scale operation opts (suc left) attempt delay w
          ≡ attempts scale operation opts left
              (attempt + 1)
              (min (delay * opts.factor) opts.max_delay_ms)
              next
    attempts_again e h b = rw (attempts_thrown e h, b)
