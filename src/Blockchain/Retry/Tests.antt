-- ===== src/Blockchain/Retry/Tests.antt =====
-- A contract call that times out twice and then returns.
use a2a_agent_layer.Common.{ℕ, zero, suc, ◌≡◌, refl, none, [], codes, ok, throw, error, Action}
use a2a_agent_layer.Blockchain.Retry.{
  RetryOptions, settings_of, is_transient_error, Waiting, attempts, with_retry,
}
use a2a_agent_layer.Blockchain.Retry.Laws.{Returns, with_retry-ok_iff}

abbrev options : RetryOptions
options = record {
  max_attempts = none;
  initial_delay_ms = none;
  max_delay_ms = none;
  factor = none;
  jitter = none;
  should_retry = none;
}

-- The state says how many calls will still fail.
abbrev call : Action ℕ ℕ
call zero = (ok 7, 0)
call (suc n) = (throw (error (codes "request Timeout")), n)

abbrev start : Waiting ℕ
start = record { inner = 2; waits = [] }

abbrev unscaled : ℕ → ℕ
unscaled d = d

answered : (with_retry unscaled call options start).0 ≡ ok 7
unfolding with_retry attempts settings_of is_transient_error
answered = refl

with_retry-ok_iff_example :
    Returns unscaled call (settings_of options) (settings_of options).max_attempts 2 7
with_retry-ok_iff_example = (with_retry-ok_iff unscaled call options start 7).0 answered
