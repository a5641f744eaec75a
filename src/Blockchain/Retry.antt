-- ===== src/Blockchain/Retry.antt =====
-- src/common/blockchain/retry.util.ts. The calls that the operation makes and the waits between them
-- are a state. `scale` is the multiplication of a delay by a random factor between 0.5 and 1.5.
pub mod Turns
pub mod Laws
pub mod Delays
pub mod Tests
use a2a_agent_layer.Common.{
  ℕ, zero, suc, ◌+◌, ◌*◌, min, Bool, true, false, not, ◌||◌, Option, List, [], ◌∷◌, ◌++◌, leb, ◌==◌,
  if◌then◌else◌, get_or, any, Text, codes, to_lower, lower_case, Exception, bad_request,
  unauthorized, forbidden, not_found, conflict, error, Outcome, ok, throw, Action,
}

pub record RetryOptions : Type 0 where
  pub max_attempts : Option ℕ
  pub initial_delay_ms : Option ℕ
  pub max_delay_ms : Option ℕ
  pub factor : Option ℕ
  pub jitter : Option Bool
  pub should_retry : Option (Exception → Bool)

pub record RetrySettings : Type 0 where
  pub max_attempts : ℕ
  pub initial_delay_ms : ℕ
  pub max_delay_ms : ℕ
  pub factor : ℕ
  pub jitter : Bool
  pub should_retry : Exception → Bool

unfoldable pub starts_with : Text → Text → Bool
starts_with [] s = true
starts_with (c ∷ p) [] = false
starts_with (c ∷ p) (d ∷ s) = if c == d then starts_with p s else false

-- `/word/.test(text)` for a word of plain characters.
unfoldable pub contains : Text → Text → Bool
unfolding starts_with
contains word [] = starts_with word []
contains word (c ∷ s) = starts_with word (c ∷ s) || contains word s

abbrev pub message_of : Exception → Text
message_of (bad_request m) = m
message_of (unauthorized m) = m
message_of (forbidden m) = m
message_of (not_found m) = m
message_of (conflict m) = m
message_of (error m) = m

-- The patterns with the flag `i`, and those without.
abbrev folded_patterns : List Text
folded_patterns =
    codes "timeout"
    ∷ codes "timed out"
    ∷ codes "network"
    ∷ codes "nonce too low"
    ∷ codes "replacement transaction underpriced"
    ∷ codes "could not detect network"
    ∷ []

abbrev exact_patterns : List Text
exact_patterns = codes "ETIMEDOUT" ∷ codes "ECONNRESET" ∷ codes "ECONNREFUSED" ∷ []

unfoldable pub is_transient_error : Exception → Bool
unfolding contains lower_case
is_transient_error e =
    any (λ p. contains p (lower_case (message_of e))) folded_patterns
    || any (λ p. contains p (message_of e)) exact_patterns

-- `{ ...DEFAULTS, ...options }`
unfoldable pub settings_of : RetryOptions → RetrySettings
settings_of o = record {
  max_attempts = get_or o.max_attempts 5;
  initial_delay_ms = get_or o.initial_delay_ms 200;
  max_delay_ms = get_or o.max_delay_ms 5000;
  factor = get_or o.factor 2;
  jitter = get_or o.jitter true;
  should_retry = get_or o.should_retry is_transient_error;
}

-- What the operation works on, and the waits so far.
pub record Waiting (S : Type 0) : Type 0 where
  pub inner : S
  pub waits : List ℕ

module _ {S A : Type 0} (scale : ℕ → ℕ) (operation : Action S A) where
  -- The loop, with the attempts that are left. Where none was ever made, `lastError` is `undefined`.
  unfoldable pub attempts : RetrySettings → ℕ → ℕ → ℕ → Action (Waiting S) A
  attempts opts zero attempt delay w = (throw (error (codes "undefined")), w)
  attempts opts (suc left) attempt delay w = elim ((operation w.inner).0) [
    | ok a ↦ (ok a, record w { inner = (operation w.inner).1 })
    | throw e ↦
        let wait = if opts.jitter then scale delay else delay in
        let rest =
          attempts opts left (attempt + 1) (min (delay * opts.factor) opts.max_delay_ms)
            (record { inner = (operation w.inner).1; waits = w.waits ++ wait ∷ [] }) in
        if leb opts.max_attempts (attempt + 1) || not (opts.should_retry e)
        then (throw e, record w { inner = (operation w.inner).1 })
        else rest
  ]

  unfoldable pub with_retry : RetryOptions → Action (Waiting S) A
  with_retry options w =
      let opts = settings_of options in attempts opts opts.max_attempts 0 opts.initial_delay_ms w
