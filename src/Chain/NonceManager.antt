-- ===== src/Chain/NonceManager.antt =====
-- src/blockchain/nonce-manager.ts. The queue of promises runs one call after the other, so that a run is
-- the sequence of the calls. `fetchNonce` and the functions of the callers are parameters.
pub mod Laws
pub mod Tests
use a2a_agent_layer.Common.{
  ℕ, suc, Option, none, some, List, [], ◌∷◌, ◌++◌, Outcome, ok, throw, Action,
}

-- `next` is undefined until the chain was asked, and `queue` is how the promise at its end was settled.
-- `handed` keeps the nonces that the functions of the callers were called with.
pub record NonceManager : Type 0 where
  pub next : Option ℕ
  pub queue : Outcome (Unit {0})
  pub handed : List ℕ

-- What `this.next` is after its first line, if the chain answers where it is asked.
unfoldable pub known_next : Outcome ℕ → Option ℕ → Outcome ℕ
known_next fetched none = fetched
known_next fetched (some n) = ok n

abbrev pub hand_out : {T : Type 0} → (ℕ → Outcome T) → Outcome ℕ → Action NonceManager T
hand_out fn (throw e) m = (throw e, m)
hand_out fn (ok nonce) m =
    (fn nonce, record m { next = some (suc nonce); handed = m.handed ++ (nonce ∷ []) })

-- `queue.then(...)`: behind a rejected promise the body does not run.
abbrev pub after_queue :
    {T : Type 0} → Outcome (Unit {0}) → Action NonceManager T → Action NonceManager T
after_queue (throw e) body m = (throw e, m)
after_queue (ok u) body m = body m

-- `run.catch(() => undefined)`
abbrev pub caught : {T : Type 0} → Outcome T → Outcome (Unit {0})
caught (ok value) = ok tt
caught (throw e) = ok tt

-- `reserve`, when its turn has come. `fetched` is what `fetchNonce` gives where it is called.
unfoldable pub reserve : {T : Type 0} → Outcome ℕ → (ℕ → Outcome T) → Action NonceManager T
unfolding known_next
reserve fetched fn m =
    let (run, m') = after_queue m.queue (hand_out fn (known_next fetched m.next)) m in
    (run, record m' { queue = caught run })

-- A call of `reserve`, with what the chain would answer.
pub record Call (T : Type 0) : Type 0 where
  pub fetched : Outcome ℕ
  pub fn : ℕ → Outcome T

unfoldable pub run_calls : {T : Type 0} → List (Call T) → NonceManager → NonceManager
unfolding reserve
run_calls [] m = m
run_calls (call ∷ calls) m = run_calls calls (reserve call.fetched call.fn m).1
