-- ===== src/Protocol/NonceStore/Replay.antt =====
-- Within the window a nonce is accepted once, whatever happens in between.
use a2a_agent_layer.Common.{
  ℕ, ◌+◌, ◌≤◌, true, false, ◌≡◌, refl, some, List, [], ◌∷◌, All, Text, codes, get, has, set,
  get-set_self, ok, throw, conflict, arith, ap, Bool-cases, inl, inr,
}
use a2a_agent_layer.Common.Dict.Filter.{get-filter, has_of_get, get-set_other}
use a2a_agent_layer.Protocol.NonceStore.{
  NonceStore, evict_expired, key, assert_fresh, Event, request, tick, measure, destroy, step, run,
}

module _ (now stamp : ℕ) (agent_id nonce : Text) (store : NonceStore) where
  abbrev pub evicted : NonceStore
  evicted = evict_expired now store

  pub assert_fresh_seen :
      has evicted.entries (key agent_id nonce) ≡ true
      → assert_fresh now stamp agent_id nonce store
        ≡ (throw (conflict (codes "Request nonce already used within replay window")), evicted)
  unfolding assert_fresh
  assert_fresh_seen e = rw e

  pub assert_fresh_new :
      has evicted.entries (key agent_id nonce) ≡ false
      → assert_fresh now stamp agent_id nonce store
        ≡ (ok tt, record evicted { entries = set evicted.entries (key agent_id nonce) stamp })
  unfolding assert_fresh
  assert_fresh_new e = rw e

-- The latest time that an event reads.
abbrev pub clock : Event → ℕ
clock (request now stamp agent_id nonce) = now
clock (tick now) = now
clock (measure now) = now
clock destroy = 0

module _ (k : Text) (seen_at window : ℕ) where
  -- The key is in the store, with this time, under this window.
  abbrev pub Holds : NonceStore → Type 0
  Holds store = (get store.entries k ≡ some seen_at) × (store.window_ms ≡ window)

  evict-Holds :
      (now : ℕ) (store : NonceStore)
      → now ≤ seen_at + window
      → Holds store
      → Holds (evict_expired now store)
  unfolding evict_expired
  evict-Holds now store le h = (get-filter _ store.entries k seen_at h.0 (λ j e. ground arith), h.1)

  assert_fresh-Holds :
      (now stamp : ℕ) (agent_id nonce : Text) (store : NonceStore)
      → now ≤ seen_at + window
      → Holds store
      → Holds (assert_fresh now stamp agent_id nonce store).1
  assert_fresh-Holds now stamp agent_id nonce store le h =
      let kept = evict-Holds now store le h in
      elim (Bool-cases (has (evict_expired now store).entries (key agent_id nonce))) [
        | inl seen ↦ rw (assert_fresh_seen now stamp agent_id nonce store seen) kept
        | inr new ↦
            rw (assert_fresh_new now stamp agent_id nonce store new)
              (get-set_other _ k (key agent_id nonce) seen_at stamp new kept.0, kept.1)
      ]

  step-Holds :
      (e : Event) (store : NonceStore)
      → clock e ≤ seen_at + window
      → Holds store
      → Holds (step e store)
  unfolding step
  step-Holds (request now stamp agent_id nonce) store le h =
      assert_fresh-Holds now stamp agent_id nonce store le h
  step-Holds (tick now) store le h = evict-Holds now store le h
  step-Holds (measure now) store le h = evict-Holds now store le h
  step-Holds destroy store le h = h

  run-Holds :
      (events : List Event) (store : NonceStore)
      → All (λ e. clock e ≤ seen_at + window) events
      → Holds store
      → Holds (run events store)
  unfolding run
  run-Holds [] store le h = h
  run-Holds (e ∷ events) store le h =
      run-Holds events (step e store) le.1 (step-Holds e store le.0 h)

evict_window :
    (now : ℕ) (store : NonceStore) → (evict_expired now store).window_ms ≡ store.window_ms
unfolding evict_expired
evict_window now store = refl

-- What a successful call leaves in the store.
assert_fresh-ok :
    (now stamp : ℕ) (agent_id nonce : Text) (store : NonceStore)
    → (assert_fresh now stamp agent_id nonce store).0 ≡ ok tt
    → Holds
        (key agent_id nonce)
        stamp
        store.window_ms
        (assert_fresh now stamp agent_id nonce store).1
assert_fresh-ok now stamp agent_id nonce store e =
    elim (Bool-cases (has (evict_expired now store).entries (key agent_id nonce))) [
      | inl seen ↦ absurd (cc (rw (assert_fresh_seen now stamp agent_id nonce store seen) at e))
      | inr new ↦
          rw (assert_fresh_new now stamp agent_id nonce store new)
            (get-set_self _ (key agent_id nonce) stamp, evict_window now store)
    ]

-- Once a request with this agent and nonce has been accepted and stamped, then after any events that
-- read no time later than the end of the window after the stamp, a request with the same agent and
-- nonce within that window is rejected with a conflict.
pub assert_fresh_no_replay :
    (now stamp : ℕ) (agent_id nonce : Text) (store : NonceStore) (events : List Event)
    (now' stamp' : ℕ)
    → (assert_fresh now stamp agent_id nonce store).0 ≡ ok tt
    → All (λ e. clock e ≤ stamp + store.window_ms) events
    → now' ≤ stamp + store.window_ms
    → (assert_fresh now' stamp' agent_id nonce
        (run events (assert_fresh now stamp agent_id nonce store).1)).0
      ≡ throw (conflict (codes "Request nonce already used within replay window"))
assert_fresh_no_replay now stamp agent_id nonce store events now' stamp' e le le' =
    let k = key agent_id nonce in
    let accepted = assert_fresh-ok now stamp agent_id nonce store e in
    let later = run-Holds k stamp store.window_ms events _ le accepted in
    let kept = evict-Holds k stamp store.window_ms now' _ le' later in
    ap (λ r. r.0) (assert_fresh_seen now' stamp' agent_id nonce _ (has_of_get _ k stamp kept.0))
