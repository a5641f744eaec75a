-- ===== src/Protocol/NonceStore/Expiry.antt =====
-- The store holds each key once, forgets what has left the window, and keeps the agents apart.
use a2a_agent_layer.Common.{
  ℕ, ◌+◌, ◌≤◌, ◌<◌, true, false, not, ◌≡◌, ◌≢◌, ◌↔◌, ap, inl, inr, Option, some, List, [], ◌∷◌,
  filter, All, Bool-cases, Option-cases, Text, get, has, set, ok, arith,
}
use a2a_agent_layer.Common.Dict.Distinct.{
  Distinct, Distinct-filter, Distinct-set, get-filter-none, get-filter-some, get-filter-set_ne,
}
use a2a_agent_layer.Validation.{is_did}
use a2a_agent_layer.Validation.Did.{did-colon_inj}
use a2a_agent_layer.Protocol.NonceStore.{
  NonceStore, NonceStoreOptions, construct, is_expired, evict_expired, key, assert_fresh, Event,
  request, tick, measure, destroy, step, run,
}
use a2a_agent_layer.Protocol.NonceStore.Replay.{assert_fresh_seen, assert_fresh_new}

-- The keys are distinct.
abbrev pub IsValid : NonceStore → Type 0
IsValid store = Distinct store.entries

evict-IsValid : (now : ℕ) (store : NonceStore) → IsValid store → IsValid (evict_expired now store)
unfolding evict_expired
evict-IsValid now store v = Distinct-filter _ store.entries v

assert_fresh-IsValid :
    (now stamp : ℕ) (agent_id nonce : Text) (store : NonceStore)
    → IsValid store
    → IsValid (assert_fresh now stamp agent_id nonce store).1
assert_fresh-IsValid now stamp agent_id nonce store v =
    elim (Bool-cases (has (evict_expired now store).entries (key agent_id nonce))) [
      | inl seen ↦
          rw (assert_fresh_seen now stamp agent_id nonce store seen) (evict-IsValid now store v)
      | inr new ↦
          rw (assert_fresh_new now stamp agent_id nonce store new)
            (Distinct-set _ (key agent_id nonce) stamp (evict-IsValid now store v))
    ]

step-IsValid : (e : Event) (store : NonceStore) → IsValid store → IsValid (step e store)
unfolding step
step-IsValid (request now stamp agent_id nonce) store v =
    assert_fresh-IsValid now stamp agent_id nonce store v
step-IsValid (tick now) store v = evict-IsValid now store v
step-IsValid (measure now) store v = evict-IsValid now store v
step-IsValid destroy store v = v

run-IsValid :
    (events : List Event) (store : NonceStore) → IsValid store → IsValid (run events store)
unfolding run
run-IsValid [] store v = v
run-IsValid (e ∷ events) store v = run-IsValid events (step e store) (step-IsValid e store v)

-- From its construction on, whatever the options and the events, a store holds no key twice.
pub run-construct-IsValid :
    (options : Option NonceStoreOptions) (events : List Event)
    → IsValid (run events (construct options))
unfolding construct
run-construct-IsValid options events = run-IsValid events (construct options) tt

kept :
    (now window : ℕ) (m : List (Text × ℕ))
    → All (λ e. now ≤ e.1 + window) (filter (λ e. not (is_expired now window e)) m)
kept now window [] = tt
kept now window ((j, t) ∷ m) = ground (arith, kept now window m)

-- After an eviction every entry lies within the window.
pub evict_expired-within :
    (now : ℕ) (store : NonceStore)
    → All (λ e. now ≤ e.1 + store.window_ms) (evict_expired now store).entries
unfolding evict_expired
evict_expired-within now store = kept now store.window_ms store.entries

module _ (now stamp : ℕ) (agent_id nonce : Text) (store : NonceStore) where
  ok_of_absent :
      has (evict_expired now store).entries (key agent_id nonce) ≡ false
      → (assert_fresh now stamp agent_id nonce store).0 ≡ ok tt
  ok_of_absent new = ap (λ r. r.0) (assert_fresh_new now stamp agent_id nonce store new)

  absent_of_ok :
      (assert_fresh now stamp agent_id nonce store).0 ≡ ok tt
      → has (evict_expired now store).entries (key agent_id nonce) ≡ false
  absent_of_ok e = elim (Bool-cases (has (evict_expired now store).entries (key agent_id nonce))) [
    | inl seen ↦ absurd (cc (rw (assert_fresh_seen now stamp agent_id nonce store seen) at e))
    | inr new ↦ new
  ]

  has_after_evict :
      IsValid store
      → (has (evict_expired now store).entries (key agent_id nonce) ≡ false)
        ↔ ((t : ℕ) → get store.entries (key agent_id nonce) ≡ some t → t + store.window_ms < now)
  unfolding has evict_expired
  has_after_evict v = elim (Option-cases (get store.entries (key agent_id nonce))) [
    | inl missing ↦
        (λ h t e. cc, λ h. rw (get-filter-none _ store.entries (key agent_id nonce) missing))
    | inr (t, found) ↦
        let after =
          get-filter-some (λ e. not (is_expired now store.window_ms e)) store.entries
            (key agent_id nonce) t v found in
        (λ h t' e. ground arith, λ h. ground (arith, h t found))
  ]

-- On a store that holds each key once, a nonce is accepted exactly if its key is not in the store, or
-- the time recorded with it lies more than the window in the past.
pub assert_fresh-ok_iff :
    (now stamp : ℕ) (agent_id nonce : Text) (store : NonceStore)
    → IsValid store
    → ((assert_fresh now stamp agent_id nonce store).0 ≡ ok tt)
      ↔ ((t : ℕ) → get store.entries (key agent_id nonce) ≡ some t → t + store.window_ms < now)
assert_fresh-ok_iff now stamp agent_id nonce store v =
    let e = has_after_evict now stamp agent_id nonce store v in
    (
      λ h. e.0 (absent_of_ok now stamp agent_id nonce store h),
      λ h. ok_of_absent now stamp agent_id nonce store (e.1 h),
    )

same_answer :
    (now stamp : ℕ) (agent_id nonce : Text) (s t : NonceStore)
    → has (evict_expired now s).entries (key agent_id nonce)
      ≡ has (evict_expired now t).entries (key agent_id nonce)
    → (assert_fresh now stamp agent_id nonce s).0 ≡ (assert_fresh now stamp agent_id nonce t).0
unfolding assert_fresh
same_answer now stamp agent_id nonce s t e = ground arith

has-evict-set :
    (now : ℕ) (k q : Text) (stamp : ℕ) (store : NonceStore)
    → k ≢ q
    → has (evict_expired now (record store { entries = set store.entries k stamp })).entries q
      ≡ has (evict_expired now store).entries q
unfolding evict_expired has
has-evict-set now k q stamp store n = rw (get-filter-set_ne _ store.entries k stamp q n)

-- A request of one agent with one nonce does not change the answer to another pair of agent and nonce,
-- if both agents are named by DIDs.
pub assert_fresh_separate :
    (now stamp now' stamp' : ℕ) (a b n m : Text) (store : NonceStore)
    → is_did a ≡ true
    → is_did b ≡ true
    → ¬ ((a ≡ b) × (n ≡ m))
    → (assert_fresh now' stamp' b m (assert_fresh now stamp a n store).1).0
      ≡ (assert_fresh now' stamp' b m (evict_expired now store)).0
assert_fresh_separate now stamp now' stamp' a b n m store da db apart =
    elim (Bool-cases (has (evict_expired now store).entries (key a n))) [
      | inl seen ↦ rw (assert_fresh_seen now stamp a n store seen)
      | inr new ↦ rw (assert_fresh_new now stamp a n store new) (
          same_answer now' stamp' b m _ _ (
            has-evict-set now' (key a n) (key b m) stamp _
              (λ e. apart (did-colon_inj a b n m da db e))))
    ]
