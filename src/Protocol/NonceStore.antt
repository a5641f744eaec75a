-- ===== src/Protocol/NonceStore.antt =====
-- `NonceStoreService` of src/modules/protocol/nonce-store.service.ts. Each call of `Date.now()` is an
-- argument, in milliseconds.
pub mod Replay
pub mod Expiry
pub mod Tests
use a2a_agent_layer.Common.{
  ℕ, ◌+◌, ◌*◌, Bool, not, Option, none, some, List, [], ◌∷◌, ◌++◌, ltb, if◌then◌else◌, get_or,
  filter, length, Text, codes, get, has, set, Outcome, ok, throw, conflict,
}
use a2a_agent_layer.Validation.{colon}

-- `entries` maps a key to the time at which it was seen; `eviction_timer` is the period of the
-- interval while it runs.
pub record NonceStore : Type 0 where
  pub entries : List (Text × ℕ)
  pub window_ms : ℕ
  pub eviction_timer : Option ℕ

pub record NonceStoreOptions : Type 0 where
  pub window_ms : Option ℕ
  pub eviction_interval_ms : Option ℕ

abbrev no_options : NonceStoreOptions
no_options = record { window_ms = none; eviction_interval_ms = none }

-- The constructor; `none` is `null`, or no argument.
unfoldable pub construct : Option NonceStoreOptions → NonceStore
construct given =
    let options = get_or given no_options in
    record {
      entries = [];
      window_ms = get_or options.window_ms (5 * 60 * 1000);
      eviction_timer = some (get_or options.eviction_interval_ms (60 * 1000));
    }

-- `entry.seenAt < Date.now() - this.windowMs`, with the window on the left: the difference may be
-- negative in the code.
abbrev pub is_expired : ℕ → ℕ → Text × ℕ → Bool
is_expired now window entry = ltb (entry.1 + window) now

unfoldable pub evict_expired : ℕ → NonceStore → NonceStore
evict_expired now store = record store {
  entries = filter (λ e. not (is_expired now store.window_ms e)) store.entries;
}

-- `${agentId}:${nonce}`
abbrev pub key : Text → Text → Text
key agent_id nonce = agent_id ++ colon ∷ nonce

-- `now` is the time that `evictExpired` reads, and `stamp` the one that the entry records.
unfoldable pub assert_fresh : ℕ → ℕ → Text → Text → NonceStore → Outcome (Unit {0}) × NonceStore
assert_fresh now stamp agent_id nonce store =
    let evicted = evict_expired now store in
    if has evicted.entries (key agent_id nonce)
    then (throw (conflict (codes "Request nonce already used within replay window")), evicted)
    else (ok tt, record evicted { entries = set evicted.entries (key agent_id nonce) stamp })

unfoldable pub size : ℕ → NonceStore → ℕ × NonceStore
size now store = let evicted = evict_expired now store in (length evicted.entries, evicted)

unfoldable pub on_module_destroy : NonceStore → NonceStore
on_module_destroy store = record store { eviction_timer = none }

-- What can happen to a store: a request, a tick of the eviction timer, a reading of its size, and
-- the module's end.
pub data Event : Type 0 where
  request : ℕ → ℕ → Text → Text → Event
  tick measure : ℕ → Event
  destroy : Event

unfoldable pub step : Event → NonceStore → NonceStore
unfolding size on_module_destroy
step (request now stamp agent_id nonce) store = (assert_fresh now stamp agent_id nonce store).1
step (tick now) store = evict_expired now store
step (measure now) store = (size now store).1
step destroy store = on_module_destroy store

unfoldable pub run : List Event → NonceStore → NonceStore
unfolding step
run [] store = store
run (e ∷ events) store = run events (step e store)
