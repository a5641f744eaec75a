-- ===== src/Protocol/NonceStore/Tests.antt =====
-- A store with one nonce in it.
use a2a_agent_layer.Common.{
  ℕ, ◌+◌, ◌<◌, ◌≡◌, ◌≢◌, ◌↔◌, refl, some, [], ◌∷◌, List, Text, codes, get, has, ok,
}
use a2a_agent_layer.Protocol.NonceStore.{
  NonceStore, evict_expired, key, assert_fresh, Event, request, tick, measure,
}
use a2a_agent_layer.Protocol.NonceStore.Expiry.{assert_fresh-ok_iff}

abbrev pub alice : Text
alice = codes "did:x:1"

abbrev bob : Text
bob = codes "did:x:12"

abbrev pub nonce : Text
nonce = codes "n1"

abbrev pub empty_store : NonceStore
empty_store = record { entries = []; window_ms = 1000; eviction_timer = some 60 }

abbrev used_store : NonceStore
used_store = record empty_store { entries = (key alice nonce, 3) ∷ [] }

abbrev pub later : List Event
later = tick 500 ∷ request 600 601 bob nonce ∷ measure 900 ∷ []

fresh : (assert_fresh 5 6 alice nonce empty_store).0 ≡ ok tt
unfolding assert_fresh evict_expired has get
fresh = refl

assert_fresh-ok_iff_example :
    ((assert_fresh 2000 2001 alice nonce used_store).0 ≡ ok tt)
    ↔ ((t : ℕ) → get used_store.entries (key alice nonce) ≡ some t → t + 1000 < 2000)
unfolding get
assert_fresh-ok_iff_example = assert_fresh-ok_iff 2000 2001 alice nonce used_store (refl, tt)

apart : alice ≢ bob
apart e = cc
