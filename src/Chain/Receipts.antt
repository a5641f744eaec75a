-- ===== src/Chain/Receipts.antt =====
-- src/blockchain/receipt-poller.ts and src/blockchain/confirmation-policy.ts. Both loops run on fuel, one
-- unit for each turn; what they read in a turn is given by the number of the turn.
pub mod Poll
pub mod Final
pub mod Tests
use a2a_agent_layer.Common.{
  ℕ, zero, suc, ◌+◌, ◌*◌, leb, ltb, ◌==◌, min, Bool, true, false, ◌&&◌, Option, none, some, get_or,
  List, [], ◌∷◌, ◌++◌, if◌then◌else◌, Text, codes, Exception, error, Outcome, ok, throw, ◌>>=◌,
}

pub record Receipt : Type 0 where
  pub block_number : ℕ
  pub status : ℕ

pub record PollOptions : Type 0 where
  pub timeout_ms : Option ℕ
  pub base_ms : Option ℕ
  pub max_ms : Option ℕ

pub record PollSettings : Type 0 where
  pub timeout_ms : ℕ
  pub base : ℕ
  pub max : ℕ

unfoldable pub poll_settings : PollOptions → PollSettings
poll_settings opts = record {
  timeout_ms = get_or opts.timeout_ms 120000;
  base = get_or opts.base_ms 500;
  max = get_or opts.max_ms 8000;
}

-- `started` is `Date.now` at the start, `clock` what it is in each turn, and `get_receipt` the node's
-- answer in each turn.
pub record PollReadings : Type 0 where
  pub tx_hash : Text
  pub started : ℕ
  pub clock : ℕ → ℕ
  pub get_receipt : ℕ → Outcome (Option Receipt)

abbrev pub timeout_error : Text → Exception
timeout_error tx_hash = error (codes "Receipt timeout for " ++ tx_hash)

-- How the loop ended, and for how long it waited after each turn before.
abbrev pub Polled : Type 0
Polled = Option (Outcome Receipt × List ℕ)

abbrev pub waited : ℕ → Polled → Polled
waited delay none = none
waited delay (some (r, waits)) = some (r, delay ∷ waits)

-- The turn behind `getReceipt`, with the turns to come.
abbrev pub poll_turn : Outcome (Option Receipt) → Bool → Text → ℕ → Polled → Polled
poll_turn (throw e) expired tx_hash delay rest = some (throw e, [])
poll_turn (ok (some r)) expired tx_hash delay rest = some (ok r, [])
poll_turn (ok none) true tx_hash delay rest = some (throw (timeout_error tx_hash), [])
poll_turn (ok none) false tx_hash delay rest = waited delay rest

unfoldable pub poll_from : PollSettings → PollReadings → ℕ → ℕ → ℕ → Polled
poll_from settings readings zero turn delay = none
poll_from settings readings (suc fuel) turn delay =
    let rest = poll_from settings readings fuel (suc turn) (min settings.max (delay * 2)) in
    poll_turn (readings.get_receipt turn)
      (ltb (readings.started + settings.timeout_ms) (readings.clock turn)) readings.tx_hash delay
      rest

unfoldable pub poll_receipt : ℕ → PollOptions → PollReadings → Polled
unfolding poll_from poll_settings
poll_receipt fuel opts readings =
    let settings = poll_settings opts in poll_from settings readings fuel 0 settings.base

-- What a turn of `awaitFinal` reads: a receipt, the head of the chain, and the receipt again.
pub record FinalReadings : Type 0 where
  pub receipt : Outcome (Option Receipt)
  pub head : Outcome ℕ
  pub recheck : Outcome (Option Receipt)

-- `recheck && recheck.blockNumber === r.blockNumber`
abbrev pub still_there : Receipt → Option Receipt → Bool
still_there r none = false
still_there r (some again) = again.block_number == r.block_number

abbrev pub deep_enough : ℕ → Receipt → ℕ → Outcome (Option Receipt) → Outcome Bool
deep_enough need r head recheck =
    if leb (r.block_number + need) head
    then recheck >>= (λ again. ok (still_there r again))
    else ok false

abbrev pub check_receipt : ℕ → FinalReadings → Option Receipt → Outcome Bool
check_receipt need readings none = ok false
check_receipt need readings (some r) =
    if r.status == 1
    then readings.head >>= (λ head. deep_enough need r head readings.recheck)
    else ok false

-- One turn: whether the registration is final.
unfoldable pub final_turn : ℕ → FinalReadings → Outcome Bool
final_turn need readings = readings.receipt >>= (λ o. check_receipt need readings o)

abbrev pub after_turn : ℕ → Outcome Bool → Option (Outcome ℕ) → Option (Outcome ℕ)
after_turn turn (throw e) rest = some (throw e)
after_turn turn (ok true) rest = some (ok turn)
after_turn turn (ok false) rest = rest

-- `awaitFinal`: the turn in which it returned.
unfoldable pub await_final : ℕ → (ℕ → FinalReadings) → ℕ → ℕ → Option (Outcome ℕ)
unfolding final_turn
await_final need readings zero turn = none
await_final need readings (suc fuel) turn =
    let rest = await_final need readings fuel (suc turn) in
    after_turn turn (final_turn need (readings turn)) rest
