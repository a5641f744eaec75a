-- ===== src/Chain/Receipts/Poll.antt =====
-- The polling ends, and how.
use a2a_agent_layer.Common.{
  ℕ, zero, suc, ◌+◌, ◌*◌, ◌≤◌, ◌<◌, ltb, min, Bool-cases, ◌≡◌, ◌⊎◌, inl, inr, refl, none, some, [],
  length, Outcome, Outcome-cases, ltb→lt, ok, throw, arith,
}
use a2a_agent_layer.Chain.Receipts.{
  Receipt, PollOptions, PollSettings, poll_settings, PollReadings, Polled, timeout_error, waited,
  poll_from, poll_receipt,
}

module _ (settings : PollSettings) (readings : PollReadings) where
  -- The delay after each turn.
  abbrev pub delay_at : ℕ → ℕ
  delay_at zero = settings.base
  delay_at (suc turn) = min settings.max (delay_at turn * 2)

  -- A timer does not fire before its time, and the clock does not run back.
  abbrev pub Advances : Type 0
  Advances =
      (readings.started ≤ readings.clock 0)
      × ((turn : ℕ) → readings.clock turn + delay_at turn ≤ readings.clock (suc turn))

  -- In each turn before, there was no receipt, and the clock was within the time behind that answer.
  abbrev pub NoneBefore : ℕ → Type 0
  NoneBefore turn =
      (m : ℕ)
      → m < turn
      → (readings.get_receipt m ≡ ok none)
        × (readings.clock m ≤ readings.started + settings.timeout_ms)

  -- The turn that ends the polling: one that throws, that has the receipt, or that has none, and the
  -- clock is behind the time then.
  abbrev pub Ends : ℕ → Outcome Receipt → Type 0
  Ends turn (ok r) = readings.get_receipt turn ≡ ok (some r)
  Ends turn (throw e) =
      (readings.get_receipt turn ≡ throw e)
      ⊎ ((readings.get_receipt turn ≡ ok none)
          × (readings.started + settings.timeout_ms < readings.clock turn)
          × (e ≡ timeout_error readings.tx_hash))

  abbrev pub IsPolled : Polled → ℕ → Type 0
  IsPolled none before = ⊥
  IsPolled (some (r, waits)) before =
      let turn = before + length waits in NoneBefore turn × Ends turn r

  delay_pos : 0 < settings.base → 0 < settings.max → (turn : ℕ) → 0 < delay_at turn
  delay_pos b x zero = b
  delay_pos b x (suc turn) = let p = delay_pos b x turn in omega (arith, x, p)

  clock_ahead :
      0 < settings.base
      → 0 < settings.max
      → Advances
      → (turn : ℕ) → readings.started + turn ≤ readings.clock turn
  clock_ahead b x a zero = omega (arith, a.0)
  clock_ahead b x a (suc turn) =
      let p = delay_pos b x turn in let h = a.1 turn in omega (arith, p, h, clock_ahead b x a turn)

  none_so_far :
      (turn : ℕ)
      → NoneBefore turn
      → readings.get_receipt turn ≡ ok none
      → readings.clock turn ≤ readings.started + settings.timeout_ms
      → NoneBefore (suc turn)
  none_so_far turn before e t m h = elim (Bool-cases (ltb m turn)) [
    | inl lt ↦ before m (ltb→lt m turn lt)
    | inr ge ↦ let same : m ≡ turn = ground arith in rw same (e, t)
  ]

  waited-IsPolled :
      (p : Polled) (delay turn : ℕ) → IsPolled p (suc turn) → IsPolled (waited delay p) turn
  waited-IsPolled none delay turn b = b
  waited-IsPolled (some (r, waits)) delay turn b =
      let same : suc turn + length waits ≡ turn + suc (length waits) = omega arith in rw⁻¹ same b

  ended_now :
      (turn : ℕ) (r : Outcome Receipt)
      → NoneBefore turn
      → Ends turn r
      → IsPolled (some (r, [])) turn
  ended_now turn r before e = let same : turn + 0 ≡ turn = omega arith in rw same (before, e)

  module _ (b : 0 < settings.base) (x : 0 < settings.max) (a : Advances) where
    poll_from-IsPolled :
        (fuel turn delay : ℕ)
        → fuel + turn ≡ settings.timeout_ms + 2
        → turn ≤ settings.timeout_ms + 1
        → NoneBefore turn
        → IsPolled (poll_from settings readings fuel turn delay) turn
    unfolding poll_from
    poll_from-IsPolled zero turn delay f t before = absurd (omega (arith, f, t))
    poll_from-IsPolled (suc fuel) turn delay f t before =
        elim (Outcome-cases (readings.get_receipt turn)) [
          | inr (e, h) ↦ rw h (ended_now turn (throw e) before (inl h))
          | inl (some r, h) ↦ rw h (ended_now turn (ok r) before h)
          | inl (none, h) ↦
              elim (Bool-cases
                (ltb (readings.started + settings.timeout_ms) (readings.clock turn))) [
                  | inl late ↦
                      rw (h, late)
                        (ended_now turn (throw (timeout_error readings.tx_hash)) before (
                          inr (
                            h,
                            ltb→lt (readings.started + settings.timeout_ms) (readings.clock turn)
                                late,
                            refl,
                          )))
                  | inr early ↦
                      let ahead = clock_ahead b x a turn in
                      rw (h, early)
                        (waited-IsPolled
                          (poll_from settings readings fuel (suc turn)
                            (min settings.max (delay * 2)))
                          delay turn
                          (poll_from-IsPolled fuel (suc turn) (min settings.max (delay * 2))
                            (omega (arith, f)) (ground arith)
                            (none_so_far turn before h (ground arith))))
                ]
        ]

-- The polling always ends, if the two delays are positive and the clock advances by the delays: a turn for
-- each millisecond of the timeout and two more are enough. It ends in the first turn in which getReceipt
-- throws or has the receipt, or in which it has none and the clock, read behind it, is past the timeout,
-- with that error, that receipt, or the timeout's error; it has waited once after each turn before.
pub poll_receipt-IsPolled :
    (opts : PollOptions) (readings : PollReadings)
    → let settings = poll_settings opts in
      0 < settings.base
      → 0 < settings.max
      → Advances settings readings
      → IsPolled settings readings (poll_receipt (settings.timeout_ms + 2) opts readings) 0
unfolding poll_receipt
poll_receipt-IsPolled opts readings b x a =
    let settings = poll_settings opts in
    poll_from-IsPolled settings readings b x a (settings.timeout_ms + 2) 0 settings.base
      (omega arith) (omega arith) (λ m h. absurd (omega (arith, h)))
