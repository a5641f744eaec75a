-- ===== src/Chain/Receipts/Tests.antt =====
-- A transaction that is mined late, and whose block is replaced once.
use a2a_agent_layer.Common.{
  ℕ, zero, suc, ◌+◌, ◌*◌, ◌≤◌, ◌<◌, ◌==◌, ltb, ◌≡◌, refl, false, if◌then◌else◌, none, some, [], ◌∷◌,
  codes, ok, arith,
}
use a2a_agent_layer.Chain.Receipts.{
  Receipt, PollOptions, PollReadings, poll_settings, poll_receipt, poll_from, FinalReadings,
  final_turn, await_final,
}
use a2a_agent_layer.Chain.Receipts.Poll.{delay_at, IsPolled, poll_receipt-IsPolled}
use a2a_agent_layer.Chain.Receipts.Final.{await_final_iff}

abbrev receipt : ℕ → Receipt
receipt block = record { block_number = block; status = 1 }

abbrev options : PollOptions
options = record { timeout_ms = some 5; base_ms = some 1; max_ms = some 2 }

abbrev mined : PollReadings
mined = record {
  tx_hash = codes "0x1";
  started = 0;
  clock = λ turn. 2 * turn;
  get_receipt = λ turn. if ltb turn 2 then ok none else ok (some (receipt 7));
}

polls_twice : poll_receipt 7 options mined ≡ some (ok (receipt 7), 1 ∷ 2 ∷ [])
unfolding poll_receipt poll_settings poll_from
polls_twice = refl

delay_small : (turn : ℕ) → delay_at (poll_settings options) mined turn ≤ 2
unfolding poll_settings
delay_small zero = omega arith
delay_small (suc turn) = omega arith

poll_receipt-IsPolled_example :
    IsPolled (poll_settings options) mined (poll_receipt 7 options mined) 0
unfolding poll_settings
poll_receipt-IsPolled_example =
    poll_receipt-IsPolled options mined (omega arith) (omega arith)
      (omega arith, λ turn. omega (arith, delay_small turn))

abbrev turns : ℕ → FinalReadings
turns turn = record {
  receipt = ok (some (receipt 7));
  head = ok (9 + turn);
  recheck = if turn == 1 then ok (some (receipt 8)) else ok (some (receipt 7));
}

await_final_iff_example : (2 < 5) × (final_turn 3 (turns 1) ≡ ok false)
unfolding await_final final_turn
await_final_iff_example =
    let (fuel, final, before) = (await_final_iff 3 turns 5 2).0 refl in
    (fuel, before 1 (omega arith))
