-- ===== src/Common/Decimal.antt =====
-- The decimal text of a natural number, as `String(n)` prints it below 10^21.
use Prim.Native.Nat.{ℕ, zero, suc, ◌+◌, ◌/◌, ◌%◌}
use mathlib.Core.List.{[], ◌∷◌}
use a2a_agent_layer.Common.Tests.{ltb, if◌then◌else◌}
use a2a_agent_layer.Common.Strings.{Text}

-- One digit for each unit of fuel at most.
unfoldable pub digits : ℕ → ℕ → Text → Text
digits zero n acc = acc
digits (suc fuel) n acc =
    let more = digits fuel (n / 10) ((n % 10 + b'0') ∷ acc) in
    if ltb n 10 then (n + b'0') ∷ acc else more

unfoldable pub show_ℕ : ℕ → Text
unfolding digits
show_ℕ n = digits (suc n) n []
