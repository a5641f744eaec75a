-- ===== src/Health/Tests.antt =====
-- A database that answers, and a chain that never does or fails with an empty message.
use a2a_agent_layer.Common.{ℕ, ◌≤◌, ◌≡◌, refl, false, none, some, codes}
use a2a_agent_layer.Common.Trim.{trim, drop_spaces}
use a2a_agent_layer.Validation.{span}
use a2a_agent_layer.Auth.RefreshToken.{parse_int}
use a2a_agent_layer.Config.{Env, positive_int, parse_number}
use a2a_agent_layer.Health.{
  degraded, resolved, rejected, Dependencies, Thrown, probe, detail, status_of, check_timeout_ms,
  check, readiness, describe_error,
}
use a2a_agent_layer.Health.Laws.{Answers, Says, detail-Says, IsExplained, probe-IsExplained}

abbrev no_env : Env
no_env name = none

abbrev millis : ℕ → ℕ
millis ns = ns

abbrev hanging_chain : Dependencies
hanging_chain = record { database = some (5000, resolved tt); block_number = none }

detail-Says_example :
    ((detail no_env millis 0 hanging_chain 10 20).0 ≤ 2000000020)
    × Says degraded
        (Answers {A = Unit {0}} (some (5000, resolved tt)) 2000000010)
        (Answers {A = ℕ} none 2000000020)
unfolding detail probe status_of check_timeout_ms positive_int parse_number drop_spaces span
    parse_int
detail-Says_example = detail-Says no_env millis 0 hanging_chain 10 20

abbrev refused : Thrown
refused = record { message = some (codes " "); code = some (codes "ECONNREFUSED"); name = none }

probe-IsExplained_example :
    IsExplained (probe (codes "blockchain") false 2000 0 (some (7, rejected refused))).1
probe-IsExplained_example =
    probe-IsExplained (codes "blockchain") false 2000 0 (some (7, rejected refused))

refused_code : describe_error refused ≡ codes "ECONNREFUSED"
unfolding describe_error trim drop_spaces
refused_code = refl

hangs : check no_env millis 0 none ≡ none
unfolding check
hangs = refl

not_ready : readiness (some (3, rejected refused)) ≡ some false
unfolding readiness
not_ready = refl
