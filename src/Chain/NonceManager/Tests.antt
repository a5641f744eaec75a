-- ===== src/Chain/NonceManager/Tests.antt =====
-- Three calls: the chain does not answer the first, and the function of the second fails.
use a2a_agent_layer.Common.{ℕ, ◌≡◌, refl, none, some, List, [], ◌∷◌, codes, ok, throw, error}
use a2a_agent_layer.Chain.NonceManager.{Call, run_calls, reserve, known_next}
use a2a_agent_layer.Chain.NonceManager.Laws.{run_calls-nonces}

abbrev calls : List (Call ℕ)
calls =
    record { fetched = throw (error (codes "rpc")); fn = λ n. ok n }
    ∷ record { fetched = ok 7; fn = λ n. throw (error (codes "reverted")) }
    ∷ record { fetched = ok 0; fn = λ n. ok n }
    ∷ []

run_calls-nonces_example :
    (run_calls calls (record { next = none; queue = ok tt; handed = [] })).handed ≡ 7 ∷ 8 ∷ []
run_calls-nonces_example = run_calls-nonces calls none []

-- The nonce of the call that failed is not used again.
gap : (reserve (ok 0) (λ n. ok n) (record { next = some 8; queue = ok tt; handed = [] })).0 ≡ ok 8
unfolding reserve known_next
gap = refl
