-- ===== src/Chain/NonceManager/Laws.antt =====
-- The nonces of a run are consecutive.
use a2a_agent_layer.Common.{
  ℕ, zero, suc, ◌≡◌, refl, sym, ap, ◌∙◌, Option, none, some, List, [], ◌∷◌, ◌++◌, append-nil,
  append_assoc, length, Outcome, Outcome-cases, ok, throw, inl, inr,
}
use a2a_agent_layer.Chain.NonceManager.{NonceManager, known_next, caught, reserve, Call, run_calls}

-- The numbers from `n` on.
abbrev pub upward : ℕ → ℕ → List ℕ
upward n zero = []
upward n (suc k) = n ∷ upward (suc n) k

-- The nonces of a sequence of calls: with the next one known, one for each call; else they begin with
-- the first call that the chain answers, and the calls before have none.
abbrev pub nonces : {T : Type 0} → List (Call T) → Option ℕ → List ℕ
nonces calls (some n) = upward n (length calls)
nonces [] none = []
nonces (call ∷ calls) none = elim call.fetched [
  | ok n ↦ upward n (suc (length calls))
  | throw e ↦ nonces calls none
]

caught-ok : {T : Type 0} (answer : Outcome T) → caught answer ≡ ok tt
caught-ok (ok value) = refl
caught-ok (throw e) = refl

module _ {T : Type 0} where
  -- A call whose nonce is known hands it out, and leaves the queue open.
  reserve-known :
      (call : Call T) (n : ℕ) (handed : List ℕ)
      → (reserve call.fetched call.fn (record { next = some n; queue = ok tt; handed = handed })).1
        ≡ record { next = some (suc n); queue = ok tt; handed = handed ++ (n ∷ []) }
  unfolding reserve known_next
  reserve-known call n handed =
      ap
        (λ q.
          let m : NonceManager = record {
            next = some (suc n);
            queue = q;
            handed = handed ++ (n ∷ []);
          } in
          m)
        (caught-ok (call.fn n))

  known-upward :
      (calls : List (Call T)) (n : ℕ) (handed : List ℕ)
      → (run_calls calls (record { next = some n; queue = ok tt; handed = handed })).handed
        ≡ handed ++ upward n (length calls)
  unfolding run_calls
  known-upward [] n handed = sym (append-nil handed)
  known-upward (call ∷ calls) n handed =
      ap (λ m. (run_calls calls m).handed) (reserve-known call n handed)
      ∙ known-upward calls (suc n) (handed ++ (n ∷ []))
      ∙ append_assoc handed (n ∷ []) (upward (suc n) (length calls))

  -- A queue that is not rejected hands each call of a sequence its own nonce, however the functions of
  -- the calls before it ended: the nonces are consecutive from the one that is known, or else from the
  -- first that the chain answers, and only the calls before that answer have none.
  pub run_calls-nonces :
      (calls : List (Call T)) (next : Option ℕ) (handed : List ℕ)
      → (run_calls calls (record { next = next; queue = ok tt; handed = handed })).handed
        ≡ handed ++ nonces calls next
  unfolding run_calls reserve known_next
  run_calls-nonces calls (some n) handed = known-upward calls n handed
  run_calls-nonces [] none handed = sym (append-nil handed)
  run_calls-nonces (call ∷ calls) none handed = elim (Outcome-cases call.fetched) [
    | inl (n, e) ↦ rw e (
        ap
          (λ q.
            let m : NonceManager = record {
              next = some (suc n);
              queue = q;
              handed = handed ++ (n ∷ []);
            } in
            (run_calls calls m).handed)
          (caught-ok (call.fn n))
        ∙ known-upward calls (suc n) (handed ++ (n ∷ []))
        ∙ append_assoc handed (n ∷ []) (upward (suc n) (length calls)))
    | inr (x, e) ↦ rw e (run_calls-nonces calls none handed)
  ]
