-- ===== src/Chain/Receipts/Final.antt =====
-- When a registration counts as final.
use a2a_agent_layer.Common.{
  ℕ, zero, suc, ◌+◌, ◌≤◌, ◌<◌, leb, leb→le, ◌==◌, ==_iff, Bool, true, false, Bool-cases, ◌≡◌, ◌↔◌,
  ◌⊎◌, inl, inr, refl, ap, ◌∙◌, if◌then◌else◌, Option, none, some, Outcome, ok, throw, ok_inj,
  bind_ok, ◌>>=◌, arith,
}
use a2a_agent_layer.Chain.Receipts.{
  Receipt, FinalReadings, still_there, deep_enough, check_receipt, final_turn, after_turn,
  await_final,
}

-- The transaction succeeded, lies deep enough, and is still in its block when it is asked for again.
abbrev pub IsFinal : ℕ → FinalReadings → Type 0
IsFinal need readings =
    (r : Receipt) × (head : ℕ) × (again : Receipt) × (readings.receipt ≡ ok (some r))
    × (r.status ≡ 1)
    × (readings.head ≡ ok head)
    × (r.block_number + need ≤ head)
    × (readings.recheck ≡ ok (some again))
    × (again.block_number ≡ r.block_number)

still_there→ :
    (r : Receipt) (o : Option Receipt)
    → still_there r o ≡ true
    → (again : Receipt) × (o ≡ some again) × (again.block_number ≡ r.block_number)
still_there→ r none e = cc
still_there→ r (some again) e = (again, refl, (==_iff again.block_number r.block_number).0 e)

taken :
    (b : Bool) (m : Outcome Bool)
    → (if b then m else ok false) ≡ ok true
    → (b ≡ true) × (m ≡ ok true)
taken true m e = (refl, e)
taken false m e = cc

deep_enough→ :
    (need : ℕ) (r : Receipt) (head : ℕ) (recheck : Outcome (Option Receipt))
    → deep_enough need r head recheck ≡ ok true
    → (r.block_number + need ≤ head)
      × ((again : Receipt) × (recheck ≡ ok (some again)) × (again.block_number ≡ r.block_number))
deep_enough→ need r head recheck e =
    let (deep, e₁) =
      taken (leb (r.block_number + need) head) (recheck >>= (λ again. ok (still_there r again)))
        e in
    let (o, e₂, e₃) = bind_ok recheck (λ again. ok (still_there r again)) e₁ in
    let (again, e₄, same) = still_there→ r o (ok_inj e₃) in
    (leb→le (r.block_number + need) head deep, (again, e₂ ∙ ap ok e₄, same))

checked :
    (need : ℕ) (readings : FinalReadings) (o : Option Receipt)
    → readings.receipt ≡ ok o
    → check_receipt need readings o ≡ ok true
    → IsFinal need readings
checked need readings none e₁ e₂ = cc
checked need readings (some r) e₁ e₂ =
    let (s, e₃) =
      taken (r.status == 1) (readings.head >>= (λ head. deep_enough need r head readings.recheck))
        e₂ in
    let (head, e₄, e₅) =
      bind_ok readings.head (λ head. deep_enough need r head readings.recheck) e₃ in
    let (deep, (again, e₆, same)) = deep_enough→ need r head readings.recheck e₅ in
    (r, head, again, e₁, (==_iff r.status 1).0 s, e₄, deep, e₆, same)

final_turn-IsFinal :
    (need : ℕ) (readings : FinalReadings)
    → final_turn need readings ≡ ok true
    → IsFinal need readings
unfolding final_turn
final_turn-IsFinal need readings e =
    let (o, e₁, e₂) = bind_ok readings.receipt (λ o. check_receipt need readings o) e in
    checked need readings o e₁ e₂

IsFinal-final_turn :
    (need : ℕ) (readings : FinalReadings)
    → IsFinal need readings
    → final_turn need readings ≡ ok true
unfolding final_turn
IsFinal-final_turn need readings (r, head, again, e₁, s, e₂, deep, e₃, same) =
    let success : (r.status == 1) ≡ true = ground arith in
    let covered : leb (r.block_number + need) head ≡ true = ground arith in
    let there : (again.block_number == r.block_number) ≡ true = ground arith in
    rw e₁ (rw success (rw e₂ (rw covered (rw e₃ (rw there refl)))))

-- The turns from one on, up to the first that ends the loop.
abbrev Waits : ℕ → (ℕ → FinalReadings) → ℕ → ℕ → Type 0
Waits need readings turn n = (m : ℕ) → turn ≤ m → m < n → final_turn need (readings m) ≡ ok false

ended :
    (o : Outcome Bool) (turn : ℕ) (rest : Option (Outcome ℕ)) {n : ℕ}
    → after_turn turn o rest ≡ some (ok n)
    → ((o ≡ ok true) × (turn ≡ n)) ⊎ ((o ≡ ok false) × (rest ≡ some (ok n)))
ended (throw x) turn rest e = cc
ended (ok true) turn rest e = inl (refl, cc)
ended (ok false) turn rest e = inr (refl, e)

module _ (need : ℕ) (readings : ℕ → FinalReadings) where
  Waits-earlier :
      (turn n : ℕ)
      → final_turn need (readings turn) ≡ ok false
      → Waits need readings (suc turn) n
      → Waits need readings turn n
  Waits-earlier turn n e w m h k = elim (Bool-cases (m == turn)) [
    | inl same ↦ rw ((==_iff m turn).0 same) e
    | inr other ↦ w m (ground arith) k
  ]

  returned :
      (fuel turn n : ℕ)
      → await_final need readings fuel turn ≡ some (ok n)
      → (turn ≤ n)
        × (n < turn + fuel)
        × (final_turn need (readings n) ≡ ok true)
        × Waits need readings turn n
  unfolding await_final
  returned zero turn n e = cc
  returned (suc fuel) turn n e =
      elim (ended (final_turn need (readings turn)) turn (await_final need readings fuel (suc turn))
        e) [
          | inl (f, same) ↦ (
            omega (arith, same),
            omega (arith, same),
            rw⁻¹ same f,
            λ m h k. absurd (omega (arith, h, k, same)),
          )
          | inr (f, rest) ↦
              let (a, b, g, w) = returned fuel (suc turn) n rest in
              (omega (arith, a), omega (arith, b), g, Waits-earlier turn n f w)
        ]

  returns :
      (fuel turn n : ℕ)
      → turn ≤ n
      → n < turn + fuel
      → final_turn need (readings n) ≡ ok true
      → Waits need readings turn n
      → await_final need readings fuel turn ≡ some (ok n)
  unfolding await_final
  returns zero turn n a b f w = absurd (omega (arith, a, b))
  returns (suc fuel) turn n a b f w = elim (Bool-cases (turn == n)) [
    | inl same ↦ let e = (==_iff turn n).0 same in rw e (rw f refl)
    | inr other ↦
        let before : turn < n = ground arith in
        rw (w turn (omega arith) before) (
          returns fuel (suc turn) n before (omega (arith, b)) f (λ m h k. w m (omega (arith, h)) k))
  ]

-- The loop returns in the n-th turn exactly if this turn finds the registration final, there is fuel for it,
-- and each turn before ended without an error and without finding it final: the transaction
-- succeeded, has the depth that is needed, and is in the same block when it is asked for again.
pub await_final_iff :
    (need : ℕ) (readings : ℕ → FinalReadings) (fuel n : ℕ)
    → (await_final need readings fuel 0 ≡ some (ok n)) ↔ (
        (n < fuel)
        × IsFinal need (readings n)
        × ((m : ℕ) → m < n → final_turn need (readings m) ≡ ok false))
await_final_iff need readings fuel n = (
  λ e.
      let (a, b, f, w) = returned need readings fuel 0 n e in
      (omega (arith, b), final_turn-IsFinal need (readings n) f, λ m h. w m (omega arith) h),
  λ p.
      returns need readings fuel 0 n (omega arith) (omega (arith, p.0))
        (IsFinal-final_turn need (readings n) p.1) (λ m h k. p.2 m k),
)
