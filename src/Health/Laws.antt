-- ===== src/Health/Laws.antt =====
-- When the health endpoint answers, and what.
use a2a_agent_layer.Common.{
  ℕ, ◌+◌, ◌*◌, ◌≤◌, ◌<◌, ltb, ◌≡◌, ◌≢◌, ◌⊎◌, inl, inr, refl, Bool, Bool-cases, ltb→lt, [], ◌∷◌,
  true, false, List, length, ◌==◌, Option, none, some, Text, codes, arith,
}
use a2a_agent_layer.Common.Trim.{trim, drop_spaces}
use a2a_agent_layer.Config.{Env}
use a2a_agent_layer.Health.{
  DependencyState, up, HealthState, ok, degraded, DependencyHealth, Settled, resolved, rejected,
  Pending, Thrown, race, report, probe, later, status_of, check_timeout_ms, timer_ms, Dependencies,
  first_text, describe_error, detail, no_details, block_details, timed_out,
}

-- A dependency answers, and before the timer fires.
abbrev pub Answers : {A : Type 0} → Pending A → ℕ → Type 0
Answers none timer = ⊥
Answers (some (at, resolved a)) timer = at < timer
Answers (some (at, rejected e)) timer = ⊥

-- What the status says of two dependencies, the first of which is critical.
abbrev pub Says : HealthState → Type 0 → Type 0 → Type 0
Says ok A B = A × B
Says degraded A B = A × (¬ B)
Says HealthState.down A B = ¬ A

-- What is reported of one dependency: it is up if it answers, and its report is there in time.
abbrev Reported : ℕ → Bool → Type 0 → ℕ × DependencyHealth → Type 0
Reported timer critical A (at, dep) =
    (at ≤ timer)
    × (dep.critical ≡ critical)
    × ((A × (dep.status ≡ up)) ⊎ ((¬ A) × (dep.status ≡ DependencyState.down)))

report-Reported :
    (name : Text) (critical : Bool) (check : Pending (Option ℕ)) (timer : ℕ) (e : Thrown)
    → Reported timer critical (Answers check timer) (report name critical (race check timer e))
report-Reported name critical none timer e = (omega arith, refl, inr (λ z. z, refl))
report-Reported name critical (some (at, resolved a)) timer e = elim (Bool-cases (ltb at timer)) [
  | inl h ↦ rw h (ground arith, refl, inl (ltb→lt at timer h, refl))
  | inr h ↦ rw h (omega arith, refl, inr (ground arith, refl))
]
report-Reported name critical (some (at, rejected x)) timer e = elim (Bool-cases (ltb at timer)) [
  | inl h ↦ rw h (ground arith, refl, inr (λ z. z, refl))
  | inr h ↦ rw h (omega arith, refl, inr (λ z. z, refl))
]

status_of-Says :
    {A B : Type 0} (s t : ℕ) (d e : ℕ × DependencyHealth)
    → Reported s true A d
    → Reported t false B e
    → Says (status_of (d.1 ∷ e.1 ∷ [])) A B
unfolding status_of
status_of-Says s t d e (_, c₁, inr (n, h)) (_, c₂, r) = rw (c₁, h) n
status_of-Says s t d e (_, c₁, inl (a, h)) (_, c₂, inl (b, k)) = rw (c₁, h, c₂, k) (a, b)
status_of-Says s t d e (_, c₁, inl (a, h)) (_, c₂, inr (b, k)) = rw (c₁, h, c₂, k) (a, b)

later_le : {a b : ℕ} (t x y : ℕ) → a ≤ t + x → b ≤ t + y → later a b ≤ t + later x y
later_le t x y h k = ground arith

no_details-Answers :
    (p : Pending (Unit {0})) (timer : ℕ) → Answers (no_details p) timer ≡ Answers p timer
no_details-Answers none timer = refl
no_details-Answers (some (at, resolved u)) timer = refl
no_details-Answers (some (at, rejected e)) timer = refl

block_details-Answers :
    (p : Pending ℕ) (timer : ℕ) → Answers (block_details p) timer ≡ Answers p timer
block_details-Answers none timer = refl
block_details-Answers (some (at, resolved n)) timer = refl
block_details-Answers (some (at, rejected e)) timer = refl

module _ (env : Env) (clock : ℕ → ℕ) (start_time : ℕ) where
  -- The detailed check always answers, also where a dependency never does: at the latest when the later
  -- of the two timers fires. It says ok if both dependencies answer before their timers, degraded if
  -- only the database does, and down if the database does not.
  pub detail-Says :
      (deps : Dependencies) (late₁ late₂ : ℕ)
      → let (at, answer) = detail env clock start_time deps late₁ late₂ in
        let timeout = timer_ms (check_timeout_ms env) * 1000000 in
        (at ≤ timeout + later late₁ late₂)
        × Says answer.status
            (Answers deps.database (timeout + late₁))
            (Answers deps.block_number (timeout + late₂))
  unfolding detail probe
  detail-Says deps late₁ late₂ =
      let timeout = timer_ms (check_timeout_ms env) * 1000000 in
      let e = timed_out (check_timeout_ms env) in
      let d =
        report-Reported (codes "database") true (no_details deps.database) (timeout + late₁) e in
      let b =
        report-Reported (codes "blockchain") false (block_details deps.block_number)
          (timeout + late₂) e in
      (
        later_le timeout late₁ late₂ d.0 b.0,
        rw⁻¹
            (
              no_details-Answers deps.database (timeout + late₁),
              block_details-Answers deps.block_number (timeout + late₂),
            )
            (status_of-Says (timeout + late₁) (timeout + late₂)
              (probe (codes "database") true (check_timeout_ms env) late₁
                (no_details deps.database))
              (probe (codes "blockchain") false (check_timeout_ms env) late₂
                (block_details deps.block_number))
              d b),
      )

trims_to_text : (s : Text) → (length (trim s) == 0) ≡ false → trim s ≢ []
trims_to_text s h e = let z : (length (trim s) == 0) ≡ true = rw e refl in cc

unknown-trim : trim (codes "Unknown error") ≢ []
unfolding trim drop_spaces
unknown-trim e = cc

first_text-trim : (candidates : List (Option Text)) → trim (first_text candidates) ≢ []
first_text-trim [] = unknown-trim
first_text-trim (none ∷ candidates) = first_text-trim candidates
first_text-trim (some value ∷ candidates) = elim (Bool-cases (length (trim value) == 0)) [
  | inl h ↦ rw h (first_text-trim candidates)
  | inr h ↦ rw h (trims_to_text value h)
]

-- The error of a report: there is one exactly if the dependency is down, and it is not blank.
abbrev pub IsExplained : DependencyHealth → Type 0
IsExplained dep =
    ((dep.status ≡ DependencyState.down)
      × ((text : Text) × (dep.error ≡ some text) × (trim text ≢ [])))
    ⊎ ((dep.status ≡ up) × (dep.error ≡ none))

explained :
    (name : Text) (critical : Bool) (settled : ℕ × Settled (Option ℕ))
    → IsExplained (report name critical settled).1
unfolding describe_error
explained name critical (at, resolved details) = inr (refl, refl)
explained name critical (at, rejected e) =
    inl (refl, (describe_error e, refl, first_text-trim (e.message ∷ e.code ∷ e.name ∷ [])))

-- A probe that reports its dependency as down gives an error that is not blank, also where the thrown
-- value has an empty message or none; one that reports it as up gives no error.
pub probe-IsExplained :
    (name : Text) (critical : Bool) (timeout_ms late : ℕ) (check : Pending (Option ℕ))
    → IsExplained (probe name critical timeout_ms late check).1
unfolding probe describe_error
probe-IsExplained name critical timeout_ms late check =
    explained name critical
      (race check (timer_ms timeout_ms * 1000000 + late) (timed_out timeout_ms))
