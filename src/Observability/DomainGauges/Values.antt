-- ===== src/Observability/DomainGauges/Values.antt =====
-- What the gauges show after a round of queries.
use a2a_agent_layer.Common.{
  ℕ, suc, Bool, true, false, Bool-cases, any, ◌≡◌, inl, inr, refl, ap, ◌∙◌, Option, none, some,
  List, [], ◌∷◌, if◌then◌else◌, Text, codes, text_eq, get, set, get-set, get-set_self, Outcome, ok,
  throw, arith,
}
use a2a_agent_layer.Common.Dict.Distinct.{Distinct, Distinct-set}
use a2a_agent_layer.Common.Dict.Spread.{get-spread, or_else}
use a2a_agent_layer.Observability.DomainGauges.{
  StatusCount, Numbers, Gauge, State, Rows, agent_statuses, write_zeros, write_rows, set_by_status,
  usage_number, apply_rows, settle_round, settle,
}

module _ (numbers : Numbers) where
  -- The count of the last row with a status, or else what stands there without the rows.
  abbrev pub last_count : Text → List StatusCount → Option numbers.Num → Option numbers.Num
  last_count k [] d = d
  last_count k (row ∷ rows) d =
      last_count k rows (if text_eq row.status k then some (numbers.number row.count) else d)

  -- Every known status has a value, zero if no row names it; a status that is neither known nor named
  -- keeps its value.
  abbrev pub shown : List Text → List StatusCount → Gauge numbers → Text → Option numbers.Num
  shown known rows before k =
      last_count k rows (if any (λ s. text_eq s k) known then some numbers.nil else get before k)

  last_count-or_else :
      (k : Text) (rows : List StatusCount) (o d : Option numbers.Num)
      → or_else (last_count k rows o) d ≡ last_count k rows (or_else o d)
  last_count-or_else k [] o d = refl
  last_count-or_else k (row ∷ rows) o d = elim (Bool-cases (text_eq row.status k)) [
    | inl h ↦ rw h (last_count-or_else k rows (some (numbers.number row.count)) d)
    | inr h ↦ rw h (last_count-or_else k rows o d)
  ]

  get-write_rows :
      (rows : List StatusCount) (m : Gauge numbers) (k : Text)
      → get (write_rows numbers rows m) k ≡ last_count k rows (get m k)
  get-write_rows [] m k = refl
  get-write_rows (row ∷ rows) m k =
      get-write_rows rows (set m row.status (numbers.number row.count)) k
      ∙ ap (last_count k rows) (get-set m row.status (numbers.number row.count) k)

  get-write_zeros :
      (known : List Text) (m : Gauge numbers) (k : Text)
      → get (write_zeros numbers known m) k
        ≡ (if any (λ s. text_eq s k) known then some numbers.nil else get m k)
  get-write_zeros [] m k = refl
  get-write_zeros (status ∷ known) m k =
      ground
        (arith, get-write_zeros known (set m status numbers.nil) k, get-set m status numbers.nil k)

  Distinct-write_zeros :
      (known : List Text) (m : Gauge numbers) → Distinct m → Distinct (write_zeros numbers known m)
  Distinct-write_zeros [] m d = d
  Distinct-write_zeros (status ∷ known) m d =
      Distinct-write_zeros known (set m status numbers.nil) (Distinct-set m status numbers.nil d)

  Distinct-write_rows :
      (rows : List StatusCount) (m : Gauge numbers)
      → Distinct m
      → Distinct (write_rows numbers rows m)
  Distinct-write_rows [] m d = d
  Distinct-write_rows (row ∷ rows) m d =
      Distinct-write_rows rows (set m row.status (numbers.number row.count))
        (Distinct-set m row.status (numbers.number row.count) d)

  zero_or_before :
      (b : Bool) (d : Option numbers.Num)
      → or_else (if b then some numbers.nil else none) d ≡ (if b then some numbers.nil else d)
  zero_or_before true d = refl
  zero_or_before false d = refl

  get-set_by_status :
      (gauge : Gauge numbers) (known : List Text) (rows : List StatusCount) (k : Text)
      → get (set_by_status numbers gauge known rows) k ≡ shown known rows gauge k
  unfolding set_by_status get
  get-set_by_status gauge known rows k =
      get-spread gauge (write_rows numbers rows (write_zeros numbers known [])) k
        (Distinct-write_rows rows (write_zeros numbers known []) (Distinct-write_zeros known [] tt))
      ∙ ap (λ o. or_else o (get gauge k))
          (get-write_rows rows (write_zeros numbers known []) k
            ∙ ap (last_count k rows) (get-write_zeros known [] k))
      ∙ last_count-or_else k rows
          (if any (λ s. text_eq s k) known then some numbers.nil else get [] k) (get gauge k)
      ∙ ap (last_count k rows) (zero_or_before (any (λ s. text_eq s k) known) (get gauge k))

  -- What a round that ends leaves: the rows that it read, or the values from before.
  abbrev pub IsLoaded : Outcome (Rows numbers) → ℕ → State numbers → State numbers → Type 0
  IsLoaded (ok rows) now before after =
      ((k : Text) → get after.agents k ≡ shown agent_statuses rows.agents before.agents k)
      × ((k : Text) → get after.services k ≡ shown agent_statuses rows.services before.services k)
      × (get after.usage_records (codes "pending")
          ≡ some (usage_number numbers (λ u. u.pending) rows.usage))
      × (get after.usage_records (codes "rolled_up")
          ≡ some (usage_number numbers (λ u. u.rolled_up) rows.usage))
      × (after.metering_lag
          ≡ numbers.max numbers.nil (usage_number numbers (λ u. u.lag_seconds) rows.usage))
      × (after.last_refresh_at ≡ now)
      × (after.refresh_errors ≡ before.refresh_errors)
  IsLoaded (throw e) now before after =
      (after.agents ≡ before.agents)
      × (after.services ≡ before.services)
      × (after.usage_records ≡ before.usage_records)
      × (after.metering_lag ≡ before.metering_lag)
      × (after.last_refresh_at ≡ before.last_refresh_at)
      × (after.refresh_errors ≡ suc before.refresh_errors)

  apart :
      {A : Type 0} (a b : A) → (if text_eq (codes "rolled_up") (codes "pending") then a else b) ≡ b
  unfolding text_eq
  apart a b = refl

  round_ends :
      (r : Outcome (Rows numbers)) (now : ℕ) (s : State numbers)
      → (settle_round numbers r (some now) s).in_flight ≡ none
  round_ends (ok rows) now s = refl
  round_ends (throw e) now s = refl

  settle_round-IsLoaded :
      (r : Outcome (Rows numbers)) (now : ℕ) (s : State numbers)
      → IsLoaded r now s (settle_round numbers r (some now) s)
  unfolding apply_rows
  settle_round-IsLoaded (ok rows) now s =
      let pending = usage_number numbers (λ u. u.pending) rows.usage in
      let rolled_up = usage_number numbers (λ u. u.rolled_up) rows.usage in
      let first = set s.usage_records (codes "pending") pending in
      (
        get-set_by_status s.agents agent_statuses rows.agents,
        get-set_by_status s.services agent_statuses rows.services,
        get-set first (codes "rolled_up") rolled_up (codes "pending")
            ∙ apart _ _
            ∙ get-set_self s.usage_records (codes "pending") pending,
        get-set_self first (codes "rolled_up") rolled_up,
        refl,
        refl,
        refl,
      )
  settle_round-IsLoaded (throw e) now s = (refl, refl, refl, refl, refl, refl)

  -- A round of queries that is answered leaves in the gauges of agents and services the count of every
  -- status that the rows name, zero for a known status that they do not, and the old value for any
  -- other; it sets both gauges of usage records and the lag, and remembers when the round began. A
  -- round that fails leaves every gauge as it was and counts one error. Either way no round is in
  -- flight any more.
  pub settle-IsLoaded :
      (r : Outcome (Rows numbers)) (now : ℕ) (s : State numbers)
      → s.in_flight ≡ some now
      → let after = settle numbers r s in IsLoaded r now s after × (after.in_flight ≡ none)
  unfolding settle
  settle-IsLoaded r now s e =
      simp (ap (λ o. settle_round numbers r o s) e)
        (settle_round-IsLoaded r now s, round_ends r now s)
