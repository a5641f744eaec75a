-- ===== src/Metering/Rollup/Laws.antt =====
-- What a rollup writes, and that it can be run again.
use a2a_agent_layer.Common.{
  ℕ, ◌+◌, ◌/◌, ◌++◌, none, any, Bool, codes, ◌%◌, ◌≤◌, ◌<◌, ◌&&◌, ◌≡◌, refl, sym, ◌∙◌, ap, ap₂, ◌⊎◌,
  inl, inr, Option, some, List, [], ◌∷◌, ◌==◌, if◌then◌else◌, length, Bool-cases, Text, text_eq,
  Outcome-cases, ok, throw, Exception, ok_inj, proceed, proceed_ok, arith,
}
use a2a_agent_layer.Auth.RefreshToken.{parse_int}
use a2a_agent_layer.Observability.BusinessMetrics.{BusinessMetrics, RollupResult, record_rollup_run}
use a2a_agent_layer.Metering.Rollup.{
  RollupColumns, Aggregate, columns_of, updated_columns, conflict_columns, RollupDeps, RollupWorld,
  truncate_to_hour, upsert_all, rollup, run_hourly_rollup,
}

-- The bucket of a time starts at a full hour, at most an hour before the time.
pub truncate_to_hour-bound :
    (date : ℕ)
    → (truncate_to_hour date ≤ date)
      × (date < truncate_to_hour date + 3600000)
      × (truncate_to_hour date % 3600000 ≡ 0)
unfolding truncate_to_hour
truncate_to_hour-bound date = (omega arith, omega arith, omega arith)

abbrev names : List Text → Text → Bool
names columns name = any (λ c. text_eq c name) columns

-- A row behind an upsert: the new one, or the old one with the columns of the list replaced.
abbrev pub upserted : List Text → RollupColumns → Option RollupColumns → RollupColumns
upserted updates new none = new
upserted updates new (some old) = record {
  request_count =
      if names updates (codes "requestCount") then new.request_count else old.request_count;
  tokens_used = if names updates (codes "tokensUsed") then new.tokens_used else old.tokens_used;
  bytes_in = if names updates (codes "bytesIn") then new.bytes_in else old.bytes_in;
  bytes_out = if names updates (codes "bytesOut") then new.bytes_out else old.bytes_out;
  cpu_ms = if names updates (codes "cpuMs") then new.cpu_ms else old.cpu_ms;
}

-- What the database promises of an upsert on the key of the table that returns: the row of this agent and
-- hour is inserted or updated, and every other row is as before.
abbrev pub IsUpsert : RollupDeps → Type 0
IsUpsert deps =
    (agent_id : Text) (hour : ℕ) (c : RollupColumns) (updates : List Text) (db db' : deps.Db)
    → deps.upsert (record { agent_id = agent_id; hour_bucket = hour; columns = c }) updates
        (codes "agentId" ∷ codes "hourBucket" ∷ []) db
      ≡ (ok tt, db')
    → (a : Text) (h : ℕ)
    → deps.lookup db' a h ≡ (
        if text_eq agent_id a && hour == h
        then some (upserted updates c (deps.lookup db agent_id hour))
        else deps.lookup db a h)

upserted-all :
    (new : RollupColumns) (old : Option RollupColumns) → upserted updated_columns new old ≡ new
unfolding text_eq
upserted-all new none = refl
upserted-all new (some old) = refl

-- The columns that a group stands for.
abbrev pub group_columns : Aggregate → RollupColumns
group_columns row = record {
  request_count = parse_int 0 row.request_count;
  tokens_used = row.tokens_used;
  bytes_in = row.bytes_in;
  bytes_out = row.bytes_out;
  cpu_ms = parse_int 0 row.cpu_ms;
}

-- The columns that the last group of an agent gives, or else those that were there.
abbrev pub written : List Aggregate → Text → Option RollupColumns → Option RollupColumns
written [] a before = before
written (row ∷ rows) a before =
    written rows a (if text_eq row.agent_id a then some (group_columns row) else before)

-- The groups either say nothing of an agent, or settle its columns.
written-cases :
    (rows : List Aggregate) (a : Text)
    → ((before : Option RollupColumns) → written rows a before ≡ before)
      ⊎ ((c : RollupColumns) × ((before : Option RollupColumns) → written rows a before ≡ some c))
written-cases [] a = inl (λ before. refl)
written-cases (row ∷ rows) a = elim (written-cases rows a) [
  | inr (c, settled) ↦ inr (c, λ before. settled _)
  | inl silent ↦ elim (Bool-cases (text_eq row.agent_id a)) [
    | inl h ↦ inr (group_columns row, λ before. silent _ ∙ rw h)
    | inr h ↦ inl (λ before. silent _ ∙ rw h)
  ]
]

written_again :
    (rows : List Aggregate) (a : Text) (before : Option RollupColumns)
    → written rows a (written rows a before) ≡ written rows a before
written_again rows a before = elim (written-cases rows a) [
  | inl silent ↦ silent _
  | inr (c, settled) ↦ settled _ ∙ sym (settled before)
]

-- One more run is counted, as a success at this second and with this number of rows.
abbrev pub SucceededAt : ℕ → ℕ → BusinessMetrics → BusinessMetrics → Type 0
SucceededAt now n before after =
    (after.rollup_runs ≡ before.rollup_runs ++ (RollupResult.success ∷ []))
    × (after.rollup_last_success ≡ some (now / 1000))
    × (after.rollup_buckets ≡ some n)

module _ (deps : RollupDeps) (law : IsUpsert deps) where
  open deps use {Db, lookup}

  upsert_all-written :
      (hour : ℕ) (rows : List Aggregate) (db : Db)
      → (upsert_all deps hour rows db).0 ≡ ok tt
      → (a : Text) (h : ℕ)
      → lookup (upsert_all deps hour rows db).1 a h
        ≡ (if hour == h then written rows a (lookup db a h) else lookup db a h)
  unfolding upsert_all
  upsert_all-written hour [] db e a h = ground arith
  upsert_all-written hour (row ∷ rows) db e a h =
      let (u, stored, call) = proceed_ok _ _ e in
      let db' =
        (deps.upsert
          (record { agent_id = row.agent_id; hour_bucket = hour; columns = columns_of row })
          updated_columns conflict_columns db).1 in
      let rest = upsert_all-written hour rows db' (sym (ap (λ x. x.0) call) ∙ e) a h in
      let new = columns_of row in
      let full = upserted-all new (lookup db row.agent_id hour) in
      let kept =
        law row.agent_id hour new updated_columns db db' (ap₂ (λ x y. (x, y)) stored refl) a h in
      let one : lookup db' a h
          ≡ (if text_eq row.agent_id a && hour == h then some new else lookup db a h) =
        kept
        ∙ ap (λ c. if text_eq row.agent_id a && hour == h then some c else lookup db a h) full in
      ap (λ x. lookup x.1 a h) call ∙ rest ∙ elim (Bool-cases (hour == h)) [
        | inl same ↦ rw (one, same) (ground arith)
        | inr other ↦ rw (one, other) (ground arith)
      ]

  module _ (reference : ℕ) (db : Db) where
    abbrev hour : ℕ
    hour = truncate_to_hour reference

    rollup_unread :
        (e : Exception)
        → deps.aggregates hour (hour + 3600000) ≡ throw e
        → rollup deps reference db ≡ (throw e, db)
    unfolding rollup
    rollup_unread e h = rw (h, rollup)

    rollup_empty :
        deps.aggregates hour (hour + 3600000) ≡ ok [] → rollup deps reference db ≡ (ok 0, db)
    unfolding rollup
    rollup_empty h = rw (h, rollup)

    rollup_some :
        (row : Aggregate) (rows : List Aggregate)
        → deps.aggregates hour (hour + 3600000) ≡ ok (row ∷ rows)
        → rollup deps reference db
          ≡ proceed
              (upsert_all deps hour (row ∷ rows) db)
              (λ _ db'. (ok (length (row ∷ rows)), db'))
    unfolding rollup
    rollup_some row rows h = rw (h, rollup)

    -- What a rollup that returned has read and written.
    pub record Rolled (n : ℕ) (after : Db) : Type 0 where
      pub groups : List Aggregate
      pub read : deps.aggregates hour (hour + 3600000) ≡ ok groups
      pub counted : n ≡ length groups
      pub rows :
          (a : Text) (h : ℕ)
          → lookup after a h
            ≡ (if hour == h then written groups a (lookup db a h) else lookup db a h)

    groups-Rolled :
        (groups : List Aggregate) (n : ℕ)
        → deps.aggregates hour (hour + 3600000) ≡ ok groups
        → (rollup deps reference db).0 ≡ ok n
        → Rolled n (rollup deps reference db).1
    groups-Rolled [] n read e =
        let call = rollup_empty read in
        record {
          groups = [];
          read = read;
          counted = sym (ok_inj (sym (ap (λ x. x.0) call) ∙ e));
          rows = λ a h. ap (λ x. lookup x.1 a h) call ∙ ground arith;
        }
    groups-Rolled (row ∷ rows) n read e =
        let call = rollup_some row rows read in
        let (u, stored, last) = proceed_ok _ _ (sym (ap (λ x. x.0) call) ∙ e) in
        record {
          groups = row ∷ rows;
          read = read;
          counted = sym (ok_inj (sym (ap (λ x. x.0) (call ∙ last)) ∙ e));
          rows = λ a h.
              ap (λ x. lookup x.1 a h) (call ∙ last)
              ∙ upsert_all-written hour (row ∷ rows) db stored a h;
        }

    rollup-Rolled :
        (n : ℕ) → (rollup deps reference db).0 ≡ ok n → Rolled n (rollup deps reference db).1
    rollup-Rolled n e = elim (Outcome-cases (deps.aggregates hour (hour + 3600000))) [
      | inr (x, failed) ↦ absurd (cc (ap (λ y. y.0) (rollup_unread x failed), e))
      | inl (groups, read) ↦ groups-Rolled groups n read e
    ]

  module _ (reference now : ℕ) (w : RollupWorld Db) where
    run_ok :
        (n : ℕ)
        → (rollup deps reference w.db).0 ≡ ok n
        → run_hourly_rollup deps reference now w ≡ (
          ok n,
          record w {
            db = (rollup deps reference w.db).1;
            metrics = record_rollup_run RollupResult.success n now w.metrics;
          },
        )
    unfolding run_hourly_rollup
    run_ok n h = rw (h, run_hourly_rollup)

    run_failed :
        (e : Exception)
        → (rollup deps reference w.db).0 ≡ throw e
        → run_hourly_rollup deps reference now w ≡ (
          throw e,
          record w {
            db = (rollup deps reference w.db).1;
            metrics = record_rollup_run RollupResult.failure 0 now w.metrics;
          },
        )
    unfolding run_hourly_rollup
    run_failed e h = rw (h, run_hourly_rollup)

    -- Over a table whose upserts keep their contract, a run that returns a number has read the groups of
    -- the hour, as many as the number. The row of each agent of a group has that group's numbers and sums,
    -- every row of another agent or hour is as before, and in the metrics one more run has succeeded, at
    -- this second, with this number of rows.
    pub run_hourly_rollup-Rolled :
        (n : ℕ)
        → (run_hourly_rollup deps reference now w).0 ≡ ok n
        → Rolled reference w.db n (run_hourly_rollup deps reference now w).1.db
          × SucceededAt now n w.metrics (run_hourly_rollup deps reference now w).1.metrics
    unfolding record_rollup_run
    run_hourly_rollup-Rolled n e = elim (Outcome-cases (rollup deps reference w.db).0) [
      | inr (x, h) ↦ absurd (cc (ap (λ y. y.0) (run_failed x h), e))
      | inl (m, h) ↦
          let same : m ≡ n = ok_inj (sym (ap (λ x. x.0) (run_ok m h)) ∙ e) in
          let answered = h ∙ ap ok same in
          rw (run_ok n answered) (rollup-Rolled reference w.db n answered, (refl, refl, refl))
    ]

  -- Over a table whose upserts keep their contract, a second run for the same hour, over usage records
  -- that have not changed, leaves every row of the rollups as it is.
  pub run_hourly_rollup_again :
      (reference now now' : ℕ) (w : RollupWorld Db) (n n' : ℕ)
      → (run_hourly_rollup deps reference now w).0 ≡ ok n
      → (run_hourly_rollup deps reference now' (run_hourly_rollup deps reference now w).1).0 ≡ ok n'
      → (a : Text) (h : ℕ)
      → lookup
          (run_hourly_rollup deps reference now' (run_hourly_rollup deps reference now w).1).1.db
          a
          h
        ≡ lookup (run_hourly_rollup deps reference now w).1.db a h
  run_hourly_rollup_again reference now now' w n n' e e' a h =
      let (first, _) = run_hourly_rollup-Rolled reference now w n e in
      let (second, _) = run_hourly_rollup-Rolled reference now' _ n' e' in
      let groups : second.groups ≡ first.groups = ok_inj (sym second.read ∙ first.read) in
      second.rows a h ∙ elim (Bool-cases (truncate_to_hour reference == h)) [
        | inl same ↦ rw (same, groups, first.rows a h, same) (written_again first.groups a _)
        | inr other ↦ rw other
      ]
