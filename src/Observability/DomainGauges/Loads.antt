-- ===== src/Observability/DomainGauges/Loads.antt =====
-- How often the gauges' queries run.
use a2a_agent_layer.Common.{
  ℕ, ◌+◌, ◌≤◌, ◌<◌, true, Bool-cases, ◌≡◌, ◌⊎◌, inl, inr, refl, ap, Option, none, some, List, [],
  ◌∷◌, Outcome, ok, throw, All, arith,
}
use a2a_agent_layer.Observability.DomainGauges.{
  Settings, Numbers, State, Rows, apply_rows, is_fresh, join_round, refresh, settle_round, settle,
  Event, scraped, answered, step, run,
}

module _ (numbers : Numbers) where
  -- A scrape, if that is what it is, happens in the interval of this length.
  abbrev pub Within : ℕ → ℕ → Event numbers → Type 0
  Within start length (scraped now) = (start ≤ now) × (now < start + length)
  Within start length (answered r) = Unit

  abbrev waiting : Option ℕ → ℕ
  waiting none = 0
  waiting (some at) = 1

  abbrev StartedIn : ℕ → Option ℕ → Type 0
  StartedIn start none = Unit
  StartedIn start (some at) = start ≤ at

  -- Of the rounds since the start, all but one that is in flight have failed, or one has succeeded and none is in flight.
  abbrev Counted : ℕ → ℕ → ℕ → State numbers → Type 0
  Counted start errors loads s =
      StartedIn start s.in_flight
      × ((s.loads + errors ≤ loads + s.refresh_errors + waiting s.in_flight)
          ⊎ ((start ≤ s.last_refresh_at)
              × (s.in_flight ≡ none)
              × (s.loads + errors ≤ loads + s.refresh_errors + 1)))

  join_round-Counted :
      (start errors loads now : ℕ) (s : State numbers) (o : Option ℕ)
      → s.in_flight ≡ o
      → start ≤ now
      → StartedIn start o
      → s.loads + errors ≤ loads + s.refresh_errors + waiting o
      → Counted start errors loads (join_round numbers now o s)
  join_round-Counted start errors loads now s none e t i le = (t, inl (omega (arith, le)))
  join_round-Counted start errors loads now s (some at) e t i le = rw e (i, inl le)

  -- A round that succeeded since the start keeps the gauges fresh for the rest of the time.
  still_fresh :
      (ttl_ms start now : ℕ) (s : State numbers)
      → 0 < start
      → now < start + ttl_ms
      → start ≤ s.last_refresh_at
      → is_fresh numbers ttl_ms now s ≡ true
  still_fresh ttl_ms start now s p w h = ground arith

  scraped-Counted :
      (settings : Settings) (start errors loads now : ℕ) (s : State numbers)
      → 0 < start
      → Within start settings.ttl_ms (scraped now)
      → Counted start errors loads s
      → Counted start errors loads (refresh numbers settings now s).1
  unfolding refresh
  scraped-Counted settings start errors loads now s p w c =
      elim (Bool-cases (is_fresh numbers settings.ttl_ms now s)) [
        | inl h ↦ rw h c
        | inr h ↦ rw h (elim c.1 [
          | inl le ↦ join_round-Counted start errors loads now s s.in_flight refl w.0 c.0 le
          | inr q ↦ let f = still_fresh settings.ttl_ms start now s p w.1 q.0 in absurd (cc)
        ])
      ]

  settle_round-Counted :
      (start errors loads : ℕ) (r : Outcome (Rows numbers)) (s : State numbers) (o : Option ℕ)
      → s.in_flight ≡ o
      → StartedIn start o
      → s.loads + errors ≤ loads + s.refresh_errors + waiting o
      → Counted start errors loads (settle_round numbers r o s)
  unfolding apply_rows
  settle_round-Counted start errors loads r s none e i le = rw e (tt, inl le)
  settle_round-Counted start errors loads (ok rows) s (some now) e i le = (tt, inr (i, refl, le))
  settle_round-Counted start errors loads (throw x) s (some now) e i le =
      (tt, inl (omega (arith, le)))

  answered-Counted :
      (start errors loads : ℕ) (r : Outcome (Rows numbers)) (s : State numbers)
      → Counted start errors loads s
      → Counted start errors loads (settle numbers r s)
  unfolding settle
  answered-Counted start errors loads r s c = elim c.1 [
    | inl le ↦ settle_round-Counted start errors loads r s s.in_flight refl c.0 le
    | inr q ↦ simp (ap (λ o. settle_round numbers r o s) q.1) c
  ]

  run-Counted :
      (settings : Settings) (start errors loads : ℕ) (events : List (Event numbers))
      (s : State numbers)
      → 0 < start
      → All (Within start settings.ttl_ms) events
      → Counted start errors loads s
      → Counted start errors loads (run numbers settings s events)
  unfolding run step
  run-Counted settings start errors loads [] s p w c = c
  run-Counted settings start errors loads (scraped now ∷ events) s p (w, ws) c =
      run-Counted settings start errors loads events (refresh numbers settings now s).1 p ws
        (scraped-Counted settings start errors loads now s p w c)
  run-Counted settings start errors loads (answered r ∷ events) s p (w, ws) c =
      run-Counted settings start errors loads events (settle numbers r s) p ws
        (answered-Counted start errors loads r s c)

  below : {a : ℕ} (b : ℕ) (o : Option ℕ) → a ≤ b + waiting o → a ≤ b + 1
  below b none le = omega (arith, le)
  below b (some at) le = le

  counted :
      (start errors loads : ℕ) (s : State numbers)
      → Counted start errors loads s
      → s.loads + errors ≤ loads + s.refresh_errors + 1
  counted start errors loads s (i, inr (_, _, le)) = le
  counted start errors loads s (i, inl le) = below (loads + s.refresh_errors) s.in_flight le

  -- Whatever is scraped and answered, in any order, within a time to live: the queries run at most
  -- once more than they fail, if no round was in flight before.
  pub run-loads :
      (settings : Settings) (start : ℕ) (events : List (Event numbers)) (s : State numbers)
      → 0 < start
      → s.in_flight ≡ none
      → All (Within start settings.ttl_ms) events
      → let after = run numbers settings s events in
        after.loads + s.refresh_errors ≤ s.loads + after.refresh_errors + 1
  run-loads settings start events s p e w =
      counted start s.refresh_errors s.loads (run numbers settings s events) (
        run-Counted settings start s.refresh_errors s.loads events s p w
          (rw e (tt, inl (omega arith))))
