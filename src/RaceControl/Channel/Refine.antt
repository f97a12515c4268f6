-- ===== src/RaceControl/Channel/Refine.antt =====
-- The code of src/race_control over a queue that keeps the contract, against the same over a list.
use f1_telemetry.Prelude.{
  ℕ, zero, suc, ◌+◌, ◌<◌, ◌≡◌, refl, ap, subst, ◌∙◌, map, Bool, true, false, Option, none, some,
  List, [], ◌∷◌, ◌++◌, arith, length, ltb, ◌==◌, if◌then◌else◌,
}
use f1_telemetry.Prelude.Int.{ℤ, pos, negsuc}
use f1_telemetry.Float.{Float, ◌≺◌}
use f1_telemetry.Common.Text.{c_str}
use f1_telemetry.Common.Types.{RaceControlEvent, EventType, PenaltyState, DriverState}
use f1_telemetry.Common.SeasonData.{driver_index_of}
use f1_telemetry.RaceControl.{EventQueue}
use f1_telemetry.RaceControl.Penalty.{
  PenaltyEnforcer, announcement, exchange, increment, warnings_at, issue, warn, warn_driver,
  process_event, process_batch, process_events,
}
use f1_telemetry.RaceControl.Penalty.Refine.{pop_all_lem}
use f1_telemetry.RaceControl.TrackLimits.{prob, exceeded, check, check_driver}
use f1_telemetry.RaceControl.Weather.Forecast.{Forecast, run, run-Forecast}
use f1_telemetry.RaceControl.TrackLimits.Violations.{
  advance, on_track, strip, report, offenders, check_refines,
}
use f1_telemetry.RaceControl.Weather.{WeatherSystem, next_state, weather_change, update}
use f1_telemetry.RaceControl.Channel.{
  Channel, pop_batch, issue_on, warn_on, process_event_on, process_batch_on, process_events_on,
  check_driver_on, check_on, update_on,
}

module _ {Q : Type 0} (ch : Channel Q) where
  -- The call returns what the specification says, and leaves a queue of the events that it says.
  abbrev pub Meets : {A : Type 0} → Option (A × Q) → A × EventQueue → Type 0
  Meets result (value, events) = (r : Q) × (result ≡ some (value, r)) × ch.Keeps r events

  pop_batch_lem :
      (fuel : ℕ) (q : Q) (events : EventQueue) (ev : RaceControlEvent)
      → length events < fuel
      → ch.Keeps q events
      → Meets (pop_batch ch fuel q ev) (events, [])
  unfolding pop_batch
  pop_batch_lem zero q events ev h k = absurd (omega (arith, h))
  pop_batch_lem (suc fuel) q [] ev h k = (q, rw (ch.pop-empty q k, pop_batch) refl, k)
  pop_batch_lem (suc fuel) q (x ∷ events) ev h k =
      let (r, popped, rest) = ch.pop-next q x events k in
      let (last, done, empty) = pop_batch_lem fuel r events x (omega (arith, h)) rest in
      (last, rw (popped, pop_batch) (rw (done) refl), empty)

  -- A push on one branch, and none on the other.
  branch-Meets :
      {A : Type 0} (b : Bool) {pushed plain : Option (A × Q)}
      {spec_pushed spec_plain : A × EventQueue}
      → Meets pushed spec_pushed
      → Meets plain spec_plain
      → Meets (if b then pushed else plain) (if b then spec_pushed else spec_plain)
  branch-Meets true h k = h
  branch-Meets false h k = k

  pushed-Meets :
      {A : Type 0} (q : Q) (events : EventQueue) (e : RaceControlEvent) (value : A)
      → ch.Keeps q events
      → Meets
          (elim (ch.push q e) [ none ↦ none | some after ↦ some (value, after) ])
          (value, events ++ e ∷ [])
  pushed-Meets q events e value k =
      let (r, done, kept) = ch.push_lem q events e k in (r, rw (done) refl, kept)

  issue-Meets :
      (p : PenaltyEnforcer) (q : Q) (events : EventQueue) (i : ℕ) (e : RaceControlEvent) (now : ℕ)
      → ch.Keeps q events
      → Meets (issue_on ch p q i e now) (issue p events i e now)
  unfolding issue_on issue
  issue-Meets p q events i e now k =
      branch-Meets (exchange p i PenaltyState.clear PenaltyState.pending).0
        (pushed-Meets q events (announcement e now) _ k) (q, refl, k)

  warn-Meets :
      (p : PenaltyEnforcer) (q : Q) (events : EventQueue) (z : ℤ) (e : RaceControlEvent) (now : ℕ)
      → ch.Keeps q events
      → Meets (warn_on ch p q z e now) (warn_driver p events z e now)
  unfolding warn_on warn_driver warn
  warn-Meets p q events (negsuc n) e now k = (q, refl, k)
  warn-Meets p q events (pos i) e now k =
      branch-Meets (increment (warnings_at p i) == 3) (issue-Meets _ q events i e now k)
        (q, refl, k)

  process_event-Meets :
      (p : PenaltyEnforcer) (q : Q) (events : EventQueue) (e : RaceControlEvent) (now : ℕ)
      → ch.Keeps q events
      → Meets (process_event_on ch p q e now) (process_event p events e now)
  unfolding process_event_on process_event
  process_event-Meets p q events e now k =
      elim e.type
        as (λ t.
          Meets
            (elim t [
              | EventType.track_limits ↦ warn_on ch p q (driver_index_of (c_str e.driver_id)) e now
              | _ ↦ some (p, q)
            ])
            (elim t [
              | EventType.track_limits ↦
                  warn_driver p events (driver_index_of (c_str e.driver_id)) e now
              | _ ↦ (p, events)
            ])) [
              | EventType.track_limits ↦
                  warn-Meets p q events (driver_index_of (c_str e.driver_id)) e now k
              | _ ↦ (q, refl, k)
            ]

  process_batch-Meets :
      (p : PenaltyEnforcer) (q : Q) (events : EventQueue) (batch : List RaceControlEvent)
      (clock : ℕ → ℕ)
      → ch.Keeps q events
      → Meets (process_batch_on ch p q batch clock) (process_batch p events batch clock)
  unfolding process_batch_on process_batch
  process_batch-Meets p q events [] clock k = (q, refl, k)
  process_batch-Meets p q events (e ∷ batch) clock k =
      let (r, done, kept) = process_event-Meets p q events e (clock (length batch)) k in
      let next = process_event p events e (clock (length batch)) in
      let (last, rest, holds) = process_batch-Meets next.0 r next.1 batch clock kept in
      (last, rw (done, process_batch_on) rest, holds)

  -- Over any queue that keeps the contract, with fuel for more pops than it holds events,
  -- `process_events` does not fault; it returns the enforcer that it returns over the list of those
  -- events, and leaves a queue of the events that it leaves there.
  pub channel_refines :
      (fuel : ℕ) (p : PenaltyEnforcer) (q : Q) (events : EventQueue) (ev : RaceControlEvent)
      (clock : ℕ → ℕ)
      → length events < fuel
      → ch.Keeps q events
      → Meets (process_events_on ch fuel p q ev clock) (process_events p events clock)
  unfolding process_events_on process_events
  channel_refines fuel p q events ev clock h k =
      let (r, popped, empty) = pop_batch_lem fuel q events ev h k in
      rw (pop_all_lem events) (
        let (last, done, kept) = process_batch-Meets p r [] events clock empty in
        (last, rw (popped, process_events_on) done, kept))

  module _ {F G : Type 0} ⦃f : Float F⦄ (draw : G → F × G) where
    check_driver-Meets :
        (rng : G) (q : Q) (events : EventQueue) (s : DriverState F) (lap now : ℕ)
        → ch.Keeps q events
        → Meets (check_driver_on ch draw rng q s lap now) (check_driver draw rng events s lap now)
    unfolding check_driver_on check_driver
    check_driver-Meets rng q events s lap now k =
        branch-Meets s.in_pit (q, refl, k)
          (branch-Meets ((draw rng).0 ≺ prob s) (pushed-Meets q events (exceeded s lap now) _ k)
            (q, refl, k))

    check-Meets :
        (rng : G) (q : Q) (events : EventQueue) (states : List (DriverState F)) (lap : ℕ)
        (clock : ℕ → ℕ)
        → ch.Keeps q events
        → Meets (check_on ch draw rng q states lap clock) (check draw rng events states lap clock)
    unfolding check_on check
    check-Meets rng q events [] lap clock k = (q, refl, k)
    check-Meets rng q events (s ∷ states) lap clock k =
        let now = clock (length states) in
        let next = check_driver draw rng events s lap now in
        let (r, done, kept) = check_driver-Meets rng q events s lap now k in
        let (last, rest, holds) = check-Meets next.0 r next.1 states lap clock kept in
        (last, rw (done, check_on) rest, holds)

    update-Meets :
        (w : WeatherSystem G) (q : Q) (events : EventQueue) (lap now : ℕ)
        → ch.Keeps q events
        → Meets (update_on ch draw w q lap now) (update draw w events lap now)
    unfolding update_on update
    update-Meets w q events lap now k =
        branch-Meets (ltb lap (w.last_update_lap + 5)) (q, refl, k)
          (branch-Meets (f.decimal 15 2 ≺ (draw w.rng).0) (q, refl, k)
            (pushed-Meets q events (weather_change (next_state w.state) lap now) _ k))

    -- Calls of `update_on` in a row: the lap of each, and what the clock reads in it.
    unfoldable pub updates_on : WeatherSystem G → Q → List (ℕ × ℕ) → Option (WeatherSystem G × Q)
    updates_on w q [] = some (w, q)
    updates_on w q ((lap, now) ∷ calls) = elim (update_on ch draw w q lap now) [
      | none ↦ none
      | some (v, r) ↦ updates_on v r calls
    ]

    updates-Meets :
        (w : WeatherSystem G) (q : Q) (events : EventQueue) (calls : List (ℕ × ℕ))
        → ch.Keeps q events
        → Meets (updates_on w q calls) (run draw w events calls)
    unfolding updates_on run
    updates-Meets w q events [] k = (q, refl, k)
    updates-Meets w q events ((lap, now) ∷ calls) k =
        let next = update draw w events lap now in
        let (r, done, kept) = update-Meets w q events lap now k in
        let (last, rest, holds) = updates-Meets next.0 r next.1 calls kept in
        (last, rw (done, updates_on) rest, holds)

    -- Over any queue that keeps the contract: `check` of the track limits and calls of `update` of the
    -- weather do not fault, and the queue holds its events and what they add behind them. `check` draws a
    -- coin for each driver not in the pits, and adds a TRACK_LIMITS event for each of those whose coin shows
    -- less than 0.004 times the driver's aggression, times one plus the wear of the tires, times the speed
    -- over 280 km/h, in order; the weather adds only announcements of the next states of the cycle, one for
    -- each change, five laps or more apart.
    pub producers_refine :
        (q : Q) (events : EventQueue) (rng : G) (states : List (DriverState F)) (lap : ℕ)
        (clock : ℕ → ℕ) (w : WeatherSystem G) (calls : List (ℕ × ℕ))
        → ch.Keeps q events
        → ((r : Q) × (pushed : EventQueue) × (check_on ch draw rng q states lap clock
              ≡ some (advance draw (length (on_track states)) rng, r))
            × ch.Keeps r pushed
            × (map strip pushed ≡ map strip events ++ map (report lap) (offenders draw rng states)))
          × ((r : Q) × (v : WeatherSystem G) × (added : EventQueue) × (updates_on w q calls
                ≡ some (v, r))
              × ch.Keeps r (events ++ added)
              × Forecast w.state w.last_update_lap added v.state)
    producers_refine q events rng states lap clock w calls k =
        let (r, done, kept) = check-Meets rng q events states lap clock k in
        let (rng_after, reports) = check_refines draw rng events states lap clock in
        let (u, ends, holds) = updates-Meets w q events calls k in
        let (added, e, forecast) = run-Forecast draw w events calls in
        (
          (
            r,
            (check draw rng events states lap clock).1,
            done ∙ ap (λ g. some (g, r)) rng_after,
            kept,
            reports,
          ),
          (u, (run draw w events calls).0, added, ends, subst (ch.Keeps u) e holds, forecast),
        )
