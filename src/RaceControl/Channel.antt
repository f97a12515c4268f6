-- ===== src/RaceControl/Channel.antt =====
-- The code of src/race_control over the queue it has a reference to: `MpscQueue` of
-- src/concurrency/mpsc_queue.h, or whatever keeps the same contract. `none` is a fault of the queue.
pub mod Linked
pub mod Refine
mod Tests
use f1_telemetry.Prelude.{
  ℕ, zero, suc, ◌+◌, ◌≡◌, Bool, true, false, Option, none, some, List, [], ◌∷◌, ◌++◌, length, set,
  ltb, ◌==◌, if◌then◌else◌,
}
use f1_telemetry.Prelude.Int.{ℤ, pos, negsuc}
use f1_telemetry.Float.{Float, ◌≺◌}
use f1_telemetry.Common.Text.{c_str}
use f1_telemetry.Common.Types.{RaceControlEvent, EventType, PenaltyState, DriverState}
use f1_telemetry.Common.SeasonData.{driver_index_of}
use f1_telemetry.RaceControl.Penalty.{
  PenaltyEnforcer, announcement, exchange, increment, warnings_at,
}
use f1_telemetry.RaceControl.TrackLimits.{prob, exceeded}
use f1_telemetry.RaceControl.Weather.{WeatherSystem, next_state, weather_change}

-- The operations, and what a caller relies on while no other thread is in a call.
pub record Channel (Q : Type 0) : Type 1 where
  pub push : Q → RaceControlEvent → Option Q
  pub pop : Q → Option (Bool × Option RaceControlEvent × Q)
  pub Keeps : Q → List RaceControlEvent → Type 0
  pub push_lem :
      (q : Q) (xs : List RaceControlEvent) (e : RaceControlEvent)
      → Keeps q xs
      → (r : Q) × (push q e ≡ some r) × Keeps r (xs ++ e ∷ [])
  pub pop-empty : (q : Q) → Keeps q [] → pop q ≡ some (false, none, q)
  pub pop-next :
      (q : Q) (x : RaceControlEvent) (xs : List RaceControlEvent)
      → Keeps q (x ∷ xs)
      → (r : Q) × (pop q ≡ some (true, some x, r)) × Keeps r xs

module _ {Q : Type 0} (ch : Channel Q) where
  -- `while (events_.pop(ev)) batch.push_back(std::move(ev))` on fuel; `ev` is the last one popped.
  unfoldable pub pop_batch : ℕ → Q → RaceControlEvent → Option (List RaceControlEvent × Q)
  pop_batch zero q ev = none
  pop_batch (suc fuel) q ev = elim (ch.pop q) [
    | none ↦ none
    | some (false, out, r) ↦ some ([], r)
    | some (true, none, r) ↦ none
    | some (true, some x, r) ↦ elim (pop_batch fuel r x) [
      | none ↦ none
      | some (batch, last) ↦ some (x ∷ batch, last)
    ]
  ]

  -- The case `count == 3`.
  unfoldable pub issue_on :
      PenaltyEnforcer → Q → ℕ → RaceControlEvent → ℕ → Option (PenaltyEnforcer × Q)
  issue_on p q i e now =
      let (won, r) = exchange p i PenaltyState.clear PenaltyState.pending in
      if won
      then (elim (ch.push q (announcement e now)) [
        | none ↦ none
        | some after ↦ some (record r { extra_pit_time = set r.extra_pit_time i 3 }, after)
      ])
      else some (r, q)

  unfoldable pub warn_on :
      PenaltyEnforcer → Q → ℤ → RaceControlEvent → ℕ → Option (PenaltyEnforcer × Q)
  warn_on p q (negsuc n) e now = some (p, q)
  warn_on p q (pos i) e now =
      let count = increment (warnings_at p i) in
      let r = record p { warnings = set p.warnings i count } in
      if count == 3 then issue_on r q i e now else some (r, q)

  unfoldable pub process_event_on :
      PenaltyEnforcer → Q → RaceControlEvent → ℕ → Option (PenaltyEnforcer × Q)
  process_event_on p q e now = elim e.type [
    | EventType.track_limits ↦ warn_on p q (driver_index_of (c_str e.driver_id)) e now
    | _ ↦ some (p, q)
  ]

  unfoldable pub process_batch_on :
      PenaltyEnforcer → Q → List RaceControlEvent → (ℕ → ℕ) → Option (PenaltyEnforcer × Q)
  process_batch_on p q [] clock = some (p, q)
  process_batch_on p q (e ∷ batch) clock = elim (process_event_on p q e (clock (length batch))) [
    | none ↦ none
    | some (after, r) ↦ process_batch_on after r batch clock
  ]

  -- `process_events`; `ev` is the local variable before its first assignment.
  unfoldable pub process_events_on :
      ℕ → PenaltyEnforcer → Q → RaceControlEvent → (ℕ → ℕ) → Option (PenaltyEnforcer × Q)
  process_events_on fuel p q ev clock = elim (pop_batch fuel q ev) [
    | none ↦ none
    | some (batch, r) ↦ process_batch_on p r batch clock
  ]

  module _ {F G : Type 0} ⦃f : Float F⦄ (draw : G → F × G) where
    -- The body of the loop of `check`, and the loop, as in `TrackLimits`.
    unfoldable pub check_driver_on : G → Q → DriverState F → ℕ → ℕ → Option (G × Q)
    check_driver_on rng q state current_lap now =
        let (coin, after) = draw rng in
        if state.in_pit
        then some (rng, q)
        else if coin ≺ prob state
        then (elim (ch.push q (exceeded state current_lap now)) [
          | none ↦ none
          | some r ↦ some (after, r)
        ])
        else some (after, q)

    unfoldable pub check_on : G → Q → List (DriverState F) → ℕ → (ℕ → ℕ) → Option (G × Q)
    check_on rng q [] current_lap clock = some (rng, q)
    check_on rng q (state ∷ states) current_lap clock =
        elim (check_driver_on rng q state current_lap (clock (length states))) [
          | none ↦ none
          | some (after, r) ↦ check_on after r states current_lap clock
        ]

    -- `update` of the weather, as in `Weather`.
    unfoldable pub update_on : WeatherSystem G → Q → ℕ → ℕ → Option (WeatherSystem G × Q)
    update_on w q current_lap now =
        let (coin, rng) = draw w.rng in
        let drawn = record w { rng = rng; last_update_lap = current_lap } in
        let new_state = next_state w.state in
        if ltb current_lap (w.last_update_lap + 5)
        then some (w, q)
        else if f.decimal 15 2 ≺ coin
        then some (drawn, q)
        else (elim (ch.push q (weather_change new_state current_lap now)) [
          | none ↦ none
          | some r ↦ some (record drawn { state = new_state }, r)
        ])
