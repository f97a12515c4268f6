-- ===== src/RaceControl/TrackLimits.antt =====
-- src/race_control/track_limits.h and .cpp. The generator and its distribution are a parameter:
-- `draw` gives the next value and the generator after it.
pub mod Violations
mod Tests
use f1_telemetry.Prelude.{ℕ, Bool, true, false, List, [], ◌∷◌, ◌++◌, length, if◌then◌else◌}
use f1_telemetry.Float.{Float, ◌≺◌, ◌⊕◌, ◌⊗◌, ◌⊘◌}
use f1_telemetry.Common.Text.{Text, text, blank_id, memcpy, to_string_ℤ}
use f1_telemetry.Common.Types.{RaceControlEvent, EventType, DriverState}
use f1_telemetry.RaceControl.{EventQueue}

module _ {F : Type 0} ⦃f : Float F⦄ where
  abbrev pub speed_factor : DriverState F → F
  speed_factor state = state.latest_frame.speed_kph ⊘ f.decimal 2800 1

  abbrev pub prob : DriverState F → F
  prob state =
      f.decimal 4 3
      ⊗ state.profile.aggression
      ⊗ (f.decimal 10 1 ⊕ state.latest_frame.tire_wear)
      ⊗ speed_factor state

  -- The event of a driver who exceeded the limits, made when the clock reads `now`.
  abbrev pub exceeded : DriverState F → ℕ → ℕ → RaceControlEvent
  exceeded state current_lap now = record {
    type = EventType.track_limits;
    driver_id = memcpy blank_id state.profile.id 3;
    lap = current_lap;
    message =
        state.profile.id
        ++ text " exceeded track limits (S"
        ++ to_string_ℤ state.latest_frame.sector
        ++ text ")";
    timestamp = now;
  }

  module _ {G : Type 0} (draw : G → F × G) where
    -- The body of the loop of `check`, when the clock reads `now`.
    unfoldable pub check_driver : G → EventQueue → DriverState F → ℕ → ℕ → G × EventQueue
    check_driver rng events state current_lap now =
        let (coin, after) = draw rng in
        if state.in_pit
        then (rng, events)
        else if coin ≺ prob state
        then (after, events ++ exceeded state current_lap now ∷ [])
        else (after, events)

    -- The loop; `clock n` is what the clock reads with `n` drivers left after this one.
    unfoldable pub check : G → EventQueue → List (DriverState F) → ℕ → (ℕ → ℕ) → G × EventQueue
    check rng events [] current_lap clock = (rng, events)
    check rng events (state ∷ states) current_lap clock =
        let (after, pushed) = check_driver rng events state current_lap (clock (length states)) in
        check after pushed states current_lap clock
