-- ===== src/RaceControl/Channel/Tests.antt =====
-- The code of src/race_control over the linked queue that `main` gives it.
use f1_telemetry.Prelude.{true, ℕ, ◌+◌, ◌≡◌, map, length, some, List, [], ◌∷◌, arith}
use f1_telemetry.Prelude.Int.{pos}
use f1_telemetry.Float.Fixed.{Fixed, fixed_float}
use f1_telemetry.Common.Text.{text}
use f1_telemetry.Common.Types.{
  RaceControlEvent, EventType, DriverState, WeatherState, default_state, default_frame,
}
use f1_telemetry.Concurrency.Mpsc.{MpscQueue, create}
use f1_telemetry.Concurrency.Mpsc.Refine.{create-Holds, linked_push_refines}
use f1_telemetry.RaceControl.Penalty.{new_enforcer, process_events}
use f1_telemetry.RaceControl.Weather.{WeatherSystem, new_weather}
use f1_telemetry.RaceControl.Weather.Forecast.{Forecast}
use f1_telemetry.RaceControl.TrackLimits.Violations.{advance, on_track, strip, report, offenders}
use f1_telemetry.RaceControl.Channel.{process_events_on, check_on}
use f1_telemetry.RaceControl.Channel.Linked.{linked}
use f1_telemetry.RaceControl.Channel.Refine.{Meets, channel_refines, producers_refine, updates_on}

abbrev violation_of_ham : RaceControlEvent
violation_of_ham = record {
  type = EventType.track_limits;
  driver_id = 72 ∷ 65 ∷ 77 ∷ 0 ∷ [];
  lap = 7;
  message = text "HAM exceeded track limits (S1)";
  timestamp = 3;
}

abbrev fast : DriverState Fixed
fast = record (default_state 0) {
  profile = record (default_state 0).profile { id = text "LEC"; aggression = some (pos 800000) };
  latest_frame = record default_frame { speed_kph = some (pos 280000000) };
}

abbrev draw : ℕ → Fixed × ℕ
draw n = (some (pos 0), n + 1)

-- A queue of one violation.
abbrev pushed : MpscQueue RaceControlEvent
pushed =
    (linked_push_refines (create violation_of_ham) [] violation_of_ham
      (create-Holds violation_of_ham)).0

channel_refines_example :
    Meets linked
      (process_events_on linked 2 new_enforcer pushed violation_of_ham (λ n. n))
      (process_events new_enforcer (violation_of_ham ∷ []) (λ n. n))
channel_refines_example =
    channel_refines linked 2 new_enforcer pushed (violation_of_ham ∷ []) violation_of_ham (λ n. n)
      (omega arith)
      (linked_push_refines (create violation_of_ham) [] violation_of_ham
        (create-Holds violation_of_ham)).2

-- The second driver is in the pits; the weather changes once in the three calls.
abbrev drivers : List (DriverState Fixed)
drivers = fast ∷ record fast { in_pit = true } ∷ []

producers_refine_example :
    ((r : MpscQueue RaceControlEvent) × (events : List RaceControlEvent) × (check_on linked draw 5
          pushed drivers 9
          (λ n. n)
        ≡ some (advance draw (length (on_track drivers)) 5, r))
      × linked.Keeps r events
      × (map strip events ≡ strip violation_of_ham ∷ map (report 9) (offenders draw 5 drivers)))
    × ((r : MpscQueue RaceControlEvent) × (v : WeatherSystem ℕ) × (added : List RaceControlEvent)
        × (updates_on linked draw (new_weather 3) pushed ((4, 1) ∷ (6, 2) ∷ (8, 3) ∷ [])
            ≡ some (v, r))
        × linked.Keeps r (violation_of_ham ∷ added)
        × Forecast WeatherState.dry 0 added v.state)
unfolding new_weather
producers_refine_example =
    producers_refine linked draw pushed (violation_of_ham ∷ []) 5 drivers 9 (λ n. n) (new_weather 3)
      ((4, 1) ∷ (6, 2) ∷ (8, 3) ∷ [])
      (linked_push_refines (create violation_of_ham) [] violation_of_ham
        (create-Holds violation_of_ham)).2
