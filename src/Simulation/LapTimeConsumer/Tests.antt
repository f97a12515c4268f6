-- ===== src/Simulation/LapTimeConsumer/Tests.antt =====
-- src/simulation/lap_time_consumer.cpp on four frames.
use f1_telemetry.Prelude.{ℕ, ◌*◌, ◌≡◌, refl, some, List, [], ◌∷◌, arith}
use f1_telemetry.Prelude.Int.{pos}
use f1_telemetry.Float.Fixed.{Fixed, fixed_float, Fixed-IsOrdered, scale}
use f1_telemetry.Common.Text.{Text, text, text_eq, memcpy, c_str, blank_id}
use f1_telemetry.Common.Types.{TelemetryFrame, default_frame}
use f1_telemetry.Common.SeasonData.{driver_index_of, driver_rows, index_from}
use f1_telemetry.Common.RaceState.{RaceState, new_race, run_claims}
use f1_telemetry.Common.RaceState.Claims.{Fastest}
use f1_telemetry.Concurrency.Spsc.{fresh}
use f1_telemetry.Simulation.LapTimeConsumer.{capacity_log, run}
use f1_telemetry.Simulation.LapTimeConsumer.Claimed.{claims_of, run-Fastest}

abbrev lap_frame : Text → ℕ → TelemetryFrame Fixed
lap_frame id ms = record default_frame {
  driver_id = memcpy blank_id id 3;
  lap_time_ms = some (pos (ms * scale));
}

abbrev groups : List (List (TelemetryFrame Fixed))
groups =
    (lap_frame (text "LEC") 91000 ∷ lap_frame (text "NOR") 0 ∷ [])
    ∷ (lap_frame (text "XXX") 10 ∷ [])
    ∷ (lap_frame (text "NOR") 90500 ∷ [])
    ∷ []

two_claims :
    claims_of
      (lap_frame (text "XXX") 10 ∷ lap_frame (text "NOR") 90500 ∷ lap_frame (text "LEC") 0 ∷ [])
    ≡ (pos 4, some (pos (90500 * scale))) ∷ []
unfolding claims_of driver_index_of driver_rows index_from text_eq memcpy c_str default_frame
two_claims = refl

run-Fastest_example :
    (last : RaceState Fixed) × (accepted : List (TelemetryFrame Fixed)) × (run 5
        (fresh capacity_log default_frame)
        new_race
        groups
      ≡ some (last, accepted))
    × (last ≡ run_claims new_race (claims_of accepted))
    × Fastest new_race (claims_of accepted) last
run-Fastest_example = run-Fastest Fixed-IsOrdered groups 5 new_race (omega arith)
