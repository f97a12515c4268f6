-- ===== src/Simulation/TelemetryGenerator/Standings/Tests.antt =====
-- The generator of src/simulation/telemetry_generator.cpp on fixed-point values without variation.
use f1_telemetry.Prelude.{ℕ, ◌+◌, ◌≡◌, refl, some, [], ◌∷◌, ltb, All}
use f1_telemetry.Prelude.Int.{pos, ◌-ℤ◌}
use f1_telemetry.Float.Fixed.{Fixed, fixed_float, Fixed-IsOrdered}
use f1_telemetry.Common.Types.{default_state, default_frame}
use f1_telemetry.Common.SeasonData.{default_track}
use f1_telemetry.Concurrency.Spsc.{fresh}
use f1_telemetry.Simulation.LapTimeConsumer.{capacity_log, FrameQueue}
use f1_telemetry.Simulation.TelemetryGenerator.{
  TelemetryGenerator, new_generator, handle_pit, enter_pit,
}
use f1_telemetry.Simulation.TelemetryGenerator.Standings.{run, stable_sort, insert_stable}
use f1_telemetry.Simulation.TelemetryGenerator.Standings.OneStop.{OneStop}
use f1_telemetry.Simulation.TelemetryGenerator.Standings.Bounds.{Literals, Bounded}
use f1_telemetry.Simulation.TelemetryGenerator.Standings.Race.{
  Field, race-Field, race-OneStop, race-Bounded,
}

abbrev sample : ℕ → Fixed × ℕ
sample n = (some (pos 0), n + 1)

Fixed-Literals : Literals Fixed
Fixed-Literals = record {
  slow_fast = refl;
  one_fresh = refl;
  full_zero = refl;
  one_pit_throttle = refl;
  pit_brake_zero = refl;
  one_pit_brake = refl;
  one_zero = refl;
}

abbrev ring : FrameQueue Fixed
ring = fresh capacity_log default_frame

abbrev grid : TelemetryGenerator Fixed ℕ
grid = new_generator ring default_track 42 (λ i. i)

sorted_pairs :
    stable_sort (λ (a b : ℕ × ℕ). ltb a.0 b.0) ((2, 0) ∷ (1, 1) ∷ (2, 2) ∷ (1, 3) ∷ [])
    ≡ (1, 1) ∷ (1, 3) ∷ (2, 0) ∷ (2, 2) ∷ []
unfolding stable_sort insert_stable
sorted_pairs = refl

last_pit_tick :
    (handle_pit
      (record (enter_pit (default_state {F = Fixed} 0)) { pit_timer_ticks = pos 1 })).pit_stops
    ≡ 1
unfolding handle_pit default_state default_frame ◌-ℤ◌
last_pit_tick = refl

race-Field_example : Field sample (run sample grid ((λ n. 1000 + n) ∷ (λ n. 2000 + n) ∷ []))
race-Field_example =
    race-Field sample ring default_track 42 (λ i. i) Fixed-IsOrdered (λ n. 1000 + n)
      ((λ n. 2000 + n) ∷ [])

race-OneStop_example : All OneStop (run sample grid ((λ n. 1000 + n) ∷ [])).states
race-OneStop_example = race-OneStop sample ring default_track 42 (λ i. i) ((λ n. 1000 + n) ∷ [])

race-Bounded_example : All Bounded (run sample grid ((λ n. 1000 + n) ∷ [])).states
race-Bounded_example =
    race-Bounded sample ring default_track 42 (λ i. i) Fixed-IsOrdered Fixed-Literals
      (λ n. 1000 + n) []
