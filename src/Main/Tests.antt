-- ===== src/Main/Tests.antt =====
-- src/main.cpp after the first tick of a race.
use f1_telemetry.Prelude.{arith, ℕ, ◌+◌, ◌≡◌, [], ◌∷◌, some}
use f1_telemetry.Prelude.Int.{pos}
use f1_telemetry.Float.Fixed.{Fixed, fixed_float, Fixed-IsOrdered}
use f1_telemetry.Common.Types.{default_frame}
use f1_telemetry.Common.SeasonData.{default_track}
use f1_telemetry.Common.Leaderboard.{new_board}
use f1_telemetry.Common.RaceState.{new_race}
use f1_telemetry.Concurrency.Spsc.{fresh}
use f1_telemetry.RaceControl.Penalty.{new_enforcer}
use f1_telemetry.Simulation.LapTimeConsumer.{capacity_log}
use f1_telemetry.Simulation.TelemetryGenerator.{TelemetryGenerator, new_generator}
use f1_telemetry.Simulation.TelemetryGenerator.Standings.{run}
use f1_telemetry.Simulation.TelemetryGenerator.Standings.Race.{race-Field}
use f1_telemetry.Simulation.TelemetryGenerator.Standings.Positions.{Ranked}
use f1_telemetry.Simulation.TelemetryGenerator.Standings.Sorted.{sort-InOrder}
use f1_telemetry.Main.Contract.{Rows, sort-Permᴰ, sort_contract}
use f1_telemetry.Main.{sorted_standings, Program, by_position}
use f1_telemetry.Main.Published.{Published}

abbrev sample : ℕ → Fixed × ℕ
sample n = (some (pos 0), n + 1)

abbrev first_tick : TelemetryGenerator Fixed ℕ
first_tick =
    run sample (new_generator (fresh capacity_log default_frame) default_track 42 (λ i. i))
      ((λ n. 1000 + n) ∷ [])

abbrev program : Program Fixed
program = record {
  leaderboard = new_board;
  race_state = new_race;
  tick_counter = 8;
  jobs = [];
  penalty = new_enforcer;
  events = [];
}

first_tick-Ranked : Ranked first_tick.track first_tick.states
first_tick-Ranked =
    (race-Field sample (fresh capacity_log default_frame) default_track 42 (λ i. i) Fixed-IsOrdered
      (λ n. 1000 + n) []).1

-- Thread 5 is the writer.
abbrev written : Program Fixed
written = record program { leaderboard = record { standings = []; writer_id = some 5 } }

sort_contract_example :
    (sorted_standings first_tick.states ≡ sorted_standings first_tick.states)
    × Rows (sorted_standings first_tick.states)
unfolding sorted_standings
sort_contract_example =
    sort_contract first_tick.track first_tick.states (sorted_standings first_tick.states)
      first_tick-Ranked (sort-Permᴰ by_position first_tick.states)
      (sort-InOrder by_position (λ a b h. ground arith) first_tick.states)
