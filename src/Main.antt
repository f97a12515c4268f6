-- ===== src/Main.antt =====
-- The callback of src/main.cpp that runs after every tick of the generator.
pub mod Published
pub mod Contract
pub mod Whole
pub mod Display
mod Tests
use f1_telemetry.Prelude.{
  ℕ, ◌+◌, ◌%◌, Bool, true, false, ◌&&◌, List, [], ◌∷◌, ◌++◌, ltb, ◌==◌, if◌then◌else◌,
}
use f1_telemetry.Prelude.Result.{ok, throws, Outcome, returned, thrown}
use f1_telemetry.Common.Types.{DriverState}
use f1_telemetry.Common.Leaderboard.{Leaderboard, update}
use f1_telemetry.Common.RaceState.{RaceState, set_lap}
use f1_telemetry.RaceControl.{EventQueue}
use f1_telemetry.RaceControl.Penalty.{PenaltyEnforcer, process_events}
use f1_telemetry.Simulation.TelemetryGenerator.Standings.{stable_sort}

-- What is submitted to the pool.
pub data Job (F : Type 0) : Type 0 where
  check_limits : (states : List (DriverState F)) (lap : ℕ) → Job F
  update_weather : (lap : ℕ) → Job F

-- What the callback has hold of.
pub record Program (F : Type 0) : Type 0 where
  pub leaderboard : Leaderboard F
  pub race_state : RaceState F
  pub tick_counter : ℕ
  pub jobs : List (Job F)
  pub penalty : PenaltyEnforcer
  pub events : EventQueue

module _ {F : Type 0} where
  abbrev pub by_position : DriverState F → DriverState F → Bool
  by_position a b = ltb a.position b.position

  -- `std::sort`, as the sort that keeps equals in order; `Contract` is about any other.
  unfoldable pub sorted_standings : List (DriverState F) → List (DriverState F)
  sorted_standings states = stable_sort by_position states

  -- The jobs of a tick: `checks_idle` and `weather_idle` are what the futures say.
  abbrev pub jobs_of : ℕ → List (DriverState F) → ℕ → Bool → Bool → List (Job F)
  jobs_of tick states lap checks_idle weather_idle =
      (if tick % 9 == 0 && checks_idle then Job.check_limits states lap ∷ [] else [])
      ++ (if weather_idle then Job.update_weather lap ∷ [] else [])

  -- The callback, on thread `tid`, up to `process_events`.
  unfoldable pub publish :
      Program F → ℕ → List (DriverState F) → ℕ → Bool → Bool → Outcome (Program F)
  publish p tid states lap checks_idle weather_idle =
      let tick = p.tick_counter + 1 in
      elim (update p.leaderboard tid (sorted_standings states)) [
        | throws e ↦ thrown e p
        | ok board ↦ returned (record p {
          leaderboard = board;
          race_state = set_lap p.race_state lap;
          tick_counter = tick;
          jobs = p.jobs ++ jobs_of tick states lap checks_idle weather_idle;
        })
      ]

  -- The call of `process_events` at its end.
  unfoldable pub enforce : Program F → (ℕ → ℕ) → Program F
  enforce p clock =
      let (penalty, events) = process_events p.penalty p.events clock in
      record p { penalty = penalty; events = events }

  -- The whole callback, while nobody else pushes events.
  unfoldable pub on_tick :
      Program F → ℕ → List (DriverState F) → ℕ → Bool → Bool → (ℕ → ℕ) → Outcome (Program F)
  on_tick p tid states lap checks_idle weather_idle clock =
      elim (publish p tid states lap checks_idle weather_idle) [
        | thrown e q ↦ thrown e q
        | returned q ↦ returned (enforce q clock)
      ]
