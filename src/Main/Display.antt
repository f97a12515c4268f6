-- ===== src/Main/Display.antt =====
-- What src/main.cpp prints. `fixed n x` stands for the stream's text of `x` after `std::fixed` and
-- `std::setprecision(n)`.
pub mod Columns
pub mod Table
pub mod Live
mod Tests
use f1_telemetry.Prelude.{
  ℕ, zero, suc, ◌+◌, ◌-◌, ◌*◌, Bool, true, false, ◌&&◌, Option, none, some, List, [], ◌∷◌, ◌++◌,
  length, replicate, take, get_elem?, ltb, leb, ◌==◌, if◌then◌else◌,
}
use f1_telemetry.Prelude.Int.{ℤ, pos, negsuc}
use f1_telemetry.Float.{Float, ◌⊗◌}
use f1_telemetry.Common.Text.{Text, text, to_string, to_string_ℤ}
use f1_telemetry.Common.Types.{DriverState, DriverProfile, WeatherState, PenaltyState}
use f1_telemetry.Common.SeasonData.{drivers}
use f1_telemetry.Common.Leaderboard.{Leaderboard, snapshot}
use f1_telemetry.Common.RaceState.{
  RaceState, end_race, get_lap, get_fastest_lap_holder, get_fastest_lap_ms,
}
use f1_telemetry.RaceControl.Penalty.{PenaltyEnforcer, penalty_state}
use f1_telemetry.RaceControl.Weather.{WeatherSystem, current, grip_factor}
use f1_telemetry.Simulation.TelemetryGenerator.{total_laps}

abbrev pub newline : Text
newline = 10 ∷ []

abbrev pub title : Text
title =
    text "RaceCondition-Z -- live console test (Phases 1-5)"
    ++ (newline ++ (replicate 78 61 ++ newline))

abbrev pub weather_name : WeatherState → Text
weather_name WeatherState.dry = text "DRY"
weather_name WeatherState.damp = text "DAMP"
weather_name WeatherState.wet = text "WET"

abbrev pub penalty_name : PenaltyState → Text
penalty_name PenaltyState.clear = text "-"
penalty_name PenaltyState.pending = text "PEN"
penalty_name PenaltyState.serving = text "SRV"
penalty_name PenaltyState.served = text "OK"

-- `std::left << std::setw(n)`: spaces behind a shorter text; a longer one is not cut.
unfoldable pub pad : ℕ → Text → Text
pad n t = t ++ replicate (n - length t) 32

-- The ten columns of a row.
pub record Row : Type 0 where
  pub place : Text
  pub drv : Text
  pub team : Text
  pub speed : Text
  pub tires : Text
  pub fuel : Text
  pub gap : Text
  pub drs : Text
  pub pit : Text
  pub pen : Text

-- A row as it is inserted into the stream.
unfoldable pub print_row : Row → Text
print_row r =
    pad 4 r.place
    ++ (pad 6 r.drv
        ++ (pad 15 r.team
            ++ (pad 9 r.speed
                ++ (pad 7 r.tires
                    ++ (pad 7 r.fuel
                        ++ (pad 8 r.gap
                            ++ (pad 5 r.drs ++ (pad 5 r.pit ++ (r.pen ++ newline)))))))))

abbrev pub heading : Row
heading = record {
  place = text "Pos";
  drv = text "Drv";
  team = text "Team";
  speed = text "Speed";
  tires = text "Tires";
  fuel = text "Fuel";
  gap = text "Gap";
  drs = text "DRS";
  pit = text "Pit";
  pen = text "Pen";
}

-- What the shared state shows in a turn of the loop of `main`: at its head, and behind its sleep.
pub record View (F R : Type 0) : Type 0 where
  pub race_finished : Bool
  pub now : ℕ
  pub standings : List (DriverState F)
  pub lap : ℕ
  pub weather : WeatherSystem R
  pub penalty : PenaltyEnforcer

-- In nanoseconds.
abbrev pub safety_timeout : ℕ
safety_timeout = 60000000000

module _ {F : Type 0} where
  -- The rows of a snapshot: `std::min<int>(10, standings.size())`.
  unfoldable pub top_rows : List (DriverState F) → List (DriverState F)
  top_rows standings = take (if ltb (length standings) 10 then length standings else 10) standings

  unfoldable pub print_final : PenaltyEnforcer → List (DriverState F) → Text
  print_final penalty [] = []
  print_final penalty (s ∷ standings) =
      text "P"
      ++ (to_string s.position
          ++ (text "  "
              ++ (s.profile.name
                  ++ (text " ("
                      ++ (s.profile.team
                          ++ (text ")"
                              ++ (text "  pit stops: "
                                  ++ (to_string s.pit_stops
                                      ++ (text "  penalty: "
                                          ++ (penalty_name (penalty_state penalty s.profile.id)
                                              ++ (newline
                                                  ++ print_final penalty standings)))))))))))

module _ {F : Type 0} ⦃f : Float F⦄ where
  -- `DRIVERS[fastest_idx]`, where the index is in range.
  abbrev pub fastest_of : ℤ → Option (DriverProfile F)
  fastest_of (pos i) = get_elem? drivers i
  fastest_of (negsuc n) = none

module _ {F : Type 0} ⦃f : Float F⦄ (fixed : ℕ → F → Text) where
  open f use {decimal, of_int, to_int}

  unfoldable pub format_gap : F → Bool → Text
  format_gap gap_seconds is_leader = if is_leader then text "-" else fixed 1 gap_seconds ++ text "s"

  -- The body of the loop over the rows.
  unfoldable pub row_of : PenaltyEnforcer → DriverState F → Row
  row_of penalty s =
      let frame = s.latest_frame in
      record {
        place = to_string s.position;
        drv = s.profile.id;
        team = s.profile.team;
        speed = to_string_ℤ (to_int frame.speed_kph) ++ text "kph";
        tires = to_string_ℤ (to_int (frame.tire_wear ⊗ of_int (pos 100))) ++ text "%";
        fuel = to_string_ℤ (to_int frame.fuel_kg) ++ text "kg";
        gap = format_gap frame.gap_to_leader (s.position == 1);
        drs = if frame.drs_active then text "DRS" else [];
        pit = if frame.in_pit then text "PIT" else [];
        pen = penalty_name (penalty_state penalty s.profile.id);
      }

  unfoldable pub print_rows : PenaltyEnforcer → List (DriverState F) → Text
  print_rows penalty [] = []
  print_rows penalty (s ∷ standings) = print_row (row_of penalty s) ++ print_rows penalty standings

  module _ {R : Type 0} where
    -- The body of the loop of `main` behind the sleep.
    unfoldable pub print_snapshot :
        List (DriverState F) → ℕ → WeatherSystem R → PenaltyEnforcer → Text
    print_snapshot [] lap weather penalty = []
    print_snapshot (s ∷ standings) lap weather penalty =
        newline
        ++ (text "Lap "
            ++ (to_string lap
                ++ (text "/"
                    ++ (to_string total_laps
                        ++ (text "   Weather: "
                            ++ (weather_name (current weather)
                                ++ (text "   Grip: "
                                    ++ (fixed 2 (grip_factor weather)
                                        ++ (newline
                                            ++ (print_row heading
                                                ++ print_rows penalty
                                                    (top_rows (s ∷ standings))))))))))))

    -- The loop from turn `k` on, on fuel: what it prints.
    unfoldable pub live : ℕ → ℕ → (ℕ → View F R) → ℕ → Option Text
    live zero race_start_time views k = none
    live (suc fuel) race_start_time views k =
        let v = views k in
        let rest = live fuel race_start_time views (k + 1) in
        if v.race_finished
        then some []
        else if ltb (race_start_time + safety_timeout) v.now
        then some (newline ++ (text "[safety timeout hit -- stopping early]" ++ newline))
        else (elim rest [
          | none ↦ none
          | some later ↦ some (print_snapshot v.standings v.lap v.weather v.penalty ++ later)
        ])

  unfoldable pub print_fastest : RaceState F → Text
  print_fastest race = elim (fastest_of {F = F} (get_fastest_lap_holder race)) [
    | none ↦ []
    | some driver ↦
        newline
        ++ (text "Fastest lap: "
            ++ (driver.name
                ++ (text " ("
                    ++ (driver.team
                        ++ (text ")  "
                            ++ (fixed 0 (get_fastest_lap_ms race) ++ (text "ms" ++ newline)))))))
  ]

  -- What `main` prints behind the loop.
  unfoldable pub report : RaceState F → Leaderboard F → PenaltyEnforcer → Text
  report race board penalty =
      newline
      ++ (replicate 78 61
          ++ (newline
              ++ (text "RACE FINISHED after "
                  ++ (to_string (get_lap race)
                      ++ (text " laps"
                          ++ (newline
                              ++ (newline
                                  ++ (text "Final standings:"
                                      ++ (newline
                                          ++ (print_final penalty (snapshot board)
                                              ++ print_fastest race))))))))))

  -- What `main` prints, where the parts are as given once the threads are joined.
  unfoldable pub console :
      {R : Type 0}
      → ℕ
      → ℕ
      → (ℕ → View F R)
      → RaceState F
      → Leaderboard F
      → PenaltyEnforcer
      → Option Text
  console fuel race_start_time views race board penalty = elim (live fuel race_start_time views 0) [
    | none ↦ none
    | some printed ↦ some (title ++ (printed ++ report (end_race race) board penalty))
  ]
