-- ===== src/Main/Display/Tests.antt =====
-- What src/main.cpp prints of the grid after a tick, on fixed-point values.
use f1_telemetry.Prelude.{
  get_or, get_elem?, ◌<◌, ℕ, zero, suc, ◌+◌, ◌*◌, ◌≤◌, ◌≡◌, refl, false, some, List, [], ◌∷◌, ◌++◌,
  arith, length, map, All,
}
use f1_telemetry.Prelude.Int.{◌*ℤ◌}
use f1_telemetry.Float.Fixed.{Fixed, fixed_float}
use f1_telemetry.Common.Text.{to_string-length, to_string_ℤ, Text, text, to_string}
use f1_telemetry.Common.Types.{DriverProfile, DriverState, default_state, default_frame}
use f1_telemetry.Common.SeasonData.{drivers, driver_rows}
use f1_telemetry.RaceControl.Penalty.{new_enforcer}
use f1_telemetry.RaceControl.Weather.{new_weather}
use f1_telemetry.Main.Contract.{Rows}
use f1_telemetry.Main.Display.{View, row_of, print_rows, top_rows, console, title, report}
use f1_telemetry.Common.Leaderboard.{new_board}
use f1_telemetry.Common.RaceState.{new_race, end_race}
use f1_telemetry.Main.Display.Table.{Legible, read_rows, table_reads}
use f1_telemetry.Main.Display.Live.{live_ends}

-- A stream that prints no digits behind the point.
abbrev whole : ℕ → Fixed → Text
whole n (some z) = text "0"
whole n _ = text "nan"

abbrev driver : ℕ → DriverState Fixed
driver p = record (default_state 0) {
  profile = get_or drivers p (default_state 0).profile;
  position = p + 1;
}

abbrev grid_from : ℕ → ℕ → List (DriverState Fixed)
grid_from p zero = []
grid_from p (suc n) = driver p ∷ grid_from (p + 1) n

abbrev ten : List (DriverState Fixed)
ten = grid_from 0 10

ten-Rows : Rows ten
unfolding default_state
ten-Rows = ground arith

in_roster :
    (l : List (DriverProfile Fixed)) (p : ℕ) (d : DriverProfile Fixed)
    → p < length l
    → get_elem? l p ≡ some (get_or l p d)
in_roster [] p d h = absurd (omega (arith, h))
in_roster (x ∷ l) zero d h = refl
in_roster (x ∷ l) (suc p) d h = in_roster l p d (omega (arith, h))

twenty : length (drivers {F = Fixed}) ≡ 20
unfolding drivers driver_rows
twenty = refl

driver-Legible : (p : ℕ) → p < 20 → Legible whole (driver p)
unfolding default_state default_frame to_string_ℤ to_string ◌*ℤ◌
driver-Legible p h = record {
  number = p;
  of_roster = in_roster drivers p _ (omega (arith, twenty, h));
  place_short = omega (arith, h);
  speed_short = omega (arith, to_string-length 0);
  tires_short = omega (arith, to_string-length 0);
  fuel_short = omega (arith, to_string-length 0);
  gap_short = omega arith;
}

grid-Legible : (p n : ℕ) → p + n ≤ 20 → All (Legible whole) (grid_from p n)
grid-Legible p zero h = tt
grid-Legible p (suc n) h =
    (driver-Legible p (omega (arith, h)), grid-Legible (p + 1) n (omega (arith, h)))

table_reads_example :
    (read_rows 10 (print_rows whole new_enforcer (top_rows ten) ++ text "rest")
      ≡ (map (row_of whole new_enforcer) (top_rows ten), text "rest"))
    × (length (top_rows ten) ≡ 10)
    × Rows (top_rows ten)
table_reads_example =
    table_reads whole new_enforcer ten (text "rest") ten-Rows (grid-Legible 0 10 (omega arith))
      (omega arith)

-- A turn in a race that does not end.
abbrev view : ℕ → View Fixed ℕ
view k = record {
  race_finished = false;
  now = 7 + k * 500000000;
  standings = ten;
  lap = k;
  weather = new_weather 1;
  penalty = new_enforcer;
}

live_ends_example :
    (printed : Text) × (console whole 122 7 view new_race new_board new_enforcer
      ≡ some (title ++ (printed ++ report whole (end_race new_race) new_board new_enforcer)))
live_ends_example =
    live_ends whole 7 view new_race new_board new_enforcer (omega arith) (λ k. omega arith)
