-- ===== src/Common/Leaderboard/Tests.antt =====
-- A board of three drivers, and the theorems at it.
use f1_telemetry.Prelude.{ℕ, ◌*◌, ◌≡◌, refl, some, List, [], ◌∷◌}
use f1_telemetry.Prelude.Int.{pos}
use f1_telemetry.Float.Fixed.{Fixed, fixed_float, Fixed-IsOrdered, scale}
use f1_telemetry.Common.Types.{DriverState, default_state}
use f1_telemetry.Common.Leaderboard.{
  Leaderboard, new_board, at_position, fastest_lap_holder, find_position,
}
use f1_telemetry.Common.Leaderboard.Writers.{run_updates, single_writer}
use f1_telemetry.Common.Leaderboard.Fastest.{FastestHolder, fastest_lap_holder-FastestHolder}

abbrev entry : ℕ → ℕ → DriverState Fixed
entry position lap = record (default_state 0) {
  position = position;
  best_lap_ms = some (pos (lap * scale));
}

abbrev standings : List (DriverState Fixed)
standings = entry 1 90500 ∷ entry 2 89250 ∷ entry 3 0 ∷ []

abbrev board : Leaderboard Fixed
board = record { standings = standings; writer_id = some 7 }

second_place : (at_position board (pos 2) 5).best_lap_ms ≡ some (pos (89250 * scale))
unfolding at_position find_position default_state
second_place = refl

nobody_fourth : (at_position board (pos 4) 5).lap_start ≡ 5
unfolding at_position find_position default_state
nobody_fourth = refl

single_writer_example :
    run_updates {F = Fixed} new_board ((7, []) ∷ (8, []) ∷ (7, standings) ∷ (9, []) ∷ []) ≡ board
single_writer_example = single_writer 7 [] ((8, []) ∷ (7, standings) ∷ (9, []) ∷ [])

fastest_lap_holder-FastestHolder_example : FastestHolder standings (fastest_lap_holder board)
fastest_lap_holder-FastestHolder_example = fastest_lap_holder-FastestHolder Fixed-IsOrdered board
