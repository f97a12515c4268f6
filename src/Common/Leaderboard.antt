-- ===== src/Common/Leaderboard.antt =====
-- src/common/leaderboard.h: the published standings. Every method holds the mutex for its whole body,
-- so a call is one step.
pub mod Writers
pub mod Fastest
pub mod Position
mod Tests
use f1_telemetry.Prelude.{
  ℕ, Bool, true, false, ◌&&◌, Option, none, some, List, [], ◌∷◌, ◌==◌, if◌then◌else◌, length,
}
use f1_telemetry.Prelude.Int.{ℤ, pos, negsuc}
use f1_telemetry.Prelude.Result.{Result, ok, throws, Exception}
use f1_telemetry.Float.{Float, ◌≺◌}
use f1_telemetry.Common.Text.{Text}
use f1_telemetry.Common.Types.{DriverState, default_state}

-- A thread is a number; `none` is the default `std::thread::id`, of no thread.
pub record Leaderboard (F : Type 0) : Type 0 where
  pub standings : List (DriverState F)
  pub writer_id : Option ℕ

module _ {F : Type 0} where
  unfoldable pub new_board : Leaderboard F
  new_board = record { standings = []; writer_id = none }

  -- `update`, called by thread `tid`.
  unfoldable pub update : Leaderboard F → ℕ → List (DriverState F) → Result (Leaderboard F)
  update b tid sorted_standings = elim b.writer_id [
    | none ↦ ok (record { standings = sorted_standings; writer_id = some tid })
    | some w ↦
        if w == tid
        then ok (record b { standings = sorted_standings })
        else throws Exception.logic_error
  ]

  unfoldable pub snapshot : Leaderboard F → List (DriverState F)
  snapshot b = b.standings

  unfoldable pub size : Leaderboard F → ℕ
  size b = length b.standings

  -- `s.position == pos`
  abbrev pub at : DriverState F → ℤ → Bool
  at s (pos p) = s.position == p
  at s (negsuc n) = false

  -- The loop of `at_position`, and what is returned when it falls through.
  unfoldable pub find_position : List (DriverState F) → ℤ → DriverState F → DriverState F
  find_position [] p fallback = fallback
  find_position (s ∷ rest) p fallback = if at s p then s else find_position rest p fallback

module _ {F : Type 0} ⦃f : Float F⦄ where
  -- The clock reads `now` if a default `DriverState` has to be made.
  unfoldable pub at_position : Leaderboard F → ℤ → ℕ → DriverState F
  at_position b p now = find_position b.standings p (default_state now)

  -- The test of the loop of `fastest_lap_holder`.
  abbrev pub beats : DriverState F → F → Bool
  beats s best = (f.decimal 0 1 ≺ s.best_lap_ms) && (s.best_lap_ms ≺ best)

  unfoldable pub holder_from : List (DriverState F) → F → Text → Text
  holder_from [] best holder = holder
  holder_from (s ∷ rest) best holder =
      let faster = holder_from rest s.best_lap_ms s.profile.id in
      let same = holder_from rest best holder in if beats s best then faster else same

  unfoldable pub fastest_lap_holder : Leaderboard F → Text
  unfolding holder_from
  fastest_lap_holder b = holder_from b.standings f.max_value []
