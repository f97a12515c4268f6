-- ===== src/Common/RaceState/Tests.antt =====
-- Claims of the fastest lap on fixed-point times, and the theorems at them.
use f1_telemetry.Prelude.{ℕ, ◌*◌, ◌≡◌, refl, some, List, [], ◌∷◌}
use f1_telemetry.Prelude.Int.{ℤ, pos}
use f1_telemetry.Float.Fixed.{Fixed, fixed_float, Fixed-IsOrdered, scale}
use f1_telemetry.Common.RaceState.{new_race, try_claim_fastest_lap, run_claims}
use f1_telemetry.Common.RaceState.Race.{
  ClaimAt, System, Reach, begin, next, loads, wins, claims_race, stale_holder, Falling,
}

-- A lap of so many seconds.
abbrev seconds : ℕ → Fixed
seconds n = some (pos (n * 1000 * scale))

abbrev laps : List (ℤ × Fixed)
laps = (pos 4, seconds 95) ∷ (pos 7, seconds 91) ∷ (pos 2, seconds 91) ∷ (pos 4, seconds 93) ∷ []

fastest_of_laps :
    ((run_claims new_race laps).fastest_lap_holder ≡ pos 7)
    × ((run_claims new_race laps).fastest_lap_ms ≡ seconds 91)
unfolding run_claims try_claim_fastest_lap new_race
fastest_of_laps = (refl, refl)

claims_race_example : Falling {F = Fixed} ((pos 4, seconds 95) ∷ []) (seconds 95) × Unit {0}
unfolding new_race
claims_race_example = claims_race Fixed-IsOrdered (
    next (next begin (loads 6 (pos 4) (seconds 95) refl))
      (wins 6 (pos 4) (seconds 95) (fixed_float.max_value) refl refl refl))

stale_holder_example :
    (s : System Fixed) × Reach s
    × ((i : ℕ) → s.threads i ≡ ClaimAt.idle)
    × (s.won ≡ (pos 1, seconds 80) ∷ (pos 0, seconds 90) ∷ [])
    × (s.race.fastest_lap_ms ≡ seconds 80)
    × (s.race.fastest_lap_holder ≡ pos 0)
stale_holder_example = stale_holder (pos 0) (pos 1) (seconds 90) (seconds 80) refl refl
