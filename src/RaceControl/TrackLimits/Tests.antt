-- ===== src/RaceControl/TrackLimits/Tests.antt =====
-- src/race_control/track_limits.cpp for three drivers, on coins read from a list.
use f1_telemetry.Prelude.{ℕ, ◌*◌, ◌≡◌, refl, true, some, List, [], ◌∷◌, map, length}
use f1_telemetry.Prelude.Int.{pos, ◌*ℤ◌, ◌+ℤ◌}
use f1_telemetry.Float.Fixed.{Fixed, fixed_float}
use f1_telemetry.Common.Text.{text}
use f1_telemetry.Common.Types.{DriverState, default_state, default_frame}
use f1_telemetry.Common.SeasonData.{DriverRow}
use f1_telemetry.RaceControl.TrackLimits.{check, check_driver}
use f1_telemetry.RaceControl.TrackLimits.Violations.{
  check_refines, advance, offenders, on_track, strip, report,
}

abbrev percent : ℕ → Fixed
percent n = some (pos (n * 10000))

abbrev draw : List Fixed → Fixed × List Fixed
draw [] = (percent 0, [])
draw (coin ∷ coins) = (coin, coins)

-- Ferrari's second driver, at 280 km/h.
abbrev at_speed : DriverState Fixed
at_speed = record (default_state 0) {
  profile = record (default_state 0).profile { id = text "LEC"; aggression = percent 80 };
  latest_frame = record default_frame { speed_kph = percent 28000 };
}

abbrev pitted : DriverState Fixed
pitted = record at_speed { in_pit = true }

abbrev states : List (DriverState Fixed)
states = at_speed ∷ pitted ∷ at_speed ∷ []

one_violation :
    length (check draw (percent 5 ∷ percent 0 ∷ percent 90 ∷ []) [] states 7 (λ n. n)).1 ≡ 1
unfolding check check_driver default_state default_frame ◌*ℤ◌ ◌+ℤ◌
one_violation = refl

check_refines_example :
    ((check draw (percent 5 ∷ percent 0 ∷ []) [] states 7 (λ n. n)).0
      ≡ advance draw (length (on_track states)) (percent 5 ∷ percent 0 ∷ []))
    × (map strip (check draw (percent 5 ∷ percent 0 ∷ []) [] states 7 (λ n. n)).1
        ≡ map (report 7) (offenders draw (percent 5 ∷ percent 0 ∷ []) states))
check_refines_example = check_refines draw (percent 5 ∷ percent 0 ∷ []) [] states 7 (λ n. n)

abbrev leclerc : DriverRow
leclerc = record {
  id = text "LEC";
  name = text "Charles Leclerc";
  team = text "Ferrari";
  aggression = 80;
  consistency = 85;
  tire_mgmt = 75;
  risk_tolerance = 80;
}
