-- ===== src/RaceControl/Weather/Tests.antt =====
-- src/race_control/weather.cpp on coins read from a list.
use f1_telemetry.Prelude.{ℕ, ◌*◌, ◌≡◌, refl, some, List, [], ◌∷◌}
use f1_telemetry.Prelude.Int.{pos}
use f1_telemetry.Float.Fixed.{Fixed, fixed_float}
use f1_telemetry.Common.Types.{WeatherState}
use f1_telemetry.RaceControl.Weather.{WeatherSystem, new_weather, update, current}
use f1_telemetry.RaceControl.Weather.Forecast.{Forecast, run}

abbrev percent : ℕ → Fixed
percent n = some (pos (n * 10000))

abbrev draw : List Fixed → Fixed × List Fixed
draw [] = (percent 0, [])
draw (coin ∷ coins) = (coin, coins)

abbrev weather : WeatherSystem (List Fixed)
weather = new_weather (percent 10 ∷ percent 90 ∷ percent 15 ∷ [])

-- Laps 5, 12 and 17 draw a coin, and lap 12 draws too high a one.
abbrev calls : List (ℕ × ℕ)
calls = (3, 0) ∷ (5, 1) ∷ (9, 2) ∷ (12, 3) ∷ (17, 4) ∷ []

wet_at_last : current (run draw weather [] calls).0 ≡ WeatherState.wet
unfolding run update current new_weather
wet_at_last = refl
