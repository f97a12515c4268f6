-- ===== src/RaceControl/Weather.antt =====
-- src/race_control/weather.h and .cpp. The lock makes each call one step. The generator and its
-- distribution are a parameter: `draw` gives the next value and the generator after it.
pub mod Forecast
mod Tests
use f1_telemetry.Prelude.{ℕ, ◌+◌, Bool, true, false, List, [], ◌∷◌, ◌++◌, ltb, if◌then◌else◌}
use f1_telemetry.Float.{Float, ◌≺◌}
use f1_telemetry.Common.Text.{Text, text, blank_id}
use f1_telemetry.Common.Types.{RaceControlEvent, EventType, WeatherState}
use f1_telemetry.RaceControl.{EventQueue}

pub record WeatherSystem (G : Type 0) : Type 0 where
  pub state : WeatherState
  pub rng : G
  pub last_update_lap : ℕ

unfoldable pub new_weather : {G : Type 0} → G → WeatherSystem G
new_weather seed = record { state = WeatherState.dry; rng = seed; last_update_lap = 0 }

-- DRY, DAMP, WET, DRY
abbrev pub next_state : WeatherState → WeatherState
next_state WeatherState.dry = WeatherState.damp
next_state WeatherState.damp = WeatherState.wet
next_state WeatherState.wet = WeatherState.dry

abbrev pub weather_name : WeatherState → Text
weather_name WeatherState.dry = text "DRY"
weather_name WeatherState.damp = text "DAMP"
weather_name WeatherState.wet = text "WET"

abbrev pub weather_change : WeatherState → ℕ → ℕ → RaceControlEvent
weather_change new_state current_lap now = record {
  type = EventType.weather_change;
  driver_id = blank_id;
  lap = current_lap;
  message = text "Weather: " ++ weather_name new_state;
  timestamp = now;
}

module _ {F : Type 0} ⦃f : Float F⦄ {G : Type 0} (draw : G → F × G) where
  -- `update` when the clock reads `now`. In the first test, the lap of the last update stands on the
  -- other side.
  unfoldable pub update : WeatherSystem G → EventQueue → ℕ → ℕ → WeatherSystem G × EventQueue
  update w events current_lap now =
      let (coin, rng) = draw w.rng in
      let drawn = record w { rng = rng; last_update_lap = current_lap } in
      let new_state = next_state w.state in
      if ltb current_lap (w.last_update_lap + 5)
      then (w, events)
      else if f.decimal 15 2 ≺ coin
      then (drawn, events)
      else (
        record drawn { state = new_state },
        events ++ weather_change new_state current_lap now ∷ [],
      )

module _ {G : Type 0} where
  unfoldable pub current : WeatherSystem G → WeatherState
  current w = w.state

module _ {F : Type 0} ⦃f : Float F⦄ {G : Type 0} where
  unfoldable pub grip_factor : WeatherSystem G → F
  grip_factor w = elim w.state [
    | WeatherState.dry ↦ f.decimal 100 2
    | WeatherState.damp ↦ f.decimal 85 2
    | WeatherState.wet ↦ f.decimal 70 2
  ]
