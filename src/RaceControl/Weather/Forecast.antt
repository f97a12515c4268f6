-- ===== src/RaceControl/Weather/Forecast.antt =====
-- What src/race_control/weather.cpp announces over a race.
use f1_telemetry.Prelude.{
  ℕ, ◌+◌, ◌≤◌, ◌≡◌, ◌↔◌, ◌≢◌, ◌<◌, ◌⊎◌, inl, inr, refl, sym, ap, subst, ◌∙◌, true, List, [], ◌∷◌,
  ◌++◌, arith, ltb, Bool-cases,
}
use mathlib.Core.List.{append_assoc, append-nil}
use f1_telemetry.Float.{Float, ◌≺◌}
use f1_telemetry.Common.Text.{text}
use f1_telemetry.Common.Types.{RaceControlEvent, EventType, WeatherState}
use f1_telemetry.RaceControl.{EventQueue}
use f1_telemetry.RaceControl.Weather.{
  WeatherSystem, update, next_state, weather_name, weather_change,
}

-- The events tell of the weather going from one state to another, each naming the next state of the
-- cycle, five laps or more after the one before it, and the first as long after `lap`.
abbrev pub Forecast : WeatherState → ℕ → List RaceControlEvent → WeatherState → Type 0
Forecast s lap [] t = s ≡ t
Forecast s lap (e ∷ events) t =
    (lap + 5 ≤ e.lap)
    × (e.type ≡ EventType.weather_change)
    × (e.message ≡ text "Weather: " ++ weather_name (next_state s))
    × Forecast (next_state s) e.lap events t

Forecast-earlier :
    (s t : WeatherState) (lap later : ℕ) (events : List RaceControlEvent)
    → lap ≤ later
    → Forecast s later events t
    → Forecast s lap events t
Forecast-earlier s t lap later [] h e = e
Forecast-earlier s t lap later (e ∷ events) h (far, type, message, rest) =
    (omega arith, type, message, rest)

module _ {F : Type 0} ⦃f : Float F⦄ {G : Type 0} (draw : G → F × G) where
  -- The calls of `update`: the lap of each, and what the clock reads in it.
  unfoldable pub run : WeatherSystem G → EventQueue → List (ℕ × ℕ) → WeatherSystem G × EventQueue
  run w events [] = (w, events)
  run w events ((lap, now) ∷ calls) =
      let (v, pushed) = update draw w events lap now in run v pushed calls

  -- The branches of `update`.
  update-cases :
      (w : WeatherSystem G) (events : EventQueue) (lap now : ℕ)
      → (v : WeatherSystem G) × (added : List RaceControlEvent) × (update draw w events lap now
          ≡ (v, events ++ added))
        × ((added ≡ []) × (v.state ≡ w.state) × (w.last_update_lap ≤ v.last_update_lap)
            ⊎ (added ≡ weather_change (next_state w.state) lap now ∷ [])
              × (v.state ≡ next_state w.state)
              × (v.last_update_lap ≡ lap)
              × (w.last_update_lap + 5 ≤ lap))
  unfolding update
  update-cases w events lap now = elim (Bool-cases (ltb lap (w.last_update_lap + 5))) [
    | inl soon ↦ (w, [], ground (arith, append-nil events), inl (refl, refl, omega arith))
    | inr due ↦ elim (Bool-cases (f.decimal 15 2 ≺ (draw w.rng).0)) [
      | inl stays ↦ (
        record w { rng = (draw w.rng).1; last_update_lap = lap },
        [],
        ground (arith, append-nil events),
        inl (refl, refl, ground arith),
      )
      | inr changes ↦ (
        record { rng = (draw w.rng).1; last_update_lap = lap; state = next_state w.state },
        weather_change (next_state w.state) lap now ∷ [],
        ground arith,
        inr (refl, refl, refl, ground arith),
      )
    ]
  ]

  joined :
      (w v : WeatherSystem G) (lap now : ℕ) (here later : List RaceControlEvent) (t : WeatherState)
      → (here ≡ []) × (v.state ≡ w.state) × (w.last_update_lap ≤ v.last_update_lap)
        ⊎ (here ≡ weather_change (next_state w.state) lap now ∷ [])
          × (v.state ≡ next_state w.state)
          × (v.last_update_lap ≡ lap)
          × (w.last_update_lap + 5 ≤ lap)
      → Forecast v.state v.last_update_lap later t
      → Forecast w.state w.last_update_lap (here ++ later) t
  joined w v lap now here later t (inl (e, same, ahead)) forecast = rw e (
      Forecast-earlier w.state t w.last_update_lap v.last_update_lap later ahead
        (subst (λ s. Forecast s v.last_update_lap later t) same forecast))
  joined w v lap now here later t (inr (e, next, l, due)) forecast = rw e (
    due,
    refl,
    refl,
    subst (λ m. Forecast (next_state w.state) m later t) l
        (subst (λ s. Forecast s v.last_update_lap later t) next forecast),
  )

  pub run-Forecast :
      (w : WeatherSystem G) (events : EventQueue) (calls : List (ℕ × ℕ))
      → (added : List RaceControlEvent) × ((run w events calls).1 ≡ events ++ added)
        × Forecast w.state w.last_update_lap added (run w events calls).0.state
  unfolding run
  run-Forecast w events [] = ([], sym (append-nil events), refl)
  run-Forecast w events ((lap, now) ∷ calls) =
      let (v, here, e, effect) = update-cases w events lap now in
      let (later, queue, forecast) = run-Forecast v (events ++ here) calls in
      let after : (run w events ((lap, now) ∷ calls) ≡ run v (events ++ here) calls) =
        ap (λ r. run r.0 r.1 calls) e in
      (
        here ++ later,
        ap (λ r. r.1) after ∙ queue ∙ append_assoc events here later,
        subst (λ r. Forecast w.state w.last_update_lap (here ++ later) r.0.state) (sym after)
            (joined w v lap now here later (run v (events ++ here) calls).0.state effect forecast),
      )

  moves_on : (s : WeatherState) → next_state s ≢ s
  moves_on s e = absurd (ground arith)

  -- A call of `update` leaves the weather as it is exactly when fewer than five laps have passed since
  -- the last update, or the coin shows more than 0.15.
  pub update-stays_iff :
      (w : WeatherSystem G) (events : EventQueue) (lap now : ℕ)
      → ((update draw w events lap now).0.state ≡ w.state)
        ↔ ((lap < w.last_update_lap + 5) ⊎ ((f.decimal 15 2 ≺ (draw w.rng).0) ≡ true))
  unfolding update
  update-stays_iff w events lap now = ground (arith, moves_on w.state)
