-- ===== src/Simulation/TelemetryGenerator.antt =====
-- src/simulation/telemetry_generator.h and .cpp. The generator of normal values is a parameter, as
-- `sample`, which gives a value and the generator after it. `steady_clock` counts nanoseconds.
pub mod Standings
use f1_telemetry.Prelude.{
  ℕ, ◌+◌, ◌-◌, ◌*◌, Bool, true, false, not, ◌&&◌, ◌||◌, List, [], ◌∷◌, ◌++◌, length, ltb, ◌==◌,
  if◌then◌else◌,
}
use f1_telemetry.Prelude.Int.{ℤ, pos, ◌+ℤ◌, ◌-ℤ◌, ltb_ℤ, leb_ℤ}
use f1_telemetry.Float.{Float, ◌⊕◌, ◌⊖◌, ◌⊗◌, ◌⊘◌, ◌≺◌, ◌≼◌, min_float, max_float, clamp}
use f1_telemetry.Common.Text.{memcpy}
use f1_telemetry.Common.Types.{
  TelemetryFrame, DriverProfile, DriverState, TrackProfile, CarProfile, default_state,
}
use f1_telemetry.Common.SeasonData.{drivers, car_for_driver}
use f1_telemetry.Concurrency.Spsc.{SpscQueue, push}
use f1_telemetry.Simulation.LapTimeConsumer.{FrameQueue, capacity_log}

pub record TelemetryGenerator (F G : Type 0) : Type 0 where
  pub queue : FrameQueue F
  pub track : TrackProfile F
  pub states : List (DriverState F)
  pub rng : G
  pub race_lap : ℕ
  pub race_finished : Bool

abbrev pub pit_stop_ticks : ℤ
pit_stop_ticks = pos 11

abbrev pub total_laps : ℕ
total_laps = 50

-- `std::min(3, n)`
abbrev pub at_most_three : ℤ → ℤ
at_most_three n = if ltb_ℤ n (pos 3) then n else pos 3

module _ {F : Type 0} ⦃f : Float F⦄ where
  open f use {decimal, of_int, to_int}

  -- The constants `TIME_SCALE * TICK_S` and `TIRE_WEAR_BASE`
  abbrev pub sim_s_per_tick : F
  sim_s_per_tick = decimal 1200 1 ⊗ decimal 2 2

  abbrev pub tire_wear_base : F
  tire_wear_base = decimal 130 5

  -- The driver at index `i` of the grid of `n`, made when the clock reads `now`.
  unfoldable pub grid_state : ℕ → ℕ → DriverProfile F → ℕ → DriverState F
  unfolding default_state
  grid_state n i profile now =
      let s = default_state now in
      record s {
        profile = profile;
        car = car_for_driver profile;
        position = i + 1;
        distance_in_lap = of_int (pos (n - i - 1)) ⊗ decimal 10 3;
        latest_frame = record s.latest_frame {
          driver_id = memcpy s.latest_frame.driver_id profile.id 3;
          lap = 1;
          fuel_kg = decimal 1000 1;
        };
      }

  -- The loop of the constructor from index `i` on; `clock i` is what the clock reads at that index.
  unfoldable pub grid_from : ℕ → ℕ → List (DriverProfile F) → (ℕ → ℕ) → List (DriverState F)
  grid_from n i [] clock = []
  grid_from n i (profile ∷ rest) clock =
      grid_state n i profile (clock i) ∷ grid_from n (i + 1) rest clock

  unfoldable pub new_generator :
      {G : Type 0} → FrameQueue F → TrackProfile F → G → (ℕ → ℕ) → TelemetryGenerator F G
  new_generator queue track seed clock = record {
    queue = queue;
    track = track;
    states = grid_from (length (drivers {F = F})) 0 drivers clock;
    rng = seed;
    race_lap = 1;
    race_finished = false;
  }

  unfoldable pub max_speed : CarProfile F → F
  max_speed car = decimal 2800 1 ⊕ car.engine_power ⊗ decimal 900 1

  -- `frame.speed_kph`, for a value `z` of the normal distribution.
  unfoldable pub speed_of : DriverState F → F → F
  speed_of state z =
      let frame = state.latest_frame in
      let fuel_factor = decimal 10 1 ⊖ frame.fuel_kg ⊘ decimal 1000 1 ⊗ decimal 8 2 in
      let tire_factor = decimal 10 1 ⊖ frame.tire_wear ⊗ decimal 25 2 in
      let variation = z ⊗ (decimal 10 1 ⊖ state.profile.consistency) ⊗ decimal 80 1 in
      let drs = if frame.drs_active then decimal 120 1 else decimal 0 1 in
      clamp (max_speed state.car ⊗ fuel_factor ⊗ tire_factor ⊕ variation ⊕ drs) (decimal 800 1)
        (decimal 3700 1)

  abbrev pub throttle_at : F → F
  throttle_at speed = min_float (decimal 10 1) (speed ⊘ decimal 3100 1)

  abbrev pub brake_at : F → F
  brake_at speed =
      if speed ≺ decimal 1500 1
      then clamp ((decimal 1500 1 ⊖ speed) ⊘ decimal 1500 1) (decimal 0 1) (decimal 10 1)
      else decimal 0 1

  -- `tick` for one driver who is not in the pits, from the speed to the fuel.
  unfoldable pub drive : TrackProfile F → DriverState F → F → DriverState F
  drive track state z =
      let frame = state.latest_frame in
      let speed = speed_of state z in
      let dist_km = speed ⊘ decimal 36000 1 ⊗ sim_s_per_tick in
      let distance = state.distance_in_lap ⊕ dist_km in
      let sector_len = track.length_km ⊘ decimal 30 1 in
      let wear =
        tire_wear_base
        ⊗ state.profile.aggression
        ⊗ track.tire_deg_factor
        ⊗ (speed ⊘ decimal 2800 1) in
      let fuel_burn = track.fuel_consumption ⊗ dist_km in
      record state {
        distance_in_lap = distance;
        latest_frame = record frame {
          lap_time_ms = decimal 0 1;
          speed_kph = speed;
          throttle = throttle_at speed;
          brake = brake_at speed;
          sector = at_most_three (to_int (distance ⊘ sector_len) +ℤ pos 1);
          tire_wear = min_float (decimal 10 1) (frame.tire_wear ⊕ wear);
          fuel_kg = max_float (decimal 0 1) (frame.fuel_kg ⊖ fuel_burn);
        };
      }

  unfoldable pub should_pit : DriverState F → Bool
  should_pit state =
      let threshold = decimal 60 2 ⊕ state.profile.tire_mgmt ⊗ decimal 25 2 in
      not state.has_completed_pit
      && not (ltb state.latest_frame.lap 5)
      && (threshold ≼ state.latest_frame.tire_wear)

  -- `duration<float, std::milli>(now - lap_start).count()`
  abbrev pub millis : ℕ → ℕ → F
  millis now lap_start = of_int (pos now -ℤ pos lap_start) ⊘ decimal 1000000 0

  -- The block of a completed lap up to the best lap, when the clock reads `now`.
  unfoldable pub record_lap : TrackProfile F → DriverState F → ℕ → DriverState F
  record_lap track state now =
      let lap_ms = millis now state.lap_start in
      let better = (state.best_lap_ms ≺ decimal 10 1) || (lap_ms ≺ state.best_lap_ms) in
      record state {
        distance_in_lap = state.distance_in_lap ⊖ track.length_km;
        lap_start = now;
        best_lap_ms = if better then lap_ms else state.best_lap_ms;
        latest_frame = record state.latest_frame {
          lap = state.latest_frame.lap + 1;
          lap_time_ms = lap_ms;
        };
      }

  abbrev pub enter_pit : DriverState F → DriverState F
  enter_pit state = record state {
    in_pit = true;
    pit_timer_ticks = pit_stop_ticks;
    has_completed_pit = true;
    latest_frame = record state.latest_frame { in_pit = true };
  }

  -- The driver after a completed lap, the lap of the race and whether the race is over.
  unfoldable pub complete_lap :
      TrackProfile F → DriverState F → ℕ → ℕ → Bool → DriverState F × ℕ × Bool
  complete_lap track state now race_lap finished =
      let timed = record_lap track state now in
      let lap = timed.latest_frame.lap in
      (
        if should_pit timed then enter_pit timed else timed,
        if ltb race_lap lap then lap else race_lap,
        if ltb total_laps lap && (timed.position == 1) then true else finished,
      )

  unfoldable pub handle_pit : DriverState F → DriverState F
  handle_pit state =
      let timer = state.pit_timer_ticks -ℤ pos 1 in
      let frame = record state.latest_frame {
        in_pit = true;
        speed_kph = decimal 600 1;
        throttle = decimal 2 1;
        brake = decimal 1 1;
        lap_time_ms = decimal 0 1;
      } in
      let waiting = record state { pit_timer_ticks = timer; latest_frame = frame } in
      let leaving = record waiting {
        in_pit = false;
        pit_stops = state.pit_stops + 1;
        latest_frame = record frame {
          in_pit = false;
          tire_wear = decimal 2 2;
          fuel_kg = decimal 1000 1;
        };
      } in
      if leb_ℤ timer (pos 0) then leaving else waiting

  module _ {G : Type 0} (sample : G → F × G) where
    -- The body of the loop of `tick` before the push, for one driver: the driver, the generator, the
    -- lap of the race and whether it is over.
    unfoldable pub advance :
        TrackProfile F → DriverState F → ℕ → G → ℕ → Bool → DriverState F × G × ℕ × Bool
    advance track state now rng race_lap finished =
        let (z, after) = sample rng in
        let driven = drive track state z in
        let (timed, lap, over) = complete_lap track driven now race_lap finished in
        if state.in_pit
        then (handle_pit state, rng, race_lap, finished)
        else if track.length_km ≼ driven.distance_in_lap
        then (timed, after, lap, over)
        else (driven, after, race_lap, finished)

    -- The loop of `tick` over the drivers that are left, in a generator whose `states` are those done;
    -- `clock n` is what the clock reads with `n` drivers left after this one. A frame that finds the
    -- ring full is dropped.
    unfoldable pub advance_all :
        TelemetryGenerator F G → List (DriverState F) → (ℕ → ℕ) → TelemetryGenerator F G
    advance_all g [] clock = g
    advance_all g (state ∷ rest) clock =
        let (next, rng, lap, over) =
          advance g.track state (clock (length rest)) g.rng g.race_lap g.race_finished in
        let (pushed, queue) = push capacity_log g.queue next.latest_frame in
        let h = record g {
          queue = queue;
          states = g.states ++ next ∷ [];
          rng = rng;
          race_lap = lap;
          race_finished = over;
        } in
        advance_all h rest clock
