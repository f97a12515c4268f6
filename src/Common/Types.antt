-- ===== src/Common/Types.antt =====
-- src/common/types.h: the records and enumerations that the components exchange. Counters that the
-- program never lets go below zero are natural numbers.
use f1_telemetry.Prelude.{ℕ, Bool, false, List}
use f1_telemetry.Prelude.Int.{ℤ, pos}
use f1_telemetry.Float.{Float}
use f1_telemetry.Common.Text.{Text, blank_id}

pub record TelemetryFrame (F : Type 0) : Type 0 where
  pub driver_id : Text
  pub lap : ℕ
  pub sector : ℤ
  pub speed_kph : F
  pub throttle : F
  pub brake : F
  pub tire_wear : F
  pub fuel_kg : F
  pub drs_active : Bool
  pub in_pit : Bool
  pub gap_to_leader : F
  pub lap_time_ms : F

pub record DriverProfile (F : Type 0) : Type 0 where
  pub id : Text
  pub name : Text
  pub team : Text
  pub aggression : F
  pub consistency : F
  pub tire_mgmt : F
  pub risk_tolerance : F

pub record CarProfile (F : Type 0) : Type 0 where
  pub team : Text
  pub engine_power : F
  pub aero_efficiency : F
  pub cooling : F
  pub reliability : F

pub record TrackProfile (F : Type 0) : Type 0 where
  pub name : Text
  pub length_km : F
  pub sectors : ℕ
  pub tire_deg_factor : F
  pub fuel_consumption : F

pub data PenaltyState : Type 0 where
  clear pending serving served : PenaltyState

pub data WeatherState : Type 0 where
  dry damp wet : WeatherState

pub data EventType : Type 0 where
  track_limits penalty_issued pit_entry pit_exit : EventType
  weather_change safety_car fastest_lap radio_message : EventType

-- A time point of `steady_clock` is a count of its ticks.
pub record RaceControlEvent : Type 0 where
  pub type : EventType
  pub driver_id : Text
  pub lap : ℕ
  pub message : Text
  pub timestamp : ℕ

pub record DriverState (F : Type 0) : Type 0 where
  pub profile : DriverProfile F
  pub car : CarProfile F
  pub latest_frame : TelemetryFrame F
  pub penalty_state : PenaltyState
  pub penalty_warnings : ℕ
  pub position : ℕ
  pub pit_stops : ℕ
  pub best_lap_ms : F
  pub distance_in_lap : F
  pub in_pit : Bool
  pub pit_timer_ticks : ℤ
  pub has_completed_pit : Bool
  pub lap_start : ℕ

module _ {F : Type 0} ⦃f : Float F⦄ where
  open f use {decimal}

  -- The default member initialisers; members without one are zero or empty in `{}`.
  unfoldable pub default_frame : TelemetryFrame F
  default_frame = record {
    driver_id = blank_id;
    lap = 0;
    sector = pos 1;
    speed_kph = decimal 0 0;
    throttle = decimal 0 0;
    brake = decimal 0 0;
    tire_wear = decimal 0 0;
    fuel_kg = decimal 100 0;
    drs_active = false;
    in_pit = false;
    gap_to_leader = decimal 0 0;
    lap_time_ms = decimal 0 0;
  }

  -- `DriverState {}`, made when the clock reads `now`.
  unfoldable pub default_state : ℕ → DriverState F
  unfolding default_frame
  default_state now = record {
    profile = record {
      id = List.[];
      name = List.[];
      team = List.[];
      aggression = decimal 0 0;
      consistency = decimal 0 0;
      tire_mgmt = decimal 0 0;
      risk_tolerance = decimal 0 0;
    };
    car = record {
      team = List.[];
      engine_power = decimal 0 0;
      aero_efficiency = decimal 0 0;
      cooling = decimal 0 0;
      reliability = decimal 0 0;
    };
    latest_frame = default_frame;
    penalty_state = PenaltyState.clear;
    penalty_warnings = 0;
    position = 0;
    pit_stops = 0;
    best_lap_ms = decimal 0 0;
    distance_in_lap = decimal 0 0;
    in_pit = false;
    pit_timer_ticks = pos 0;
    has_completed_pit = false;
    lap_start = now;
  }
