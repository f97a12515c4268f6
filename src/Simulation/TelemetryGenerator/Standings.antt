-- ===== src/Simulation/TelemetryGenerator/Standings.antt =====
-- `update_positions_and_drs` of src/simulation/telemetry_generator.cpp, and `tick`, which ends with it.
pub mod Sorted
pub mod Positions
pub mod Kept
pub mod OneStop
pub mod Bounds
pub mod Race
pub mod Laps
mod Tests
use f1_telemetry.Prelude.{
  ℕ, zero, suc, ◌+◌, Bool, true, false, List, [], ◌∷◌, length, get_or, set, if◌then◌else◌,
}
use f1_telemetry.Prelude.Int.{pos}
use f1_telemetry.Float.{Float, ◌⊕◌, ◌⊖◌, ◌⊗◌, ◌⊘◌, ◌≺◌, max_float}
use f1_telemetry.Common.Types.{DriverState, TrackProfile, default_state}
use f1_telemetry.Simulation.TelemetryGenerator.{TelemetryGenerator, advance_all}

-- `std::iota` from `i` on
abbrev pub iota : ℕ → ℕ → List ℕ
iota i zero = []
iota i (suc n) = i ∷ iota (i + 1) n

-- `std::stable_sort`: equals keep their order.
unfoldable pub insert_stable : {A : Type 0} → (A → A → Bool) → A → List A → List A
insert_stable less x [] = x ∷ []
insert_stable less x (y ∷ ys) =
    let deeper = y ∷ insert_stable less x ys in if less y x then deeper else x ∷ y ∷ ys

unfoldable pub stable_sort : {A : Type 0} → (A → A → Bool) → List A → List A
stable_sort less [] = []
stable_sort less (x ∷ xs) = insert_stable less x (stable_sort less xs)

module _ {F : Type 0} ⦃f : Float F⦄ where
  open f use {decimal, of_int}

  -- `states_[i]`; every index that the code uses is in range.
  abbrev pub driver_at : List (DriverState F) → ℕ → DriverState F
  driver_at states i = get_or states i (default_state 0)

  unfoldable pub race_distance : TrackProfile F → DriverState F → F
  race_distance track s = of_int (pos s.latest_frame.lap) ⊗ track.length_km ⊕ s.distance_in_lap

  -- The comparison of the sort: `da > db`.
  abbrev pub ahead : TrackProfile F → List (DriverState F) → ℕ → ℕ → Bool
  ahead track states a b =
      race_distance track (driver_at states b) ≺ race_distance track (driver_at states a)

  -- The gap of a driver who does not lead.
  unfoldable pub gap_of : TrackProfile F → DriverState F → DriverState F → F
  gap_of track leader s =
      let gap_km = race_distance track leader ⊖ race_distance track s in
      let avg_spd = (leader.latest_frame.speed_kph ⊕ s.latest_frame.speed_kph) ⊘ decimal 20 1 in
      gap_km ⊘ max_float avg_spd (decimal 10 1) ⊗ decimal 36000 1

  abbrev pub gap_at : TrackProfile F → ℕ → DriverState F → DriverState F → F
  gap_at track zero leader s = decimal 0 1
  gap_at track (suc p) leader s = gap_of track leader s

  -- The body of the loop that assigns positions, for the driver at place `p` of the order.
  abbrev pub placed : TrackProfile F → ℕ → DriverState F → DriverState F → DriverState F
  placed track p leader s = record s {
    position = p + 1;
    latest_frame = record s.latest_frame { gap_to_leader = gap_at track p leader s };
  }

  -- That loop, from place `p` on, over the rest of the order; `first` is `idx[0]`.
  unfoldable pub assign_from :
      TrackProfile F → ℕ → ℕ → List ℕ → List (DriverState F) → List (DriverState F)
  assign_from track first p [] states = states
  assign_from track first p (i ∷ idx) states =
      assign_from track first (p + 1) idx
        (set states i (placed track p (driver_at states first) (driver_at states i)))

  abbrev pub with_drs : DriverState F → Bool → DriverState F
  with_drs s drs = record s { latest_frame = record s.latest_frame { drs_active = drs } }

  -- The loop of the DRS, where `ahead_of` is `idx[p - 1]`.
  unfoldable pub drs_from : ℕ → List ℕ → List (DriverState F) → List (DriverState F)
  drs_from ahead_of [] states = states
  drs_from ahead_of (i ∷ idx) states =
      let gap =
        (driver_at states i).latest_frame.gap_to_leader
        ⊖ (driver_at states ahead_of).latest_frame.gap_to_leader in
      drs_from i idx (set states i (with_drs (driver_at states i) (gap ≺ decimal 10 1)))

  unfoldable pub order_of : TrackProfile F → List (DriverState F) → List ℕ
  order_of track states = stable_sort (ahead track states) (iota 0 (length states))

  -- From the order on. There is always a leader, since there are drivers.
  unfoldable pub place_all : TrackProfile F → List ℕ → List (DriverState F) → List (DriverState F)
  place_all track [] states = states
  place_all track (first ∷ idx) states =
      let assigned = assign_from track first 0 (first ∷ idx) states in
      drs_from first idx (set assigned first (with_drs (driver_at assigned first) false))

  unfoldable pub update_positions_and_drs :
      TrackProfile F → List (DriverState F) → List (DriverState F)
  update_positions_and_drs track states = place_all track (order_of track states) states

  module _ {G : Type 0} (sample : G → F × G) where
    -- `tick`; what `on_tick_` receives is the `states` of the result.
    unfoldable pub tick : TelemetryGenerator F G → (ℕ → ℕ) → TelemetryGenerator F G
    tick g clock =
        let moved = advance_all sample (record g { states = [] }) g.states clock in
        record moved { states = update_positions_and_drs g.track moved.states }

    -- `run`, one clock for each turn of the loop before the stop is requested.
    unfoldable pub run : TelemetryGenerator F G → List (ℕ → ℕ) → TelemetryGenerator F G
    run g [] = g
    run g (clock ∷ clocks) =
        let after = run (tick g clock) clocks in if g.race_finished then g else after
