-- ===== src/Common/RaceState.antt =====
-- src/common/race_state.h: the flags that threads share, and the claim of the fastest lap. Here the
-- calls run one at a time; `Race` interleaves claims.
pub mod Claims
pub mod Race
mod Tests
use f1_telemetry.Prelude.{ℕ, zero, suc, Bool, true, false, List, [], ◌∷◌, if◌then◌else◌}
use f1_telemetry.Prelude.Int.{ℤ, negsuc}
use f1_telemetry.Float.{Float, ◌≺◌}

pub record RaceState (F : Type 0) : Type 0 where
  pub race_active : Bool
  pub current_lap : ℕ
  pub safety_car : Bool
  pub fastest_lap_holder : ℤ
  pub fastest_lap_ms : F

module _ {F : Type 0} where
  unfoldable pub start_race : RaceState F → RaceState F
  start_race s = record s { race_active = true }

  unfoldable pub end_race : RaceState F → RaceState F
  end_race s = record s { race_active = false }

  unfoldable pub is_active : RaceState F → Bool
  is_active s = s.race_active

  unfoldable pub set_lap : RaceState F → ℕ → RaceState F
  set_lap s lap = record s { current_lap = lap }

  unfoldable pub get_lap : RaceState F → ℕ
  get_lap s = s.current_lap

  unfoldable pub deploy_safety_car : RaceState F → RaceState F
  deploy_safety_car s = record s { safety_car = true }

  unfoldable pub retract_safety_car : RaceState F → RaceState F
  retract_safety_car s = record s { safety_car = false }

  unfoldable pub is_safety_car : RaceState F → Bool
  is_safety_car s = s.safety_car

  unfoldable pub get_fastest_lap_holder : RaceState F → ℤ
  get_fastest_lap_holder s = s.fastest_lap_holder

  unfoldable pub get_fastest_lap_ms : RaceState F → F
  get_fastest_lap_ms s = s.fastest_lap_ms

module _ {F : Type 0} ⦃f : Float F⦄ where
  -- The member initialisers; -1 stands for no driver.
  unfoldable pub new_race : RaceState F
  new_race = record {
    race_active = false;
    current_lap = 1;
    safety_car = false;
    fastest_lap_holder = negsuc 0;
    fastest_lap_ms = f.max_value;
  }

  -- The loop of `try_claim_fastest_lap`. With no other thread at work a weak exchange fails only
  -- spuriously; the first argument counts how often it does so before it succeeds.
  claim_loop : ℕ → RaceState F → ℤ → F → F → Bool × RaceState F
  claim_loop zero s driver lap best =
      if lap ≺ best
      then (true, record s { fastest_lap_ms = lap; fastest_lap_holder = driver })
      else (false, s)
  claim_loop (suc failures) s driver lap best =
      let again = claim_loop failures s driver lap s.fastest_lap_ms in
      if lap ≺ best then again else (false, s)

  unfoldable pub try_claim_fastest_lap : ℕ → RaceState F → ℤ → F → Bool × RaceState F
  unfolding claim_loop
  try_claim_fastest_lap failures s driver lap = claim_loop failures s driver lap s.fastest_lap_ms

  -- Claims one after the other, each a driver's index and a lap time.
  unfoldable pub run_claims : RaceState F → List (ℤ × F) → RaceState F
  run_claims s [] = s
  run_claims s ((driver, lap) ∷ claims) = run_claims (try_claim_fastest_lap 0 s driver lap).1 claims
