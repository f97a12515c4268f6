-- ===== src/Simulation/TelemetryGenerator/Standings/Bounds.antt =====
-- The ranges of the telemetry of src/simulation/telemetry_generator.cpp.
use f1_telemetry.Prelude.{ℕ, ◌≡◌, ◌⊎◌, inl, inr, Bool, true, false, arith, All, Bool-cases}
use f1_telemetry.Float.{Float, ◌⊖◌, ◌⊘◌, ◌≺◌, IsOrdered, min_float, max_float, clamp}
use f1_telemetry.Common.Types.{DriverState, TelemetryFrame, TrackProfile}
use f1_telemetry.Simulation.TelemetryGenerator.{
  TelemetryGenerator, speed_of, brake_at, drive, record_lap, complete_lap, handle_pit, advance,
}
use f1_telemetry.Simulation.TelemetryGenerator.Standings.{tick}
use f1_telemetry.Simulation.TelemetryGenerator.Standings.Kept.{All-tick}

-- How the `float` literals of the code that set these ranges compare.
pub record Literals (F : Type 0) ⦃f : Float F⦄ : Type 0 where
  pub slow_fast : (f.decimal 3700 1 ≺ f.decimal 800 1) ≡ false
  pub one_fresh : (f.decimal 10 1 ≺ f.decimal 2 2) ≡ false
  pub full_zero : (f.decimal 1000 1 ≺ f.decimal 0 1) ≡ false
  pub one_pit_throttle : (f.decimal 10 1 ≺ f.decimal 2 1) ≡ false
  pub pit_brake_zero : (f.decimal 1 1 ≺ f.decimal 0 1) ≡ false
  pub one_pit_brake : (f.decimal 10 1 ≺ f.decimal 1 1) ≡ false
  pub one_zero : (f.decimal 10 1 ≺ f.decimal 0 1) ≡ false

module _ {F : Type 0} ⦃f : Float F⦄ where
  -- Not below the one value, and not above the other.
  abbrev pub Between : F → F → F → Type 0
  Between lo hi v = ((v ≺ lo) ≡ false) × ((hi ≺ v) ≡ false)

  abbrev pub FrameBounded : TelemetryFrame F → Type 0
  FrameBounded frame =
      (frame.speed_kph ≡ f.decimal 600 1
        ⊎ Between (f.decimal 800 1) (f.decimal 3700 1) frame.speed_kph)
      × ((f.decimal 10 1 ≺ frame.throttle) ≡ false)
      × Between (f.decimal 0 1) (f.decimal 10 1) frame.brake
      × ((f.decimal 10 1 ≺ frame.tire_wear) ≡ false)
      × ((frame.fuel_kg ≺ f.decimal 0 1) ≡ false)

  abbrev pub Bounded : DriverState F → Type 0
  Bounded s = FrameBounded s.latest_frame

  module _ (laws : IsOrdered F) (lits : Literals F) where
    asym : (a b : F) → (a ≺ b) ≡ true → (b ≺ a) ≡ false
    asym a b h = laws.not-lt_of_le a b (laws.le_of_lt a b h)

    clamp-Between : (v lo hi : F) → (hi ≺ lo) ≡ false → Between lo hi (clamp v lo hi)
    clamp-Between v lo hi h = ground (arith, h, laws.lt_irrefl lo, laws.lt_irrefl hi)

    min-below : (a b : F) → (a ≺ min_float a b) ≡ false
    min-below a b = ground (arith, laws.lt_irrefl a, asym b a)

    max-above : (a b : F) → (max_float a b ≺ a) ≡ false
    max-above a b = ground (arith, laws.lt_irrefl a, asym a b)

    brake-Between : (speed : F) → Between (f.decimal 0 1) (f.decimal 10 1) (brake_at speed)
    brake-Between speed = ground (
      arith,
      clamp-Between ((f.decimal 1500 1 ⊖ speed) ⊘ f.decimal 1500 1) (f.decimal 0 1) (f.decimal 10 1)
          lits.one_zero,
      laws.lt_irrefl (f.decimal 0 1),
      lits.one_zero,
    )

    drive-Bounded : (track : TrackProfile F) (s : DriverState F) (z : F) → Bounded (drive track s z)
    unfolding drive speed_of
    drive-Bounded track s z = (
      inr (clamp-Between _ (f.decimal 800 1) (f.decimal 3700 1) lits.slow_fast),
      min-below (f.decimal 10 1) _,
      brake-Between _,
      min-below (f.decimal 10 1) _,
      max-above (f.decimal 0 1) _,
    )

    handle_pit-Bounded : (s : DriverState F) → Bounded s → Bounded (handle_pit s)
    unfolding handle_pit
    handle_pit-Bounded s h = ground (
      arith, h, lits.one_fresh, lits.full_zero, lits.one_pit_throttle, lits.pit_brake_zero,
      lits.one_pit_brake,
    )

    complete_lap-Bounded :
        (track : TrackProfile F) (s : DriverState F) (now lap : ℕ) (over : Bool)
        → Bounded s
        → Bounded (complete_lap track s now lap over).0
    unfolding complete_lap record_lap
    complete_lap-Bounded track s now lap over h = ground (arith, h)

    module _ {G : Type 0} (sample : G → F × G) where
      -- Of a driver outside the pits, nothing need be known before.
      abbrev pub Outside : DriverState F → Type 0
      Outside s = (s.in_pit ≡ false) ⊎ Bounded s

      outside-Bounded :
          (track : TrackProfile F) (s : DriverState F) (now : ℕ) (rng : G) (lap : ℕ) (over : Bool)
          → s.in_pit ≡ false
          → Bounded (advance sample track s now rng lap over).0
      unfolding advance
      outside-Bounded track s now rng lap over outside =
          let driven = drive track s (sample rng).0 in
          let fine = drive-Bounded track s (sample rng).0 in
          ground (arith, outside, fine, complete_lap-Bounded track driven now lap over fine)

      inside-Bounded :
          (track : TrackProfile F) (s : DriverState F) (now : ℕ) (rng : G) (lap : ℕ) (over : Bool)
          → s.in_pit ≡ true
          → Bounded s
          → Bounded (advance sample track s now rng lap over).0
      unfolding advance
      inside-Bounded track s now rng lap over inside h =
          ground (arith, inside, handle_pit-Bounded s h)

      advance-Bounded :
          (track : TrackProfile F) (s : DriverState F) (now : ℕ) (rng : G) (lap : ℕ) (over : Bool)
          → Outside s
          → Bounded (advance sample track s now rng lap over).0
      advance-Bounded track s now rng lap over (inl outside) =
          outside-Bounded track s now rng lap over outside
      advance-Bounded track s now rng lap over (inr h) = elim (Bool-cases s.in_pit) [
        | inl inside ↦ inside-Bounded track s now rng lap over inside h
        | inr outside ↦ outside-Bounded track s now rng lap over outside
      ]

      pub tick-Bounded :
          (g : TelemetryGenerator F G) (clock : ℕ → ℕ)
          → All Outside g.states
          → All Bounded (tick sample g clock).states
      tick-Bounded g clock all =
          All-tick Outside Bounded sample g clock advance-Bounded
            ((λ track p leader s h. h), (λ s drs h. h)) all
