-- ===== src/Simulation/TelemetryGenerator/Standings/OneStop.antt =====
-- The pit stops of src/simulation/telemetry_generator.cpp.
use f1_telemetry.Prelude.{
  ℕ, zero, suc, ◌≤◌, ◌≡◌, ◌⊎◌, inl, inr, refl, Bool, true, false, arith, All, Bool-cases,
  if◌then◌else◌,
}
use f1_telemetry.Prelude.Int.{pos, ◌-ℤ◌}
use f1_telemetry.Float.{Float}
use f1_telemetry.Common.Types.{DriverState, TrackProfile}
use f1_telemetry.Simulation.TelemetryGenerator.{
  TelemetryGenerator, drive, record_lap, should_pit, enter_pit, complete_lap, handle_pit, advance,
}
use f1_telemetry.Simulation.TelemetryGenerator.Standings.{tick}
use f1_telemetry.Simulation.TelemetryGenerator.Standings.Kept.{All-tick}

module _ {F : Type 0} where
  -- The driver has not been to the pits, or is there with 1 to 11 ticks to go, or has been there.
  abbrev pub Stop : DriverState F → Type 0
  Stop s =
      (s.has_completed_pit ≡ false) × (s.in_pit ≡ false) × (s.pit_stops ≡ 0)
      ⊎ (s.has_completed_pit ≡ true) × (s.in_pit ≡ false) × (s.pit_stops ≡ 1)
      ⊎ (s.has_completed_pit ≡ true)
        × (s.in_pit ≡ true)
        × (s.pit_stops ≡ 0)
        × (t : ℕ) × (s.pit_timer_ticks ≡ pos (suc t))
        × (t ≤ 10)

  -- And the driver's frame says the same of the pits.
  abbrev pub OneStop : DriverState F → Type 0
  OneStop s = (s.latest_frame.in_pit ≡ s.in_pit) × Stop s

module _ {F : Type 0} ⦃f : Float F⦄ where
  -- A tick in the pits with `t` more to go.
  handle_pit_last :
      (s : DriverState F)
      → s.has_completed_pit ≡ true
      → s.pit_stops ≡ 0
      → s.pit_timer_ticks ≡ pos 1
      → OneStop (handle_pit s)
  unfolding handle_pit ◌-ℤ◌
  handle_pit_last s been none_yet timer = ground (arith, been, none_yet, timer)

  handle_pit_more :
      (s : DriverState F) (t : ℕ)
      → s.has_completed_pit ≡ true
      → s.in_pit ≡ true
      → s.pit_stops ≡ 0
      → s.pit_timer_ticks ≡ pos (suc (suc t))
      → t ≤ 9
      → OneStop (handle_pit s)
  unfolding handle_pit ◌-ℤ◌
  handle_pit_more s t been inside none_yet timer few = (
    ground (arith, timer),
    inr (
        inr (
          ground (arith, timer, been),
          ground (arith, timer, inside),
          ground (arith, timer, none_yet),
          t,
          ground (arith, timer),
          omega (arith, few),
        )),
  )

  handle_pit-OneStop : (s : DriverState F) → s.in_pit ≡ true → OneStop s → OneStop (handle_pit s)
  handle_pit-OneStop s inside (same, inl (b, o, n)) = absurd (ground arith)
  handle_pit-OneStop s inside (same, inr (inl (b, o, n))) = absurd (ground arith)
  handle_pit-OneStop s inside (same, inr (inr (b, o, n, zero, timer, few))) =
      handle_pit_last s b n timer
  handle_pit-OneStop s inside (same, inr (inr (b, o, n, suc t, timer, few))) =
      handle_pit_more s t b inside n timer (omega (arith, few))

  enter_pit-OneStop : (s : DriverState F) → s.pit_stops ≡ 0 → OneStop (enter_pit s)
  enter_pit-OneStop s n = (refl, inr (inr (refl, refl, n, 10, refl, omega arith)))

  should_pit_first : (s : DriverState F) → should_pit s ≡ true → s.has_completed_pit ≡ false
  unfolding should_pit
  should_pit_first s h = ground (arith, h)

  none_before : (s : DriverState F) → OneStop s → s.has_completed_pit ≡ false → s.pit_stops ≡ 0
  none_before s (same, inl (b, o, n)) h = n
  none_before s (same, inr (inl (b, o, n))) h = absurd (ground arith)
  none_before s (same, inr (inr (b, o, n, t, timer, few))) h = absurd (ground arith)

  complete_lap-OneStop :
      (track : TrackProfile F) (s : DriverState F) (now lap : ℕ) (over : Bool)
      → s.in_pit ≡ false
      → OneStop s
      → OneStop (complete_lap track s now lap over).0
  unfolding complete_lap record_lap
  complete_lap-OneStop track s now lap over outside stop =
      by_choice (should_pit (record_lap track s now)) refl
    where
      by_choice :
          (b : Bool)
          → should_pit (record_lap track s now) ≡ b
          → OneStop (if b then enter_pit (record_lap track s now) else record_lap track s now)
      by_choice true h =
          enter_pit-OneStop (record_lap track s now)
            (none_before s stop (should_pit_first (record_lap track s now) h))
      by_choice false h = stop

  module _ {G : Type 0} (sample : G → F × G) where
    advance-OneStop :
        (track : TrackProfile F) (s : DriverState F) (now : ℕ) (rng : G) (lap : ℕ) (over : Bool)
        → OneStop s
        → OneStop (advance sample track s now rng lap over).0
    unfolding advance drive
    advance-OneStop track s now rng lap over h = elim (Bool-cases s.in_pit) [
      | inl inside ↦ ground (arith, inside, handle_pit-OneStop s inside h)
      | inr outside ↦ ground (
        arith,
        outside,
        h,
        complete_lap-OneStop track (drive track s (sample rng).0) now lap over outside h,
      )
    ]

    pub tick-OneStop :
        (g : TelemetryGenerator F G) (clock : ℕ → ℕ)
        → All OneStop g.states
        → All OneStop (tick sample g clock).states
    tick-OneStop g clock all =
        All-tick OneStop OneStop sample g clock advance-OneStop
          ((λ track p leader s h. h), (λ s drs h. h)) all
