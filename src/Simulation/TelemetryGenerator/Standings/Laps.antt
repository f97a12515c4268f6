-- ===== src/Simulation/TelemetryGenerator/Standings/Laps.antt =====
-- The laps of a race of src/simulation/telemetry_generator.cpp.
use f1_telemetry.Prelude.{
  ℕ, ◌+◌, ◌<◌, ◌≤◌, ◌≡◌, Bool, true, List, [], ◌∷◌, arith, length, All, All-append,
}
use f1_telemetry.Float.{Float}
use f1_telemetry.Common.Types.{DriverState, TrackProfile}
use f1_telemetry.Simulation.LapTimeConsumer.{FrameQueue}
use f1_telemetry.Simulation.TelemetryGenerator.{
  TelemetryGenerator, new_generator, grid_state, drive, record_lap, complete_lap, handle_pit,
  advance, advance_all, total_laps,
}
use f1_telemetry.Simulation.TelemetryGenerator.Standings.{tick, run}
use f1_telemetry.Simulation.TelemetryGenerator.Standings.Kept.{All-ranking}
use f1_telemetry.Simulation.TelemetryGenerator.Standings.Race.{grid-keeps, on_both}

module _ {F : Type 0} where
  -- A driver is on this lap or an earlier one.
  abbrev pub Within : ℕ → DriverState F → Type 0
  Within lap s = s.latest_frame.lap ≤ lap

  pub All-later :
      (a b : ℕ) (states : List (DriverState F))
      → a ≤ b
      → All (Within a) states
      → All (Within b) states
  All-later a b [] h all = tt
  All-later a b (s ∷ states) h (here, all) = (omega (arith, here, h), All-later a b states h all)

module _ {F : Type 0} ⦃f : Float F⦄ {G : Type 0} (sample : G → F × G) where
  advance-Within :
      (track : TrackProfile F) (s : DriverState F) (now : ℕ) (rng : G) (lap : ℕ) (over : Bool)
      (from : ℕ)
      → Within from s
      → from ≤ lap
      → lap ≤ from + 1
      → (over ≡ true → total_laps < lap)
      → let (next, after, later, done) = advance sample track s now rng lap over in
        Within later next × (lap ≤ later) × (later ≤ from + 1) × (done ≡ true → total_laps < later)
  unfolding advance complete_lap record_lap drive handle_pit
  advance-Within track s now rng lap over from here low high fin =
      ground (arith, here, low, high, fin)

  -- After a part of the loop of a tick that began on lap `from`.
  abbrev pub Ahead : ℕ → TelemetryGenerator F G → Type 0
  Ahead from g =
      All (Within g.race_lap) g.states
      × (from ≤ g.race_lap)
      × (g.race_lap ≤ from + 1)
      × (g.race_finished ≡ true → total_laps < g.race_lap)

  pub advance_all-Ahead :
      (rest : List (DriverState F)) (g : TelemetryGenerator F G) (clock : ℕ → ℕ) (from : ℕ)
      → All (Within from) rest
      → Ahead from g
      → Ahead from (advance_all sample g rest clock)
  unfolding advance_all
  advance_all-Ahead [] g clock from all h = h
  advance_all-Ahead (s ∷ rest) g clock from (here, all) (done, low, high, fin) =
      let (within, more, few, last) =
        advance-Within g.track s (clock (length rest)) g.rng g.race_lap g.race_finished from here
          low high fin in
      advance_all-Ahead rest _ clock from all (
        All-append (Within _) g.states _ (All-later g.race_lap _ g.states more done) (within, tt),
        omega (arith, low, more),
        few,
        last,
      )

  -- No driver is on a later lap than the race, which is on this lap at most, and past its laps once over.
  abbrev pub OnLap : ℕ → TelemetryGenerator F G → Type 0
  OnLap most g =
      All (Within g.race_lap) g.states
      × (g.race_lap ≤ most)
      × (g.race_finished ≡ true → total_laps < g.race_lap)

  pub tick-OnLap :
      (g : TelemetryGenerator F G) (clock : ℕ → ℕ) (most : ℕ)
      → OnLap most g
      → OnLap (most + 1) (tick sample g clock)
  unfolding tick
  tick-OnLap g clock most (all, few, fin) =
      let moved = advance_all sample (record g { states = [] }) g.states clock in
      let (within, low, high, last) =
        advance_all-Ahead g.states (record g { states = [] }) clock g.race_lap all
          (tt, omega arith, omega arith, fin) in
      (
        All-ranking (Within moved.race_lap) g.track moved.states
            ((λ track p leader s h. h), (λ s drs h. h)) within,
        omega (arith, high, few),
        last,
      )

  run-OnLap :
      (clocks : List (ℕ → ℕ)) (g : TelemetryGenerator F G) (most : ℕ)
      → OnLap most g
      → OnLap (most + length clocks) (run sample g clocks)
  unfolding run
  run-OnLap [] g most (all, few, fin) = (all, omega (arith, few), fin)
  run-OnLap (clock ∷ clocks) g most (all, few, fin) =
      on_both (OnLap _) g.race_finished (all, omega (arith, few), fin)
        (let (within, short, last) =
            run-OnLap clocks (tick sample g clock) (most + 1)
              (tick-OnLap g clock most (all, few, fin)) in
          (within, omega (arith, short), last))

  -- After any number of ticks from the grid on: no driver is on a later lap than `race_lap`; `race_lap` is
  -- the number of ticks and one at most; and once `race_finished` is set, `race_lap` is greater than 50,
  -- the laps of the race, so it took at least 50 ticks.
  pub race_laps :
      (queue : FrameQueue F) (track : TrackProfile F) (seed : G) (start : ℕ → ℕ)
      (clocks : List (ℕ → ℕ))
      → let g = run sample (new_generator queue track seed start) clocks in
        All (Within g.race_lap) g.states
        × (g.race_lap ≤ 1 + length clocks)
        × (g.race_finished ≡ true → total_laps < g.race_lap)
  unfolding new_generator grid_state
  race_laps queue track seed start clocks =
      run-OnLap clocks (new_generator queue track seed start) 1 (
        grid-keeps sample (Within 1) _ 0 _ start (λ j profile now. omega arith),
        omega arith,
        λ e. cc,
      )
