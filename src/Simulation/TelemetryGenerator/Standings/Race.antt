-- ===== src/Simulation/TelemetryGenerator/Standings/Race.antt =====
-- A whole race of src/simulation/telemetry_generator.cpp, from the grid on.
use f1_telemetry.Prelude.{
  ℕ, suc, ◌+◌, ◌≡◌, inl, inr, refl, sym, ap, subst, ◌∙◌, Bool, true, false, List, [], ◌∷◌, arith,
  length, length-append, All, if◌then◌else◌,
}
use f1_telemetry.Float.{Float, IsOrdered}
use f1_telemetry.Common.Types.{
  DriverState, DriverProfile, TrackProfile, default_state, default_frame,
}
use f1_telemetry.Common.SeasonData.{drivers, driver_rows}
use f1_telemetry.Simulation.LapTimeConsumer.{FrameQueue}
use f1_telemetry.Simulation.TelemetryGenerator.{
  TelemetryGenerator, new_generator, grid_from, grid_state, advance_all,
}
use f1_telemetry.Simulation.TelemetryGenerator.Standings.{tick, run, update_positions_and_drs}
use f1_telemetry.Simulation.TelemetryGenerator.Standings.Positions.{Ranked, positions-Ranked}
use f1_telemetry.Simulation.TelemetryGenerator.Standings.OneStop.{OneStop, tick-OneStop}
use f1_telemetry.Simulation.TelemetryGenerator.Standings.Bounds.{
  Literals, Bounded, Outside, tick-Bounded,
}

-- What holds on both branches.
pub on_both :
    {A : Type 0}
    → (P : A → Type 0) → {a b : A} (over : Bool) → P a
    → P b
    → P (if over then a else b)
on_both P true p q = p
on_both P false p q = q

module _ {F : Type 0} ⦃f : Float F⦄ {G : Type 0} (sample : G → F × G) where
  -- What a tick makes of what it needs, and needs no more than it makes, holds after every run of one
  -- tick or more.
  run-keeps :
      (Before After : TelemetryGenerator F G → Type 0)
      → ((g : TelemetryGenerator F G) → After g → Before g)
      → ((g : TelemetryGenerator F G) (clock : ℕ → ℕ) → Before g → After (tick sample g clock))
      → (clocks : List (ℕ → ℕ)) (g : TelemetryGenerator F G) → After g
      → After (run sample g clocks)
  unfolding run
  run-keeps Before After weaken step [] g h = h
  run-keeps Before After weaken step (clock ∷ clocks) g h =
      on_both After g.race_finished h (
        run-keeps Before After weaken step clocks (tick sample g clock) (step g clock (weaken g h)))

  pub grid-keeps :
      (P : DriverState F → Type 0) (n i : ℕ) (profiles : List (DriverProfile F)) (clock : ℕ → ℕ)
      → ((j : ℕ) (profile : DriverProfile F) (now : ℕ) → P (grid_state n j profile now))
      → All P (grid_from n i profiles clock)
  unfolding grid_from
  grid-keeps P n i [] clock h = tt
  grid-keeps P n i (profile ∷ rest) clock h =
      (h i profile (clock i), grid-keeps P n (i + 1) rest clock h)

  length-grid_from :
      (n i : ℕ) (profiles : List (DriverProfile F)) (clock : ℕ → ℕ)
      → length (grid_from n i profiles clock) ≡ length profiles
  unfolding grid_from
  length-grid_from n i [] clock = refl
  length-grid_from n i (profile ∷ rest) clock = ap suc (length-grid_from n (i + 1) rest clock)

  pub length-advance_all :
      (rest : List (DriverState F)) (g : TelemetryGenerator F G) (clock : ℕ → ℕ)
      → length (advance_all sample g rest clock).states ≡ length g.states + length rest
  unfolding advance_all
  length-advance_all [] g clock = omega arith
  length-advance_all (s ∷ rest) g clock =
      omega (arith, length-advance_all rest _ clock, length-append g.states _)

  -- Twenty drivers, ranked.
  abbrev pub Field : TelemetryGenerator F G → Type 0
  Field g = (length g.states ≡ 20) × Ranked g.track g.states

  pub advance_all-track :
      (rest : List (DriverState F)) (g : TelemetryGenerator F G) (clock : ℕ → ℕ)
      → (advance_all sample g rest clock).track ≡ g.track
  unfolding advance_all
  advance_all-track [] g clock = refl
  advance_all-track (s ∷ rest) g clock = advance_all-track rest _ clock

  tick-Field :
      (laws : IsOrdered F) (g : TelemetryGenerator F G) (clock : ℕ → ℕ)
      → length g.states ≡ 20
      → Field (tick sample g clock)
  unfolding tick
  tick-Field laws g clock twenty =
      let moved = advance_all sample (record g { states = [] }) g.states clock in
      let (same, kept, far, ranked) = positions-Ranked laws g.track moved.states in
      (
        same ∙ length-advance_all g.states (record g { states = [] }) clock ∙ omega (arith, twenty),
        subst (λ t. Ranked t (update_positions_and_drs g.track moved.states))
            (sym (advance_all-track g.states (record g { states = [] }) clock)) ranked,
      )

  All-weaken :
      (laws : IsOrdered F) (lits : Literals F) (states : List (DriverState F))
      → All Bounded states
      → All (Outside laws lits sample) states
  All-weaken laws lits [] all = tt
  All-weaken laws lits (s ∷ states) (here, all) = (inr here, All-weaken laws lits states all)

  module _ (queue : FrameQueue F) (track : TrackProfile F) (seed : G) (start : ℕ → ℕ) where
    pub grid-twenty : length (new_generator {F = F} queue track seed start).states ≡ 20
    unfolding new_generator drivers driver_rows
    grid-twenty = length-grid_from _ 0 (drivers {F = F}) start

    grid-OneStop : All OneStop (new_generator {F = F} queue track seed start).states
    unfolding new_generator grid_state default_state default_frame
    grid-OneStop =
        grid-keeps OneStop _ 0 (drivers {F = F}) start
          (λ j profile now. (refl, inl (refl, refl, refl)))

    first_tick :
        (clock : ℕ → ℕ) (clocks : List (ℕ → ℕ))
        → run sample (new_generator queue track seed start) (clock ∷ clocks)
          ≡ run sample (tick sample (new_generator queue track seed start) clock) clocks
    unfolding run new_generator
    first_tick clock clocks = refl

    -- Under the laws of the order of `float`: after any number of ticks but none, from the grid on, there
    -- are twenty drivers, and their positions are 1 to 20, each of one driver, in the order of their
    -- race distances.
    pub race-Field :
        (laws : IsOrdered F) (clock : ℕ → ℕ) (clocks : List (ℕ → ℕ))
        → Field (run sample (new_generator queue track seed start) (clock ∷ clocks))
    race-Field laws clock clocks =
        let g = new_generator queue track seed start in
        subst Field (sym (first_tick clock clocks)) (
          run-keeps (λ h. length h.states ≡ 20) Field (λ h k. k.0) (λ h c. tick-Field laws h c)
            clocks (tick sample g clock) (tick-Field laws g clock grid-twenty))

    -- At any time of the race, from the grid on: a driver has stopped at the pits at most once; one who is
    -- there has from 1 to 11 ticks to go and has not been there before; one who has been there is
    -- counted with one stop; and the driver's frame says the same of being in the pits as the driver.
    pub race-OneStop :
        (clocks : List (ℕ → ℕ))
        → All OneStop (run sample (new_generator queue track seed start) clocks).states
    race-OneStop clocks =
        run-keeps (λ h. All OneStop h.states) (λ h. All OneStop h.states) (λ h k. k)
          (λ h c. tick-OneStop sample h c) clocks (new_generator queue track seed start)
          grid-OneStop

    grid-Outside :
        (laws : IsOrdered F) (lits : Literals F)
        → All (Outside laws lits sample) (new_generator {F = F} queue track seed start).states
    unfolding new_generator grid_state default_state default_frame
    grid-Outside laws lits =
        grid-keeps (Outside laws lits sample) _ 0 (drivers {F = F}) start
          (λ j profile now. inl refl)

    -- Under the laws of the order of `float` and the order of the literals, whatever the generator of
    -- normal values gives, after any number of ticks but none from the grid on: every frame's speed is
    -- 60, or not below 80 and not above 370; its throttle is not above 1; its brake is not below 0 and
    -- not above 1; its tire wear is not above 1, and its fuel is not below 0.
    pub race-Bounded :
        (laws : IsOrdered F) (lits : Literals F) (clock : ℕ → ℕ) (clocks : List (ℕ → ℕ))
        → All Bounded (run sample (new_generator queue track seed start) (clock ∷ clocks)).states
    race-Bounded laws lits clock clocks =
        let g = new_generator queue track seed start in
        subst (λ h. All Bounded h.states) (sym (first_tick clock clocks))
          (run-keeps (λ h. All (Outside laws lits sample) h.states) (λ h. All Bounded h.states)
            (λ h k. All-weaken laws lits h.states k) (λ h c. tick-Bounded laws lits sample h c)
            clocks (tick sample g clock)
            (tick-Bounded laws lits sample g clock (grid-Outside laws lits)))
