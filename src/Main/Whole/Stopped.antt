-- ===== src/Main/Whole/Stopped.antt =====
-- The end of a race of src/main.cpp: the stop of the lap time consumer.
use f1_telemetry.Prelude.{ℕ, ◌≡◌, some, refl, sym, ap, subst, ◌∙◌, List, [], ◌++◌}
use f1_telemetry.Prelude.Int.{ℤ}
use f1_telemetry.Float.{Float, IsOrdered}
use f1_telemetry.Common.Types.{TelemetryFrame, TrackProfile, default_frame}
use f1_telemetry.Common.RaceState.{RaceState, new_race, run_claims}
use f1_telemetry.Concurrency.Spsc.{fresh}
use f1_telemetry.Concurrency.Spsc.Refine.{Holds, length-room}
use f1_telemetry.Simulation.LapTimeConsumer.{capacity_log}
use f1_telemetry.Simulation.LapTimeConsumer.Claimed.{claims_of, claims_of-append, drain_claims}
use f1_telemetry.Main.Whole.{System, Reach, start, consumer_stopped}
use f1_telemetry.Main.Whole.Frames.{Reach-Frames, start-Frames}
use f1_telemetry.Main.Whole.Fastest.{
  SameLap, run_claims-append, run_claims-SameLap, FastestOf, FastestOf-claims, FastestOf-same,
}

module _ {F : Type 0} ⦃f : Float F⦄ where
  -- The claims of the frames in the ring come after those made.
  all_claimed :
      (laws : IsOrdered F) (race : RaceState F) (made : List (ℤ × F))
      (ring : List (TelemetryFrame F))
      → SameLap race (run_claims new_race made)
      → FastestOf (made ++ claims_of ring) (run_claims race (claims_of ring))
  all_claimed laws race made ring same =
      let all = made ++ claims_of ring in
      FastestOf-same all (run_claims race (claims_of ring)) (run_claims new_race all)
        (rw (run_claims-append made (claims_of ring) new_race)
          (run_claims-SameLap ring race (run_claims new_race made) same))
        (FastestOf-claims laws all)

module _ {F G R : Type 0} ⦃f : Float F⦄ (sample : G → F × G) (draw : R → F × R)
    (track : TrackProfile F) (seed : G) (clock : ℕ → ℕ) (limits_seed weather_seed : R) where
  -- In whatever order the threads have taken their steps: `lap_consumer.stop()` ends, with fuel for
  -- 2048 rounds of the consumer's second loop, and leaves the ring empty. Under the laws of the order of
  -- `float`, the fastest lap of the race state, which the main thread then prints, is that of one of all
  -- the frames that got into the ring that have a lap time and a driver of the roster, with that driver,
  -- and no lap of any of them is faster; or none of them is faster than the largest `float`, and nobody
  -- holds it.
  pub fastest_final :
      (laws : IsOrdered F) (tid : ℕ) (s : System F G R)
      → Reach sample draw tid
          (start sample draw
            (fresh capacity_log default_frame)
            track
            seed
            clock
            limits_seed
            weather_seed)
          s
      → (last : System F G R) × (consumer_stopped 2048 s ≡ some last)
        × Holds capacity_log last.generator.queue []
        × FastestOf (claims_of s.admitted) last.program.race_state
  fastest_final laws tid s r =
      let h =
        Reach-Frames sample draw tid
          (start-Frames sample draw track seed clock limits_seed weather_seed) r in
      let (queue, empty, e) =
        drain_claims 2048 s.program.race_state h.ring (length-room capacity_log h.held) h.held in
      (
        record s {
          generator = record (s.generator) { queue = queue };
          program = record (s.program) {
            race_state = run_claims s.program.race_state (claims_of h.ring);
          };
        },
        rw (e, consumer_stopped) refl,
        empty,
        subst (λ claims. FastestOf claims (run_claims s.program.race_state (claims_of h.ring)))
            (sym (claims_of-append s.taken h.ring) ∙ ap (λ l. claims_of l) h.in_order)
            (all_claimed laws s.program.race_state (claims_of s.taken) h.ring h.claimed),
      )
