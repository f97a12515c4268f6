-- ===== src/Main/Whole/Frames.antt =====
-- The telemetry frames of a race of src/main.cpp, from the generator over the ring to the fastest lap.
use mathlib.Core.List.{append_assoc, append-nil}
use f1_telemetry.Prelude.{
  ℕ, ◌≡◌, inl, inr, refl, sym, ap, subst, ◌∙◌, Bool, List, [], ◌∷◌, ◌++◌, arith, length,
}
use f1_telemetry.Prelude.Result.{returned}
use f1_telemetry.Float.{Float, IsOrdered}
use f1_telemetry.Common.Types.{TelemetryFrame, DriverState, TrackProfile, default_frame}
use f1_telemetry.Common.RaceState.{RaceState, new_race, start_race, end_race, set_lap, run_claims}
use f1_telemetry.Concurrency.Fifo
use f1_telemetry.Concurrency.Spsc.{fresh}
use f1_telemetry.Concurrency.Spsc.Refine.{Holds, pop_refines, fresh-Holds}
use f1_telemetry.Simulation.LapTimeConsumer.{capacity_log, poll_once}
use f1_telemetry.Simulation.LapTimeConsumer.Claimed.{claims_of, push_one}
use f1_telemetry.Simulation.TelemetryGenerator.{
  TelemetryGenerator, new_generator, advance, advance_all,
}
use f1_telemetry.Main.{Program, publish}
use f1_telemetry.Main.Whole.{System, Step, Reach, start, admitted_by, polled}
use f1_telemetry.Main.Whole.Fastest.{
  SameLap, claim_frame-SameLap, claim_next, FastestOf, FastestOf-claims, FastestOf-same,
}

module _ {F G R : Type 0} ⦃f : Float F⦄ (sample : G → F × G) (draw : R → F × R) where
  advance_all-Holds :
      (rest : List (DriverState F)) (g : TelemetryGenerator F G) (clock : ℕ → ℕ)
      (ring : List (TelemetryFrame F))
      → Holds capacity_log g.queue ring
      → Holds capacity_log
          (advance_all sample g rest clock).queue
          (ring ++ admitted_by sample draw g rest clock)
  unfolding advance_all admitted_by
  advance_all-Holds [] g clock ring h = subst (Holds capacity_log g.queue) (sym (append-nil ring)) h
  advance_all-Holds (s ∷ rest) g clock ring h =
      let moved = advance sample g.track s (clock (length rest)) g.rng g.race_lap g.race_finished in
      let frame = moved.0.latest_frame in
      elim (push_one ring frame h) [
        | inl (done, held) ↦ rw done (
            subst (Holds capacity_log _) (append_assoc ring (frame ∷ []) _)
              (advance_all-Holds rest _ clock (ring ++ frame ∷ []) held))
        | inr (done, held) ↦ rw done (advance_all-Holds rest _ clock ring held)
      ]

  -- The frames that got into the ring were taken or are there, and those taken have been claimed.
  pub record Frames (s : System F G R) : Type 0 where
    pub ring : List (TelemetryFrame F)
    pub held : Holds capacity_log s.generator.queue ring
    pub in_order : s.taken ++ ring ≡ s.admitted
    pub claimed : SameLap s.program.race_state (run_claims new_race (claims_of s.taken))

  publish-SameLap :
      (q : Program F) (tid : ℕ) (states : List (DriverState F)) (lap : ℕ) (checks weather : Bool)
      (p : Program F)
      → publish q tid states lap checks weather ≡ returned p
      → SameLap p.race_state q.race_state
  unfolding publish set_lap
  publish-SameLap q tid states lap checks weather p e = ground (arith, e)

  Step-Frames : (tid : ℕ) {s t : System F G R} → Step sample draw tid s t → Frames s → Frames t
  Step-Frames tid {s} (Step.starts e more) h = record {
    ring = h.ring;
    held = h.held;
    in_order = h.in_order;
    claimed = h.claimed;
  }
  Step-Frames tid {s} (Step.advances state left now e rest) h =
      let added = admitted_by sample draw s.generator (state ∷ []) (λ n. now) in
      record {
        ring = h.ring ++ added;
        held = advance_all-Holds (state ∷ []) s.generator (λ n. now) h.ring h.held;
        in_order = sym (append_assoc s.taken h.ring added) ∙ ap (λ l. l ++ added) h.in_order;
        claimed = h.claimed;
      }
  Step-Frames tid {s} (Step.ranks e none_left) h = record {
    ring = h.ring;
    held = h.held;
    in_order = h.in_order;
    claimed = h.claimed;
  }
  Step-Frames tid {s} (Step.publishes p e there) h =
      let (ms, holder) =
        publish-SameLap s.program tid s.generator.states s.generator.race_lap _ _ p there in
      record {
        ring = h.ring;
        held = h.held;
        in_order = h.in_order;
        claimed = (ms ∙ h.claimed.0, holder ∙ h.claimed.1);
      }
  Step-Frames tid (Step.pops batch e events at_draining queued) h = record {
    ring = h.ring;
    held = h.held;
    in_order = h.in_order;
    claimed = h.claimed;
  }
  Step-Frames tid (Step.drained batch e) h = record {
    ring = h.ring;
    held = h.held;
    in_order = h.in_order;
    claimed = h.claimed;
  }
  Step-Frames tid (Step.handles e batch now here) h = record {
    ring = h.ring;
    held = h.held;
    in_order = h.in_order;
    claimed = h.claimed;
  }
  Step-Frames tid (Step.returns e) h = record {
    ring = h.ring;
    held = h.held;
    in_order = h.in_order;
    claimed = h.claimed;
  }
  Step-Frames tid (Step.checks driver left lap now e) h = record {
    ring = h.ring;
    held = h.held;
    in_order = h.in_order;
    claimed = h.claimed;
  }
  Step-Frames tid (Step.checks_end lap e) h = record {
    ring = h.ring;
    held = h.held;
    in_order = h.in_order;
    claimed = h.claimed;
  }
  Step-Frames tid (Step.updates lap now e) h = record {
    ring = h.ring;
    held = h.held;
    in_order = h.in_order;
    claimed = h.claimed;
  }

  polled-ring :
      (s : System F G R) (ring : List (TelemetryFrame F))
      → Holds capacity_log s.generator.queue ring
      → s.taken ++ ring ≡ s.admitted
      → SameLap s.program.race_state (run_claims new_race (claims_of s.taken))
      → Frames (polled s)
  unfolding poll_once Fifo.poll
  polled-ring s [] held order same =
      let (done, out, rest) = pop_refines capacity_log (omega arith) [] held in
      record {
        ring = [];
        held = rest;
        in_order = rw done (ap (λ l. l ++ []) (append-nil s.taken) ∙ order);
        claimed = rw done (rw (append-nil s.taken) same);
      }
  polled-ring s (x ∷ ring) held order same =
      let (done, out, rest) = pop_refines capacity_log (omega arith) (x ∷ ring) held in
      record {
        ring = ring;
        held = rest;
        in_order = rw done (rw out (append_assoc s.taken (x ∷ []) ring ∙ order));
        claimed =
            rw done (rw out (rw (claim_next new_race s.taken x) (claim_frame-SameLap _ _ x same)));
      }

  end_race-SameLap : (race : RaceState F) → SameLap (end_race race) race
  unfolding end_race
  end_race-SameLap race = (refl, refl)

  pub Reach-Frames :
      (tid : ℕ) {s₀ t : System F G R} → Frames s₀ → Reach sample draw tid s₀ t → Frames t
  Reach-Frames tid h Reach.begin = h
  Reach-Frames tid h (Reach.next r step) = Step-Frames tid step (Reach-Frames tid h r)
  Reach-Frames tid h (Reach.polls {s} r) =
      let k = Reach-Frames tid h r in polled-ring s k.ring k.held k.in_order k.claimed
  Reach-Frames tid h (Reach.ends {s} r) =
      let k = Reach-Frames tid h r in
      let (ms, holder) = end_race-SameLap s.program.race_state in
      record {
        ring = k.ring;
        held = k.held;
        in_order = k.in_order;
        claimed = (ms ∙ k.claimed.0, holder ∙ k.claimed.1);
      }

  module _ (track : TrackProfile F) (seed : G) (clock : ℕ → ℕ) (limits_seed weather_seed : R) where
    pub start-Frames : Frames (
        start sample draw
          (fresh capacity_log default_frame)
          track
          seed
          clock
          limits_seed
          weather_seed)
    unfolding start new_generator start_race claims_of run_claims
    start-Frames = record {
      ring = [];
      held = fresh-Holds capacity_log default_frame;
      in_order = refl;
      claimed = (refl, refl);
    }

    -- In whatever order the threads take their steps: the frames that the consumer has taken, then those
    -- that the ring holds are all that got into the ring, in the order of the pushes. Under the laws of
    -- the order of `float`, the fastest lap of the race state is that of one of the frames taken that
    -- have a lap time and a driver of the roster, with that driver, and no lap of any of them is
    -- faster; or none of them is faster than the largest `float`, and nobody holds it.
    pub fastest_live :
        (laws : IsOrdered F) (tid : ℕ) (s : System F G R)
        → Reach sample draw tid
            (start sample draw
              (fresh capacity_log default_frame)
              track
              seed
              clock
              limits_seed
              weather_seed)
            s
        → (ring : List (TelemetryFrame F)) × Holds capacity_log s.generator.queue ring
          × (s.taken ++ ring ≡ s.admitted)
          × FastestOf (claims_of s.taken) s.program.race_state
    fastest_live laws tid s r =
        let h = Reach-Frames tid start-Frames r in
        (
          h.ring,
          h.held,
          h.in_order,
          FastestOf-same (claims_of s.taken) s.program.race_state
              (run_claims new_race (claims_of s.taken)) h.claimed
              (FastestOf-claims laws (claims_of s.taken)),
        )
