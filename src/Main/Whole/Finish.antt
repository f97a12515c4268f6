-- ===== src/Main/Whole/Finish.antt =====
-- The lap that src/main.cpp reports at the end of a race.
use f1_telemetry.Prelude.{
  subst, sym, ap, ◌∙◌, All, ◌∷◌, [], ℕ, ◌<◌, ◌≡◌, ◌⊎◌, inl, inr, refl, Bool, true, false, arith,
  Option, some, none, if◌then◌else◌,
}
use f1_telemetry.Prelude.Result.{returned}
use f1_telemetry.Prelude.Int.{ℤ, pos, negsuc}
use f1_telemetry.Float.{Float}
use f1_telemetry.Common.Text.{c_str}
use f1_telemetry.Common.Types.{TelemetryFrame, TrackProfile}
use f1_telemetry.Common.SeasonData.{driver_index_of}
use f1_telemetry.Common.RaceState.{RaceState, set_lap, end_race}
use f1_telemetry.Common.RaceState.Claims.{claim_exact}
use f1_telemetry.Concurrency.Spsc.{pop}
use f1_telemetry.Simulation.LapTimeConsumer.{
  capacity_log, claim_index, claim_frame, claim_out, poll_once, FrameQueue,
}
use f1_telemetry.Simulation.TelemetryGenerator.{new_generator, total_laps}
use f1_telemetry.Simulation.TelemetryGenerator.Standings.{run}
use mathlib.Core.Bool.{false≢true}
use f1_telemetry.Simulation.TelemetryGenerator.Standings.Kept.{All-ranking}
use f1_telemetry.Simulation.TelemetryGenerator.Standings.Laps.{
  Within, All-later, advance_all-Ahead, race_laps,
}
use f1_telemetry.Main.{Program, publish}
use f1_telemetry.Main.Whole.{System, CallbackAt, Step, Reach, start}

-- A tick is under way or not yet published.
abbrev pub unpublished : CallbackAt → Bool
unpublished CallbackAt.between = false
unpublished CallbackAt.ticking = true
unpublished CallbackAt.ticked = true
unpublished (CallbackAt.draining batch) = false
unpublished (CallbackAt.processing batch) = false

module _ {F : Type 0} ⦃f : Float F⦄ where
  end_race-lap : (race : RaceState F) → (end_race race).current_lap ≡ race.current_lap
  unfolding end_race
  end_race-lap race = refl

  claim_index-lap :
      (race : RaceState F) (z : ℤ) (lap : F)
      → (claim_index race z lap).current_lap ≡ race.current_lap
  claim_index-lap race (pos i) lap = ground (arith, claim_exact 0 race (pos i) lap)
  claim_index-lap race (negsuc n) lap = refl

  claim_frame-lap :
      (race : RaceState F) (frame : TelemetryFrame F)
      → (claim_frame race frame).current_lap ≡ race.current_lap
  unfolding claim_frame
  claim_frame-lap race frame =
      ground
        (arith, claim_index-lap race (driver_index_of (c_str frame.driver_id)) frame.lap_time_ms)

  claim_out-lap :
      (popped : Bool) (out : Option (TelemetryFrame F)) (race : RaceState F)
      → (if popped then claim_out race out else race).current_lap ≡ race.current_lap
  claim_out-lap false out race = refl
  claim_out-lap true none race = refl
  claim_out-lap true (some frame) race = claim_frame-lap race frame

  poll_once-lap :
      (q : FrameQueue F) (race : RaceState F) → (poll_once q race).1.current_lap ≡ race.current_lap
  unfolding poll_once
  poll_once-lap q race = claim_out-lap (pop capacity_log q).0 (pop capacity_log q).1 race

module _ {F G R : Type 0} ⦃f : Float F⦄ (sample : G → F × G) (draw : R → F × R) where
  publish-lap :
      (q : Program F) (tid : ℕ) (s : System F G R) (checks weather : Bool) (p : Program F)
      → publish q tid s.generator.states s.generator.race_lap checks weather ≡ returned p
      → p.race_state.current_lap ≡ s.generator.race_lap
  unfolding publish set_lap
  publish-lap q tid s checks weather p e = ground (arith, e)

  -- A tick is still to be published, or the race is not over, or its lap is the one of `race_state`.
  abbrev Reported : System F G R → Type 0
  Reported s =
      (unpublished s.callback ≡ true)
      ⊎ (s.generator.race_finished ≡ false)
      ⊎ (s.program.race_state.current_lap ≡ s.generator.race_lap)

  record Finish (s : System F G R) : Type 0 where
    pub within : All (Within s.generator.race_lap) s.generator.states
    pub within_left : All (Within s.generator.race_lap) s.left
    pub late : s.generator.race_finished ≡ true → total_laps < s.generator.race_lap
    pub reported : Reported s

  leaves :
      (s : System F G R) {c : CallbackAt}
      → s.callback ≡ c
      → unpublished c ≡ false
      → Reported s
      → (s.generator.race_finished ≡ false)
        ⊎ (s.program.race_state.current_lap ≡ s.generator.race_lap)
  leaves s e other (inl here) = absurd (false≢true (sym other ∙ ap unpublished (sym e) ∙ here))
  leaves s e other (inr h) = h

  Step-Finish : (tid : ℕ) {s t : System F G R} → Step sample draw tid s t → Finish s → Finish t
  Step-Finish tid {s} (Step.starts e more) h = record {
    within = tt;
    within_left = h.within;
    late = h.late;
    reported = inl refl;
  }
  Step-Finish tid {s} (Step.advances state left now e rest) h =
      let lap = s.generator.race_lap in
      let (here, others) = subst (All (Within lap)) rest h.within_left in
      let (done, low, high, last) =
        advance_all-Ahead sample (state ∷ []) s.generator (λ n. now) lap (here, tt)
          (h.within, omega arith, omega arith, h.late) in
      record {
        within = done;
        within_left = All-later lap _ left low others;
        late = last;
        reported = inl (ap unpublished e);
      }
  Step-Finish tid {s} (Step.ranks e none_left) h = record {
    within =
        All-ranking (Within s.generator.race_lap) s.generator.track s.generator.states
          ((λ track p leader s h. h), (λ s drs h. h)) h.within;
    within_left = h.within_left;
    late = h.late;
    reported = inl refl;
  }
  Step-Finish tid {s} (Step.publishes p e there) h = record {
    within = h.within;
    within_left = h.within_left;
    late = h.late;
    reported = inr (inr (publish-lap s.program tid s _ _ p there));
  }
  Step-Finish tid {s} (Step.pops batch e events at_draining queued) h = record {
    within = h.within;
    within_left = h.within_left;
    late = h.late;
    reported = inr (leaves s at_draining refl h.reported);
  }
  Step-Finish tid {s} (Step.drained batch e) h = record {
    within = h.within;
    within_left = h.within_left;
    late = h.late;
    reported = inr (leaves s e refl h.reported);
  }
  Step-Finish tid {s} (Step.handles e batch now here) h = record {
    within = h.within;
    within_left = h.within_left;
    late = h.late;
    reported = inr (leaves s here refl h.reported);
  }
  Step-Finish tid {s} (Step.returns e) h = record {
    within = h.within;
    within_left = h.within_left;
    late = h.late;
    reported = inr (leaves s e refl h.reported);
  }
  Step-Finish tid {s} (Step.checks driver left lap now e) h = record {
    within = h.within;
    within_left = h.within_left;
    late = h.late;
    reported = h.reported;
  }
  Step-Finish tid {s} (Step.checks_end lap e) h = record {
    within = h.within;
    within_left = h.within_left;
    late = h.late;
    reported = h.reported;
  }
  Step-Finish tid {s} (Step.updates lap now e) h = record {
    within = h.within;
    within_left = h.within_left;
    late = h.late;
    reported = h.reported;
  }

  Reach-Finish : (tid : ℕ) {s₀ t : System F G R} → Finish s₀ → Reach sample draw tid s₀ t → Finish t
  Reach-Finish tid h Reach.begin = h
  Reach-Finish tid h (Reach.next r step) = Step-Finish tid step (Reach-Finish tid h r)
  Reach-Finish tid h (Reach.polls {s} r) =
      let k = Reach-Finish tid h r in
      record {
        within = k.within;
        within_left = k.within_left;
        late = k.late;
        reported = rw (poll_once-lap s.generator.queue s.program.race_state) k.reported;
      }
  Reach-Finish tid h (Reach.ends {s} r) =
      let k = Reach-Finish tid h r in
      record {
        within = k.within;
        within_left = k.within_left;
        late = k.late;
        reported = rw (end_race-lap s.program.race_state) k.reported;
      }

  module _ (queue : FrameQueue F) (track : TrackProfile F) (seed : G) (clock : ℕ → ℕ)
      (limits_seed weather_seed : R) where
    start-Finish : Finish (start sample draw queue track seed clock limits_seed weather_seed)
    unfolding start new_generator run
    start-Finish =
        let (within, few, late) = race_laps sample queue track seed clock [] in
        record { within = within; within_left = tt; late = late; reported = inr (inl refl) }

    -- In whatever order the threads take their steps: once the race is over and its last tick is
    -- published, the lap that the main thread reads for "RACE FINISHED after" is greater than 50, the
    -- laps of the race.
    pub final_lap :
        (tid : ℕ) (s : System F G R)
        → s.generator.race_finished ≡ true
        → unpublished s.callback ≡ false
        → Reach sample draw tid
            (start sample draw queue track seed clock limits_seed weather_seed)
            s
        → total_laps < s.program.race_state.current_lap
    final_lap tid s over published r =
        let h = Reach-Finish tid start-Finish r in
        reads (leaves s refl published h.reported) (h.late over)
      where
        reads :
            (s.generator.race_finished ≡ false)
              ⊎ (s.program.race_state.current_lap ≡ s.generator.race_lap)
            → total_laps < s.generator.race_lap
            → total_laps < s.program.race_state.current_lap
        reads (inl more) late = absurd (ground (arith, more, over))
        reads (inr same) late = omega (arith, same, late)
