-- ===== src/Main/Whole/Safety.antt =====
-- What src/race_control does with the events of a race, in any interleaving of the threads.
use f1_telemetry.Prelude.{ℕ, ◌^◌, ◌<◌, ◌≡◌, ◌++◌, length}
use f1_telemetry.Float.{Float}
use f1_telemetry.Common.Types.{TrackProfile}
use f1_telemetry.RaceControl.Penalty.Tally.{tally}
use f1_telemetry.RaceControl.Penalty.Issued.{penalties, violations}
use f1_telemetry.RaceControl.Penalty.Run.{Verdict}
use f1_telemetry.Simulation.LapTimeConsumer.{FrameQueue}
use f1_telemetry.Main.Whole.{System, Reach, start}
use f1_telemetry.Main.Whole.Invariant.{batch_of}
use f1_telemetry.Main.Whole.Balance.{Reach-Balanced, start-Balanced}

module _ {F G R : Type 0} ⦃f : Float F⦄ (sample : G → F × G) (draw : R → F × R)
    (queue : FrameQueue F) (track : TrackProfile F) (seed : G) (clock : ℕ → ℕ)
    (limits_seed weather_seed : R) (tid : ℕ) (s : System F G R) where
  -- In whatever order the generator's thread, the check of the limits and the update of the weather take
  -- their steps: the events that were processed, then those that `process_events` has popped, then those
  -- of the queue are all the events that were pushed, in the order of their pushes; none is lost, and none
  -- is processed twice.
  pub events_once :
      Reach sample draw tid (start sample draw queue track seed clock limits_seed weather_seed) s
      → s.processed ++ (batch_of s.callback ++ s.program.events) ≡ s.pushed
  events_once r =
      (Reach-Balanced sample draw tid
        (start-Balanced sample draw queue track seed clock limits_seed weather_seed) r).in_order

  -- In whatever order the threads take their steps, as long as fewer than 2^32 events were processed: a
  -- driver of whom fewer than three violations were processed has that many warnings, no penalty, no extra
  -- pit time, and nothing announced; one with three or more has that many warnings, is past NONE, has
  -- three ticks of extra pit time, and exactly one of all the events pushed announced a penalty.
  pub penalty_live :
      (i : ℕ)
      → length s.processed < 2 ^ 32
      → Reach sample draw tid (start sample draw queue track seed clock limits_seed weather_seed) s
      → Verdict (violations i s.processed) (penalties i s.pushed) (tally s.program.penalty i)
  penalty_live i small r =
      (Reach-Balanced sample draw tid
          (start-Balanced sample draw queue track seed clock limits_seed weather_seed) r).verdict
        i small
