-- ===== src/Simulation/LapTimeConsumer.antt =====
-- src/simulation/lap_time_consumer.h and .cpp: the loop that takes frames off the ring and claims
-- fastest laps. Only this thread claims, so each claim runs alone.
pub mod Claimed
mod Tests
use f1_telemetry.Prelude.{
  ℕ, zero, suc, Bool, true, false, Option, none, some, List, [], ◌∷◌, ◌++◌, if◌then◌else◌,
}
use f1_telemetry.Prelude.Int.{ℤ, pos, negsuc}
use f1_telemetry.Float.{Float, ◌≺◌}
use f1_telemetry.Common.Text.{c_str}
use f1_telemetry.Common.Types.{TelemetryFrame}
use f1_telemetry.Common.SeasonData.{driver_index_of}
use f1_telemetry.Common.RaceState.{RaceState, try_claim_fastest_lap}
use f1_telemetry.Concurrency.Spsc.{SpscQueue, push, pop}

-- The ring of 2^11 = 2048 frames
abbrev pub capacity_log : ℕ
capacity_log = 11

abbrev pub FrameQueue : Type 0 → Type 0
FrameQueue F = SpscQueue (TelemetryFrame F)

module _ {F : Type 0} ⦃f : Float F⦄ where
  -- From `idx >= 0` on.
  abbrev pub claim_index : RaceState F → ℤ → F → RaceState F
  claim_index race (pos i) lap_ms = (try_claim_fastest_lap 0 race (pos i) lap_ms).1
  claim_index race (negsuc n) lap_ms = race

  -- What both loops do with a frame.
  unfoldable pub claim_frame : RaceState F → TelemetryFrame F → RaceState F
  claim_frame race frame =
      if f.decimal 0 1 ≺ frame.lap_time_ms
      then claim_index race (driver_index_of (c_str frame.driver_id)) frame.lap_time_ms
      else race

  -- The same, for what a pop has put into `frame`.
  abbrev pub claim_out : RaceState F → Option (TelemetryFrame F) → RaceState F
  claim_out race none = race
  claim_out race (some frame) = claim_frame race frame

  -- A turn of the first loop: a pop, and the frame or a nap.
  unfoldable pub poll_once : FrameQueue F → RaceState F → FrameQueue F × RaceState F
  poll_once q race =
      let (popped, out, r) = pop capacity_log q in (r, if popped then claim_out race out else race)

  -- The second loop, on fuel.
  unfoldable pub drain : ℕ → FrameQueue F → RaceState F → Option (FrameQueue F × RaceState F)
  drain zero q race = none
  drain (suc fuel) q race =
      let (popped, out, r) = pop capacity_log q in
      let rest = drain fuel r (claim_out race out) in if popped then rest else some (r, race)

  -- The producer's pushes between two turns of the loop; a frame that finds the ring full is dropped.
  -- With the frames that got in.
  unfoldable pub push_all :
      FrameQueue F → List (TelemetryFrame F) → FrameQueue F × List (TelemetryFrame F)
  push_all q [] = (q, [])
  push_all q (frame ∷ frames) =
      let (pushed, r) = push capacity_log q frame in
      let (last, accepted) = push_all r frames in
      (last, if pushed then frame ∷ accepted else accepted)

  -- `run`: the first loop makes a turn after each group of pushes, the stop is requested after the
  -- last, and the second loop drains the ring. With all the frames that got in.
  unfoldable pub run :
      ℕ
      → FrameQueue F
      → RaceState F
      → List (List (TelemetryFrame F))
      → Option (RaceState F × List (TelemetryFrame F))
  run fuel q race [] = elim (drain fuel q race) [ none ↦ none | some (r, last) ↦ some (last, []) ]
  run fuel q race (frames ∷ groups) =
      let (filled, accepted) = push_all q frames in
      let (r, after) = poll_once filled race in
      elim (run fuel r after groups) [
        | none ↦ none
        | some (last, more) ↦ some (last, accepted ++ more)
      ]
