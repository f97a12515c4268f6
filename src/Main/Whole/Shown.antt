-- ===== src/Main/Whole/Shown.antt =====
-- The penalties that src/main.cpp shows while the race runs.
use f1_telemetry.Prelude.{ℕ, ◌^◌, ◌<◌, ◌≤◌, ◌≡◌, ◌⊎◌, inl, inr, ap, some, length, get_elem?}
use f1_telemetry.Prelude.Int.{pos}
use f1_telemetry.Float.{Float}
use f1_telemetry.Common.Text.{Text, text}
use f1_telemetry.Common.Types.{TrackProfile}
use f1_telemetry.Common.SeasonData.{DriverRow, driver_rows, driver_index_of}
use f1_telemetry.Common.SeasonData.Roster.{indexed}
use f1_telemetry.RaceControl.Penalty.{PenaltyEnforcer, penalty_state, state_of}
use f1_telemetry.RaceControl.Penalty.Tally.{tally}
use f1_telemetry.RaceControl.Penalty.Issued.{violations}
use f1_telemetry.RaceControl.Penalty.Run.{Verdict}
use f1_telemetry.Simulation.LapTimeConsumer.{FrameQueue}
use f1_telemetry.Main.Display.{penalty_name}
use f1_telemetry.Main.Whole.{System, Reach, start}
use f1_telemetry.Main.Whole.Invariant.{Unserved}
use f1_telemetry.Main.Whole.Balance.{Reach-Balanced, start-Balanced}

-- What is shown of a driver with `n` violations.
abbrev pub ShownAs : ℕ → Text → Type 0
ShownAs n shown = (n < 3) × (shown ≡ text "-") ⊎ (3 ≤ n) × (shown ≡ text "PEN")

state_at_index :
    (p : PenaltyEnforcer) (id : Text) (i : ℕ)
    → driver_index_of id ≡ pos i
    → penalty_state p id ≡ (tally p i).state
unfolding penalty_state
state_at_index p id i e = ap (state_of p) e

state-ShownAs :
    (n c : ℕ) (p : PenaltyEnforcer) (i : ℕ)
    → Verdict n c (tally p i)
    → Unserved (tally p i)
    → ShownAs n (penalty_name (tally p i).state)
state-ShownAs n c p i (inl (few, warned, clear, extra, nothing)) h =
    inl (few, ap penalty_name clear)
state-ShownAs n c p i (inr (many, warned, some_penalty, extra, once)) (inl clear) =
    absurd (some_penalty clear)
state-ShownAs n c p i (inr (many, warned, some_penalty, extra, once)) (inr pending) =
    inr (many, ap penalty_name pending)

-- In whatever order the threads take their steps, as long as fewer than 2^32 events were processed: of a
-- driver of the roster the table and the report show "-" exactly while fewer than three of the driver's
-- violations were processed, and "PEN" from the third on; they never show "SRV" or "OK".
pub penalty_shown :
    {F G R : Type 0} ⦃f : Float F⦄
    → (sample : G → F × G) (draw : R → F × R) (queue : FrameQueue F) (track : TrackProfile F)
      (seed : G) (clock : ℕ → ℕ) (limits_seed weather_seed : R) (tid : ℕ) (s : System F G R) (i : ℕ)
      (r : DriverRow)
    → get_elem? driver_rows i ≡ some r
    → length s.processed < 2 ^ 32
    → Reach sample draw tid (start sample draw queue track seed clock limits_seed weather_seed) s
    → ShownAs (violations i s.processed) (penalty_name (penalty_state s.program.penalty r.id))
penalty_shown sample draw queue track seed clock limits_seed weather_seed tid s i r here small
      reach =
    let h =
      Reach-Balanced sample draw tid
        (start-Balanced sample draw queue track seed clock limits_seed weather_seed) reach in
    rw (state_at_index s.program.penalty r.id i (indexed i r here)) (
      state-ShownAs (violations i s.processed) _ s.program.penalty i (h.verdict i small)
        (h.unserved i))
