-- ===== src/RaceControl/Penalty/Tests.antt =====
-- A driver who leaves the track three times and serves the penalty, and the theorems there.
use f1_telemetry.Prelude.{ℕ, ◌-◌, ◌≡◌, ◌≤◌, refl, List, [], ◌∷◌, arith, length}
use f1_telemetry.Prelude.Int.{pos}
use f1_telemetry.Common.Text.{Text, text, text_eq, memcpy, c_str, blank_id}
use f1_telemetry.Common.Types.{RaceControlEvent, EventType, PenaltyState}
use f1_telemetry.Common.SeasonData.{driver_index_of, driver_rows, index_from}
use f1_telemetry.RaceControl.{pop_all}
use f1_telemetry.RaceControl.Penalty.{
  new_enforcer, issue, warn, warn_driver, process_event, process_batch, process_events,
  driver_entered_pits, driver_exited_pits, penalty_state, warning_count, state_at,
}
use f1_telemetry.RaceControl.Penalty.Tally.{tally, tally_batch}
use f1_telemetry.RaceControl.Penalty.Refine.{WellFormed, process_events_refines}
use f1_telemetry.RaceControl.Penalty.Issued.{violations, penalties}
use f1_telemetry.RaceControl.Penalty.Run.{Op, run, seen, Verdict, penalty_once}
use f1_telemetry.RaceControl.Penalty.Order.{rank, never_back}

abbrev off_track : Text → ℕ → RaceControlEvent
off_track id lap = record {
  type = EventType.track_limits;
  driver_id = memcpy blank_id id 3;
  lap = lap;
  message = [];
  timestamp = lap;
}

abbrev three : List RaceControlEvent
three =
    off_track (text "LEC") 4
    ∷ off_track (text "VER") 4
    ∷ off_track (text "LEC") 6
    ∷ off_track (text "LEC") 9
    ∷ []

abbrev race : List Op
race =
    Op.process three (λ n. 100 - n)
    ∷ Op.entered (text "LEC")
    ∷ Op.exited (text "LEC")
    ∷ Op.process (off_track (text "LEC") 11 ∷ []) (λ n. 200 - n)
    ∷ []

leclerc_serves :
    (penalty_state (run new_enforcer [] race).0 (text "LEC") ≡ PenaltyState.served)
    × (warning_count (run new_enforcer [] race).0 (text "LEC") ≡ pos 4)
    × (warning_count (run new_enforcer [] race).0 (text "VER") ≡ pos 1)
    × (length (run new_enforcer [] race).1 ≡ 1)
unfolding run new_enforcer process_events process_batch process_event warn_driver warn issue pop_all
    driver_index_of driver_rows index_from text_eq memcpy c_str penalty_state warning_count
    driver_entered_pits driver_exited_pits
leclerc_serves = (refl, refl, refl, refl)

process_events_refines_example :
    WellFormed (process_events new_enforcer three (λ n. n)).0
    × ((i : ℕ)
        → tally (process_events new_enforcer three (λ n. n)).0 i
          ≡ tally_batch i (tally new_enforcer i) three)
unfolding new_enforcer
process_events_refines_example =
    process_events_refines new_enforcer three (λ n. n) (refl, refl, refl)

penalty_once_example :
    Verdict
      (violations 2 (seen race))
      (penalties 2 (run new_enforcer [] race).1)
      (tally (run new_enforcer [] race).0 2)
unfolding seen memcpy
penalty_once_example = penalty_once race 2 (refl, (refl, (refl, (refl, (refl, tt))))) (omega arith)

never_back_example : rank (state_at new_enforcer 2) ≤ rank (state_at (run new_enforcer [] race).0 2)
unfolding new_enforcer
never_back_example = never_back new_enforcer [] race 2 (refl, refl, refl)
