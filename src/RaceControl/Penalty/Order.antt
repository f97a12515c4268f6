-- ===== src/RaceControl/Penalty/Order.antt =====
-- The order in which src/race_control/penalty_enforcer.cpp takes a driver through the penalty states.
use f1_telemetry.Prelude.{ℕ, ◌≤◌, ap, Bool, List, [], ◌∷◌, ◌++◌, arith}
use f1_telemetry.Common.Types.{RaceControlEvent, PenaltyState}
use f1_telemetry.Common.SeasonData.{driver_index_of}
use f1_telemetry.Common.SeasonData.Roster.{driver_index_of-bound}
use f1_telemetry.RaceControl.Penalty.{
  PenaltyEnforcer, process_events, driver_entered_pits, driver_exited_pits, state_at, move,
}
use f1_telemetry.RaceControl.Penalty.Tally.{Tally, tally, tally_batch, warned, is_index}
use f1_telemetry.RaceControl.Penalty.Refine.{WellFormed, process_events_refines}
use f1_telemetry.RaceControl.Penalty.Pits.{moved, move-tally, move-WellFormed}
use f1_telemetry.RaceControl.Penalty.Run.{Op, run}

-- NONE, PENDING, SERVING, SERVED
abbrev pub rank : PenaltyState → ℕ
rank PenaltyState.clear = 0
rank PenaltyState.pending = 1
rank PenaltyState.serving = 2
rank PenaltyState.served = 3

warned-rank : (t : Tally) → rank t.state ≤ rank (warned t).state
warned-rank t = ground arith

tally_batch-rank :
    (i : ℕ) (t : Tally) (batch : List RaceControlEvent)
    → rank t.state ≤ rank (tally_batch i t batch).state
unfolding tally_batch
tally_batch-rank i t [] = omega arith
tally_batch-rank i t (e ∷ batch) =
    ground (arith, warned-rank t, tally_batch-rank i t batch, tally_batch-rank i (warned t) batch)

entered-rank :
    (b : Bool) (s : PenaltyState)
    → rank s ≤ rank (moved b PenaltyState.pending PenaltyState.serving s)
entered-rank b s = ground arith

exited-rank :
    (b : Bool) (s : PenaltyState)
    → rank s ≤ rank (moved b PenaltyState.serving PenaltyState.served s)
exited-rank b s = ground arith

-- Whatever calls are made in whatever order, no driver's state ever goes back in the order NONE,
-- PENDING, SERVING, SERVED.
pub never_back :
    (p : PenaltyEnforcer) (issued : List RaceControlEvent) (ops : List Op) (i : ℕ)
    → WellFormed p
    → rank (state_at p i) ≤ rank (state_at (run p issued ops).0 i)
unfolding run driver_entered_pits driver_exited_pits
never_back p issued [] i wf = omega arith
never_back p issued (Op.process events clock ∷ ops) i wf =
    let (q, pushed) = process_events p events clock in
    let (wf', after) = process_events_refines p events clock wf in
    omega (
      arith,
      ap (λ (t : Tally). rank t.state) (after i),
      tally_batch-rank i (tally p i) events,
      never_back q (issued ++ pushed) ops i wf',
    )
never_back p issued (Op.entered id ∷ ops) i wf = omega (
  arith,
  ap (λ (t : Tally). rank t.state)
      (move-tally p (driver_index_of id) i PenaltyState.pending PenaltyState.serving wf
        (driver_index_of-bound id)),
  entered-rank (is_index (driver_index_of id) i) (state_at p i),
  never_back (move p (driver_index_of id) PenaltyState.pending PenaltyState.serving) issued ops i
      (move-WellFormed p (driver_index_of id) _ _ wf),
)
never_back p issued (Op.exited id ∷ ops) i wf = omega (
  arith,
  ap (λ (t : Tally). rank t.state)
      (move-tally p (driver_index_of id) i PenaltyState.serving PenaltyState.served wf
        (driver_index_of-bound id)),
  exited-rank (is_index (driver_index_of id) i) (state_at p i),
  never_back (move p (driver_index_of id) PenaltyState.serving PenaltyState.served) issued ops i
      (move-WellFormed p (driver_index_of id) _ _ wf),
)
