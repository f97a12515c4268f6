-- ===== src/RaceControl/Penalty/Pits.antt =====
-- `driver_entered_pits` and `driver_exited_pits` of src/race_control/penalty_enforcer.cpp.
use f1_telemetry.Prelude.{
  ℕ, ◌<◌, ◌≡◌, refl, Bool, arith, length-set, get_or-set_self, get_or-set_ne, ◌==◌, ==_iff,
  if◌then◌else◌,
}
use f1_telemetry.Prelude.Int.{ℤ, pos, negsuc}
use f1_telemetry.Common.Text.{Text}
use f1_telemetry.Common.Types.{PenaltyState}
use f1_telemetry.Common.SeasonData.{driver_index_of}
use f1_telemetry.Common.SeasonData.Roster.{driver_index_of-bound}
use f1_telemetry.RaceControl.Penalty.{
  PenaltyEnforcer, move, exchange, same_state, state_at, driver_entered_pits, driver_exited_pits,
}
use f1_telemetry.RaceControl.Penalty.Tally.{tally, is_index}
use f1_telemetry.RaceControl.Penalty.Refine.{WellFormed}

-- The driver's state after an exchange at the driver's index, or at another.
abbrev pub moved : Bool → PenaltyState → PenaltyState → PenaltyState → PenaltyState
moved mine expected desired s = if mine then (if same_state s expected then desired else s) else s

exchange-tally :
    (p : PenaltyEnforcer) (j i : ℕ) (expected desired : PenaltyState)
    → WellFormed p
    → j < 20
    → tally (exchange p j expected desired).1 i
      ≡ record (tally p i) { state = moved (j == i) expected desired (state_at p i) }
exchange-tally p j i expected desired (w, s, x) h = ground (
  arith,
  ==_iff j i,
  get_or-set_self p.states j desired PenaltyState.clear,
  get_or-set_ne p.states j i desired PenaltyState.clear,
)

pub move-tally :
    (p : PenaltyEnforcer) (z : ℤ) (i : ℕ) (expected desired : PenaltyState)
    → WellFormed p
    → ((j : ℕ) → z ≡ pos j → j < 20)
    → tally (move p z expected desired) i
      ≡ record (tally p i) { state = moved (is_index z i) expected desired (state_at p i) }
move-tally p (negsuc n) i expected desired wf bound = refl
move-tally p (pos j) i expected desired wf bound =
    exchange-tally p j i expected desired wf (bound j refl)

pub move-WellFormed :
    (p : PenaltyEnforcer) (z : ℤ) (expected desired : PenaltyState)
    → WellFormed p
    → WellFormed (move p z expected desired)
move-WellFormed p (negsuc n) expected desired wf = wf
move-WellFormed p (pos j) expected desired (w, s, x) = ground (arith, length-set p.states j desired)

-- `driver_entered_pits` moves a driver of that id from PENDING to SERVING, and
-- `driver_exited_pits` from SERVING to SERVED; in any other state, for any other driver, and for the
-- warnings and the extra pit time, neither changes anything.
pits_exact :
    (p : PenaltyEnforcer) (id : Text) (i : ℕ)
    → WellFormed p
    → (tally (driver_entered_pits p id) i ≡ record (tally p i) {
      state =
          moved
            (is_index (driver_index_of id) i)
            PenaltyState.pending
            PenaltyState.serving
            (state_at p i);
    })
      × (tally (driver_exited_pits p id) i ≡ record (tally p i) {
        state =
            moved
              (is_index (driver_index_of id) i)
              PenaltyState.serving
              PenaltyState.served
              (state_at p i);
      })
unfolding driver_entered_pits driver_exited_pits
pits_exact p id i wf =
    let bound = driver_index_of-bound id in
    (
      move-tally p (driver_index_of id) i PenaltyState.pending PenaltyState.serving wf bound,
      move-tally p (driver_index_of id) i PenaltyState.serving PenaltyState.served wf bound,
    )
