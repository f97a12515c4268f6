-- ===== src/RaceControl/Penalty/Tally.antt =====
-- What src/race_control/penalty_enforcer.h promises one driver: the three entries of a driver, and
-- what an event does to them, written without the arrays.
use f1_telemetry.Prelude.{ℕ, Bool, true, false, List, [], ◌∷◌, get_or, ◌==◌, if◌then◌else◌}
use f1_telemetry.Prelude.Int.{ℤ, pos, negsuc}
use f1_telemetry.Common.Text.{c_str}
use f1_telemetry.Common.Types.{RaceControlEvent, EventType, PenaltyState}
use f1_telemetry.Common.SeasonData.{driver_index_of}
use f1_telemetry.RaceControl.Penalty.{PenaltyEnforcer, state_at, warnings_at, increment}

pub record Tally : Type 0 where
  pub warnings : ℕ
  pub state : PenaltyState
  pub extra : ℕ

abbrev pub tally : PenaltyEnforcer → ℕ → Tally
tally p i = record {
  warnings = warnings_at p i;
  state = state_at p i;
  extra = get_or p.extra_pit_time i 0;
}

-- The index is `i`.
abbrev pub is_index : ℤ → ℕ → Bool
is_index (pos j) i = j == i
is_index (negsuc n) i = false

abbrev pub is_track_limits : EventType → Bool
is_track_limits EventType.track_limits = true
is_track_limits _ = false

-- The event is a violation by driver `i` of the roster.
abbrev pub violation : ℕ → RaceControlEvent → Bool
violation i e =
    if is_track_limits e.type then is_index (driver_index_of (c_str e.driver_id)) i else false

-- A penalty is due with the third warning of a driver who has none yet.
abbrev pub due : Tally → Bool
due t = elim t.state [ PenaltyState.clear ↦ increment t.warnings == 3 | _ ↦ false ]

-- One more warning.
abbrev pub warned : Tally → Tally
warned t =
    if due t
    then record { warnings = increment t.warnings; state = PenaltyState.pending; extra = 3 }
    else record t { warnings = increment t.warnings }

-- What a batch does to driver `i`.
unfoldable pub tally_batch : ℕ → Tally → List RaceControlEvent → Tally
tally_batch i t [] = t
tally_batch i t (e ∷ batch) = tally_batch i (if violation i e then warned t else t) batch
