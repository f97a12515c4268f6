-- ===== src/RaceControl/Penalty.antt =====
-- src/race_control/penalty_enforcer.h and .cpp. An `atomic<int>` is its 32 bits, as a number.
pub mod Tally
pub mod Refine
pub mod Pits
pub mod Issued
pub mod Run
pub mod Order
mod Tests
use f1_telemetry.Prelude.{
  ℕ, ◌+◌, ◌-◌, ◌%◌, ◌^◌, Bool, true, false, List, [], ◌∷◌, ◌++◌, length, replicate, get_or, set,
  ltb, ◌==◌, if◌then◌else◌,
}
use f1_telemetry.Prelude.Int.{ℤ, pos, negsuc}
use f1_telemetry.Common.Text.{Text, text, memcpy, c_str, blank_id}
use f1_telemetry.Common.Types.{RaceControlEvent, EventType, PenaltyState}
use f1_telemetry.Common.SeasonData.{driver_index_of}
use f1_telemetry.RaceControl.{EventQueue, pop_all}

pub record PenaltyEnforcer : Type 0 where
  pub warnings : List ℕ
  pub states : List PenaltyState
  pub extra_pit_time : List ℕ

unfoldable pub new_enforcer : PenaltyEnforcer
new_enforcer = record {
  warnings = replicate 20 0;
  states = replicate 20 PenaltyState.clear;
  extra_pit_time = replicate 20 0;
}

abbrev pub same_state : PenaltyState → PenaltyState → Bool
same_state PenaltyState.clear PenaltyState.clear = true
same_state PenaltyState.pending PenaltyState.pending = true
same_state PenaltyState.serving PenaltyState.serving = true
same_state PenaltyState.served PenaltyState.served = true
same_state _ _ = false

-- `fetch_add(1)`, and the sum once more for `+ 1`
abbrev pub increment : ℕ → ℕ
increment n = (n + 1) % 2 ^ 32

abbrev pub state_at : PenaltyEnforcer → ℕ → PenaltyState
state_at p i = get_or p.states i PenaltyState.clear

abbrev pub warnings_at : PenaltyEnforcer → ℕ → ℕ
warnings_at p i = get_or p.warnings i 0

-- `states_[i].compare_exchange_strong(expected, desired)`
abbrev pub exchange : PenaltyEnforcer → ℕ → PenaltyState → PenaltyState → Bool × PenaltyEnforcer
exchange p i expected desired =
    if same_state (state_at p i) expected
    then (true, record p { states = set p.states i desired })
    else (false, p)

-- The event `pen`, made when the clock reads `now`.
abbrev pub announcement : RaceControlEvent → ℕ → RaceControlEvent
announcement e now = record {
  type = EventType.penalty_issued;
  driver_id = memcpy blank_id e.driver_id 4;
  lap = e.lap;
  message = c_str e.driver_id ++ text " - 5 second penalty (track limits)";
  timestamp = now;
}

-- The case `count == 3`.
unfoldable pub issue :
    PenaltyEnforcer → EventQueue → ℕ → RaceControlEvent → ℕ → PenaltyEnforcer × EventQueue
issue p events i e now =
    let (won, q) = exchange p i PenaltyState.clear PenaltyState.pending in
    if won
    then (record q { extra_pit_time = set q.extra_pit_time i 3 }, events ++ announcement e now ∷ [])
    else (q, events)

-- From `fetch_add` on.
unfoldable pub warn :
    PenaltyEnforcer → EventQueue → ℕ → RaceControlEvent → ℕ → PenaltyEnforcer × EventQueue
warn p events i e now =
    let count = increment (warnings_at p i) in
    let q = record p { warnings = set p.warnings i count } in
    if count == 3 then issue q events i e now else (q, events)

-- `driver_index`, and `continue` if it is negative.
unfoldable pub warn_driver :
    PenaltyEnforcer → EventQueue → ℤ → RaceControlEvent → ℕ → PenaltyEnforcer × EventQueue
warn_driver p events (pos i) e now = warn p events i e now
warn_driver p events (negsuc n) e now = (p, events)

-- The body of the loop over the batch, while the clock reads `now`.
unfoldable pub process_event :
    PenaltyEnforcer → EventQueue → RaceControlEvent → ℕ → PenaltyEnforcer × EventQueue
process_event p events e now = elim e.type [
  | EventType.track_limits ↦ warn_driver p events (driver_index_of (c_str e.driver_id)) e now
  | _ ↦ (p, events)
]

-- The loop over the batch; `clock n` is what the clock reads with `n` events left after this one.
unfoldable pub process_batch :
    PenaltyEnforcer → EventQueue → List RaceControlEvent → (ℕ → ℕ) → PenaltyEnforcer × EventQueue
process_batch p events [] clock = (p, events)
process_batch p events (e ∷ batch) clock =
    let (q, pushed) = process_event p events e (clock (length batch)) in
    process_batch q pushed batch clock

unfoldable pub process_events :
    PenaltyEnforcer → EventQueue → (ℕ → ℕ) → PenaltyEnforcer × EventQueue
process_events p events clock =
    let (batch, left) = pop_all events in process_batch p left batch clock

abbrev pub move : PenaltyEnforcer → ℤ → PenaltyState → PenaltyState → PenaltyEnforcer
move p (pos i) expected desired = (exchange p i expected desired).1
move p (negsuc n) expected desired = p

unfoldable pub driver_entered_pits : PenaltyEnforcer → Text → PenaltyEnforcer
driver_entered_pits p id = move p (driver_index_of id) PenaltyState.pending PenaltyState.serving

unfoldable pub driver_exited_pits : PenaltyEnforcer → Text → PenaltyEnforcer
driver_exited_pits p id = move p (driver_index_of id) PenaltyState.serving PenaltyState.served

abbrev pub state_of : PenaltyEnforcer → ℤ → PenaltyState
state_of p (pos i) = state_at p i
state_of p (negsuc n) = PenaltyState.clear

unfoldable pub penalty_state : PenaltyEnforcer → Text → PenaltyState
penalty_state p id = state_of p (driver_index_of id)

-- An `int` of the given bits.
abbrev pub signed : ℕ → ℤ
signed n = if ltb n (2 ^ 31) then pos n else negsuc (2 ^ 32 - n - 1)

abbrev pub count_of : PenaltyEnforcer → ℤ → ℤ
count_of p (pos i) = signed (warnings_at p i)
count_of p (negsuc n) = pos 0

unfoldable pub warning_count : PenaltyEnforcer → Text → ℤ
warning_count p id = count_of p (driver_index_of id)
