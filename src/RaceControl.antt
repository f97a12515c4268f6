-- ===== src/RaceControl.antt =====
-- src/race_control: the three components that push to and drain the queue of race control events.
-- The queue is the list of its events, oldest first.
pub mod Penalty
pub mod Weather
pub mod TrackLimits
pub mod Channel
use f1_telemetry.Prelude.{List, [], ◌∷◌}
use f1_telemetry.Common.Types.{RaceControlEvent}

abbrev pub EventQueue : Type 0
EventQueue = List RaceControlEvent

-- `while (events_.pop(ev)) batch.push_back(std::move(ev))`: the batch, and the queue after it.
unfoldable pub pop_all : EventQueue → List RaceControlEvent × EventQueue
pop_all [] = ([], [])
pop_all (ev ∷ events) = let (batch, left) = pop_all events in (ev ∷ batch, left)
