-- ===== src/RaceControl/Channel/Linked.antt =====
-- `MpscQueue<RaceControlEvent>` of src/main.cpp keeps the contract.
use f1_telemetry.Common.Types.{RaceControlEvent}
use f1_telemetry.Prelude.{[], ◌∷◌}
use f1_telemetry.Concurrency.Mpsc.{MpscQueue, push, pop}
use f1_telemetry.Concurrency.Mpsc.Refine.{Holds, linked_push_refines, linked_pop_refines}
use f1_telemetry.RaceControl.Channel.{Channel}

abbrev pub linked : Channel (MpscQueue RaceControlEvent)
linked = record {
  push = push;
  pop = pop;
  Keeps = Holds;
  push_lem = linked_push_refines;
  pop-empty = λ q k. linked_pop_refines q [] k;
  pop-next = λ q x xs k. linked_pop_refines q (x ∷ xs) k;
}
