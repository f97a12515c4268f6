-- ===== src/Concurrency/Spsc/Tests.antt =====
-- The ring of src/concurrency/spsc_queue.h at a capacity of four: runs of its methods and of their
-- steps, and the theorems at states that those reach.
use mathlib.Core.List.{map}
use f1_telemetry.Prelude.{
  ℕ, ◌+◌, ◌-◌, ◌^◌, ◌≤◌, ◌<◌, ◌≡◌, ◌≢◌, refl, true, false, none, some, List, [], ◌∷◌, ◌++◌, arith,
  drop,
}
use f1_telemetry.Concurrency.Fifo
use f1_telemetry.Concurrency.Fifo.{Op, put, get}
use f1_telemetry.Concurrency.Spsc.{SpscQueue, fresh, push, pop, run, next_index}
use f1_telemetry.Concurrency.Spsc.Refine.{fresh-Holds, run_refines}
use f1_telemetry.Concurrency.Spsc.Steps.{
  Orders, ProducerAt, Produce, Consume, System, produces, consumes, Reach, begin, next,
}
use f1_telemetry.Concurrency.Spsc.Steps.Safety.{fifo, no_race}
use f1_telemetry.Concurrency.Spsc.Steps.Solo.{push_wait_free, push_left}

abbrev script : List (Op ℕ)
script = get ∷ put 1 ∷ put 2 ∷ put 3 ∷ put 4 ∷ get ∷ put 5 ∷ get ∷ get ∷ get ∷ get ∷ []

-- The capacity is four, so the fourth item is refused until one has been taken.
script_runs :
    run 2 (fresh 2 0) script
    ≡ (false, none)
      ∷ (true, none)
      ∷ (true, none)
      ∷ (true, none)
      ∷ (false, none)
      ∷ (true, some 1)
      ∷ (true, none)
      ∷ (true, some 2)
      ∷ (true, some 3)
      ∷ (true, some 5)
      ∷ (false, none)
      ∷ []
unfolding run push pop fresh next_index
script_runs = refl

run_refines_example : run 2 (fresh 2 0) script ≡ Fifo.run 3 [] script
run_refines_example = run_refines 2 (omega arith) script (fresh-Holds 2 0)

record At : Type 0 where
  state : System ℕ
  reach : Reach 2 0 state

-- One item is in the queue; the producer is about to store a second one, and the consumer about to
-- read the first.
abbrev overlapping : At
unfolding next_index fresh
overlapping = record {
  state = _;
  reach =
      next
        (next
          (next
            (next
              (next
                (next
                  (next
                    (next (next begin (produces (Produce.call 7)))
                      (produces (Produce.roomy (omega arith))))
                    (produces Produce.store))
                  (produces Produce.publish))
                (consumes Consume.call))
              (consumes (Consume.stale refl)))
            (produces (Produce.call 8)))
          (produces (Produce.roomy (omega arith))))
        (consumes (Consume.reload 1 1 (omega arith) refl (omega arith)));
}

fifo_example :
    (map {A = ℕ} some (7 ∷ []) ≡ [] ++ map some (drop 0 (7 ∷ []))) × (0 ≤ 1) × (1 ≤ 0 + (2 ^ 2 - 1))
unfolding overlapping
fifo_example = fifo 2 (omega arith) 0 overlapping.reach

no_race_example : ◌≢◌ {A = ℕ} 1 0 × (1 < 4) × (0 < 4)
unfolding overlapping
no_race_example = no_race 2 (omega arith) 0 overlapping.reach 8 1 0 refl refl

-- Three items are in, the producer finds its cached head in the way of a fourth, and the consumer its
-- cached tail stale.
abbrev filled : At
unfolding next_index fresh
filled = record {
  state = _;
  reach =
      next
        (next
          (next
            (next
              (next
                (next
                  (next
                    (next
                      (next
                        (next
                          (next
                            (next
                              (next
                                (next
                                  (next (next begin (produces (Produce.call 1)))
                                    (produces (Produce.roomy (omega arith))))
                                  (produces Produce.store))
                                (produces Produce.publish))
                              (produces (Produce.call 2)))
                            (produces (Produce.roomy (omega arith))))
                          (produces Produce.store))
                        (produces Produce.publish))
                      (produces (Produce.call 3)))
                    (produces (Produce.roomy (omega arith))))
                  (produces Produce.store))
                (produces Produce.publish))
              (produces (Produce.call 4)))
            (produces (Produce.stale refl)))
          (consumes Consume.call))
        (consumes (Consume.stale refl));
}

abbrev no_orders : Orders
no_orders = record { heads = 0 ∷ []; tails = 0 ∷ []; head_read = 0; tail_read = 0 }

push_wait_free_example :
    (q' : SpscQueue ℕ) × (o' : Orders) × (pushed' : List ℕ) × (p' : ProducerAt ℕ) × Produce 2
      (fresh 2 0)
      no_orders
      []
      (ProducerAt.entered 9 0)
      q'
      o'
      pushed'
      p'
    × (push_left p' < 4)
push_wait_free_example =
    push_wait_free 2 (fresh 2 0) no_orders [] (ProducerAt.entered 9 0) 0 0 (omega arith) refl
      (omega arith)
