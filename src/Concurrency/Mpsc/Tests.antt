-- ===== src/Concurrency/Mpsc/Tests.antt =====
-- The linked queue of src/concurrency/mpsc_queue.h on small runs, and its theorems at the states that
-- those reach.
use f1_telemetry.Prelude.{
  ℕ, ◌<◌, ◌≤◌, ◌≡◌, refl, true, false, Bool, Option, none, some, [], ◌∷◌, ◌++◌, arith, length, drop,
}
use f1_telemetry.Concurrency.Mpsc.{Node, MpscQueue, create, push, pop, destroy}
use f1_telemetry.Concurrency.Mpsc.Steps.{System, exchanges, links, finds, Reach, begin, next}
use f1_telemetry.Concurrency.Mpsc.Safety.{writes_link, no_dangling, exchange_order, stalled_behind}
use f1_telemetry.Concurrency.Mpsc.Refine.{create-Holds, destroy_frees}

pop_after : Option (MpscQueue ℕ) → Option (Bool × Option ℕ)
pop_after none = none
pop_after (some q) = elim (pop q) [ none ↦ none | some (done, out, r) ↦ some (done, out) ]

push_then_pop : pop_after (push (create 0) 7) ≡ some (true, some 7)
unfolding pop_after push pop create
push_then_pop = refl

record At : Type 0 where
  state : System ℕ
  reach : Reach 0 state

-- Producer 3 has exchanged the tail and not linked its node; producer 5 has pushed behind it.
abbrev stalled : At
unfolding create
stalled = record {
  state = _;
  reach = next (next (next begin (exchanges 3 30 refl)) (exchanges 5 50 refl)) (links 5 2 1 refl);
}

-- Producer 3 links its node too, and the first item is popped.
abbrev settled : At
unfolding create
settled = record {
  state = _;
  reach = next (next (next begin (exchanges 3 30 refl)) (links 3 1 0 refl)) (finds 1 refl refl);
}

no_dangling_example : (stalled.state.queue.memory 0).live ≡ true
unfolding stalled
no_dangling_example = no_dangling stalled.reach (writes_link 3 1 0 refl)

exchange_order_example :
    (stalled.state.outs ++ drop (length stalled.state.outs) stalled.state.pushed ≡ 30 ∷ 50 ∷ [])
    × (0 ≤ 2)
unfolding stalled
exchange_order_example = exchange_order stalled.reach

stalled_behind_example : ((stalled.state.queue.memory 0).next ≡ none) × (0 < 2)
unfolding stalled
stalled_behind_example = stalled_behind stalled.reach 3 1 refl

destroy_frees_example :
    (m : ℕ → Node ℕ) × (destroy 1 (create 0) ≡ some m) × ((j : ℕ) → (m j).live ≡ false)
destroy_frees_example = destroy_frees 1 (create 0) [] (omega arith) (create-Holds 0)
