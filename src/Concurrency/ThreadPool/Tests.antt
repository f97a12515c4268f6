-- ===== src/Concurrency/ThreadPool/Tests.antt =====
-- A pool of two workers that runs three tasks and is destroyed.
use f1_telemetry.Prelude.{◌<◌, ℕ, ◌≡◌, refl, [], ◌∷◌, ◌++◌, arith, All}
use f1_telemetry.Prelude.Result.{throws, Exception}
use f1_telemetry.Concurrency.ThreadPool.{
  submit, worker_turn, request_stop, notify_all, woken, System, Step, Reach, begin, next, submits,
  notifies, sleeps, takes, finishes, leaves, stops, notifies_all, joins,
}
use f1_telemetry.Concurrency.ThreadPool.Invariant.{In, Served}
use f1_telemetry.Concurrency.ThreadPool.Work.{work}
use f1_telemetry.Concurrency.ThreadPool.Safety.{
  tasks_in_order, destructor_drains, no_lost_wakeup, shutdown_proceeds,
}

record At : Type 0 where
  state : System ℕ
  reach : Reach 2 state

-- Task 30 is done, task 31 is running, and task 32 waits while worker 1 sleeps, not yet notified.
abbrev stopping : At
unfolding submit worker_turn
stopping = record {
  state = _;
  reach =
      next
        (next
          (next
            (next
              (next
                (next
                  (next (next (next begin (sleeps 1 refl refl)) (submits 30 _ refl))
                    (notifies 1 (omega arith) refl))
                  (takes 1 30 _ refl refl))
                (submits 31 _ refl))
              (takes 0 31 _ refl refl))
            (finishes 1 30 refl))
          (sleeps 1 refl refl))
        (submits 32 _ refl);
}

-- The destructor stops the pool and wakes the sleeper; both workers leave, and both are joined.
abbrev woken_up : At
unfolding stopping request_stop notify_all
woken_up = record { state = _; reach = next (next stopping.reach (stops refl)) (notifies_all refl) }

abbrev destroyed : At
unfolding woken_up stopping worker_turn request_stop notify_all woken
destroyed = record {
  state = _;
  reach =
      next
        (next
          (next
            (next
              (next (next (next woken_up.reach (takes 1 32 _ refl refl)) (finishes 0 31 refl))
                (leaves 0 refl refl))
              (finishes 1 32 refl))
            (joins 0 refl (omega arith) refl))
          (leaves 1 refl refl))
        (joins 1 refl (omega arith) refl);
}

tasks_in_order_example : stopping.state.started ++ stopping.state.pool.tasks ≡ 30 ∷ 31 ∷ 32 ∷ []
unfolding stopping
tasks_in_order_example = tasks_in_order stopping.reach

destructor_drains_example :
    (destroyed.state.pool.tasks ≡ []) × All (λ t. In t destroyed.state.finished) (30 ∷ 31 ∷ 32 ∷ [])
unfolding destroyed stopping
destructor_drains_example = destructor_drains destroyed.reach (omega arith) refl

no_lost_wakeup_example : Served stopping.state
unfolding stopping
no_lost_wakeup_example = no_lost_wakeup stopping.reach 32 [] (omega arith) refl

shutdown_proceeds_example :
    (submit woken_up.state.pool 33 ≡ throws Exception.runtime_error)
    × ((u : System ℕ) → Step 2 woken_up.state u → work 2 u < 9)
    × (t : System ℕ) × Step 2 woken_up.state t
    × (work 2 t < 9)
unfolding woken_up stopping woken
shutdown_proceeds_example =
    shutdown_proceeds woken_up.reach 33 (λ e. ground (arith, e)) (λ e. ground (arith, e))
