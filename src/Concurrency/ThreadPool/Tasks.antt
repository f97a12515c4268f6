-- ===== src/Concurrency/ThreadPool/Tasks.antt =====
-- The steps of src/concurrency/thread_pool.cpp that hand tasks on keep the invariant.
use mathlib.Core.List.{append_assoc}
use f1_telemetry.Prelude.{
  ℕ, ◌+◌, ◌≡◌, inl, inr, sym, ap, ◌∙◌, [], ◌∷◌, ◌++◌, arith, update, All-append,
}
use f1_telemetry.Prelude.Result.{ok}
use f1_telemetry.Concurrency.ThreadPool.{ThreadPool, Turn, WorkerAt, submit, worker_turn, System}
use f1_telemetry.Concurrency.ThreadPool.Invariant.{
  All-Handled, Handled, Handled-finished, Handled-left, Handled-taken, Inv, submit_ok, turn_exits,
  turn_runs,
}

module _ {A : Type 0} where
  pub submits-Inv :
      {n : ℕ} {s : System A} (task : A) (p : ThreadPool A)
      → submit s.pool task ≡ ok p
      → Inv n s
      → Inv n
          (record s { pool = p; notifying = s.notifying + 1; submitted = s.submitted ++ task ∷ [] })
  submits-Inv {n} {s} task p e h =
      let (open_, p_open, added) = submit_ok s.pool p task e in
      record {
        in_order =
            ap (λ l. s.started ++ l) added
            ∙ sym (append_assoc s.started s.pool.tasks (task ∷ []))
            ∙ ap (λ l. l ++ task ∷ []) h.in_order;
        handled = h.handled;
        left = λ i out. ground (arith, h.left i out);
        beyond = h.beyond;
        gone = h.gone;
        within = h.within;
        stopped = λ k at. ground (arith, h.stopped k at);
        stopping = λ at. ground (arith, h.stopping at);
        awake = h.awake;
        served = λ t rest some_worker e. inr (inl (omega arith));
      }

  pub takes-Inv :
      {n : ℕ} {s : System A} (i : ℕ) (task : A) (p : ThreadPool A)
      → s.workers i ≡ WorkerAt.waiting
      → worker_turn s.pool ≡ Turn.runs task p
      → Inv n s
      → Inv n (record s {
        pool = p;
        workers = update s.workers i (WorkerAt.running task);
        started = s.started ++ task ∷ [];
      })
  takes-Inv {n} {s} i task p e turn h =
      let (head, same) = turn_runs s.pool p task turn in
      let busy = update s.workers i (WorkerAt.running task) in
      record {
        in_order =
            append_assoc s.started (task ∷ []) p.tasks
            ∙ ap (λ l. s.started ++ l) (sym head)
            ∙ h.in_order;
        handled =
            All-append (Handled busy s.finished) s.started (task ∷ [])
              (All-Handled s.workers busy s.finished s.finished s.started
                (λ t. Handled-taken s.workers s.finished i task t e) h.handled)
              (inr (i, ground arith), tt);
        left = λ j out. ground (arith, h.left j);
        beyond = λ j far. ground (arith, h.beyond j far);
        gone = λ j g. ground (arith, h.gone j g);
        within = h.within;
        stopped = λ k at. ground (arith, h.stopped k at);
        stopping = λ at. ground (arith, h.stopping at);
        awake = λ k j at. ground (arith, h.awake k j at);
        served = λ t rest some_worker e. inl (i, inr (task, ground arith));
      }

  pub finishes-Inv :
      {n : ℕ} {s : System A} (i : ℕ) (task : A)
      → s.workers i ≡ WorkerAt.running task
      → Inv n s
      → Inv n (record s {
        workers = update s.workers i WorkerAt.waiting;
        finished = s.finished ++ task ∷ [];
      })
  finishes-Inv {n} {s} i task e h =
      let idle = update s.workers i WorkerAt.waiting in
      record {
        in_order = h.in_order;
        handled =
            All-Handled s.workers idle s.finished (s.finished ++ task ∷ []) s.started
              (λ t. Handled-finished s.workers s.finished i task t e) h.handled;
        left = λ j out. ground (arith, h.left j);
        beyond = λ j far. ground (arith, h.beyond j far);
        gone = λ j g. ground (arith, h.gone j g);
        within = h.within;
        stopped = h.stopped;
        stopping = h.stopping;
        awake = λ k j at. ground (arith, h.awake k j at);
        served = λ t rest some_worker e. inl (i, inl (ground arith));
      }

  pub leaves-Inv :
      {n : ℕ} {s : System A} (i : ℕ)
      → s.workers i ≡ WorkerAt.waiting
      → worker_turn s.pool ≡ Turn.exits
      → Inv n s
      → Inv n (record s { workers = update s.workers i WorkerAt.exited })
  leaves-Inv {n} {s} i e turn h =
      let (stop, none_left) = turn_exits s.pool turn in
      let out = update s.workers i WorkerAt.exited in
      record {
        in_order = h.in_order;
        handled =
            All-Handled s.workers out s.finished s.finished s.started
              (λ t. Handled-left s.workers s.finished i t e) h.handled;
        left = λ j gone. inr (stop, none_left);
        beyond = λ j far. ground (arith, h.beyond j far);
        gone = λ j g. ground (arith, h.gone j g);
        within = h.within;
        stopped = h.stopped;
        stopping = h.stopping;
        awake = λ k j at. ground (arith, h.awake k j at);
        served = λ t rest some_worker e. absurd (ground (arith, none_left));
      }
