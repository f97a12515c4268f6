-- ===== src/Concurrency/ThreadPool/Wakes.antt =====
-- Sleeping and waking in src/concurrency/thread_pool.cpp keep the invariant.
use f1_telemetry.Prelude.{
  ℕ, ◌<◌, ◌≡◌, ◌≢◌, ◌↔◌, ◌⊎◌, inl, inr, refl, false, List, [], ◌∷◌, arith, update,
}
use f1_telemetry.Concurrency.ThreadPool.{
  ThreadPool, Turn, WorkerAt, DestructorAt, worker_turn, notify_all, woken, System,
}
use f1_telemetry.Concurrency.ThreadPool.Invariant.{All-Handled, Handled, Inv}

module _ {A : Type 0} where
  pub Handled-slept :
      (workers : ℕ → WorkerAt A) (finished : List A) (i : ℕ) (t : A)
      → workers i ≡ WorkerAt.waiting
      → Handled workers finished t
      → Handled (update workers i WorkerAt.asleep) finished t
  Handled-slept workers finished i t e (inl done) = inl done
  Handled-slept workers finished i t e (inr (j, busy)) = inr (j, ground arith)

  pub Handled-woken :
      (workers : ℕ → WorkerAt A) (finished : List A) (i : ℕ) (t : A)
      → workers i ≡ WorkerAt.asleep
      → Handled workers finished t
      → Handled (update workers i WorkerAt.waiting) finished t
  Handled-woken workers finished i t e (inl done) = inl done
  Handled-woken workers finished i t e (inr (j, busy)) = inr (j, ground arith)

  pub Handled-notified :
      (workers : ℕ → WorkerAt A) (finished : List A) (t : A)
      → Handled workers finished t
      → Handled (notify_all workers) finished t
  unfolding notify_all woken
  Handled-notified workers finished t (inl done) = inl done
  Handled-notified workers finished t (inr (j, busy)) = inr (j, ground (arith, busy))

  pub turn_waits :
      (q : ThreadPool A) → worker_turn q ≡ Turn.waits → (q.stop ≡ false) × (q.tasks ≡ [])
  unfolding worker_turn
  turn_waits q e = ground (arith, e)

  pub sleeps-Inv :
      {n : ℕ} {s : System A} (i : ℕ)
      → s.workers i ≡ WorkerAt.waiting
      → worker_turn s.pool ≡ Turn.waits
      → Inv n s
      → Inv n (record s { workers = update s.workers i WorkerAt.asleep })
  sleeps-Inv {n} {s} i e turn h =
      let (open_, none_left) = turn_waits s.pool turn in
      record {
        in_order = h.in_order;
        handled =
            All-Handled s.workers (update s.workers i WorkerAt.asleep) s.finished s.finished
              s.started (λ t. Handled-slept s.workers s.finished i t e) h.handled;
        left = λ j out. ground (arith, h.left j);
        beyond = λ j far. ground (arith, h.beyond j far);
        gone = λ j g. ground (arith, h.gone j g);
        within = h.within;
        stopped = h.stopped;
        stopping = h.stopping;
        awake = λ k j at. absurd (ground (arith, h.stopped k at, open_));
        served = λ t rest some_worker tasks. absurd (ground (arith, none_left, tasks));
      }

  -- A worker is woken, with the number of notifications that are left.
  pub woken-Inv :
      {n : ℕ} {s : System A} (i left : ℕ)
      → s.workers i ≡ WorkerAt.asleep
      → Inv n s
      → Inv n (record s { workers = update s.workers i WorkerAt.waiting; notifying = left })
  woken-Inv {n} {s} i left e h = record {
    in_order = h.in_order;
    handled =
        All-Handled s.workers (update s.workers i WorkerAt.waiting) s.finished s.finished s.started
          (λ t. Handled-woken s.workers s.finished i t e) h.handled;
    left = λ j out. ground (arith, h.left j);
    beyond = λ j far. ground (arith, h.beyond j far);
    gone = λ j g. ground (arith, h.gone j g);
    within = h.within;
    stopped = h.stopped;
    stopping = h.stopping;
    awake = λ k j at. ground (arith, h.awake k j at);
    served = λ t rest some_worker tasks. inl (i, inl (ground arith));
  }

  -- While a task waits and nobody sleeps, the first worker is awake.
  pub first_awake :
      {n : ℕ} {s : System A} (task : A) (rest : List A)
      → Inv n s
      → 0 < n
      → s.pool.tasks ≡ task ∷ rest
      → (w : WorkerAt A) → s.workers 0 ≡ w
      → w ≢ WorkerAt.asleep
      → (w ≡ WorkerAt.waiting) ⊎ (t : A) × (w ≡ WorkerAt.running t)
  first_awake task rest h some_worker e WorkerAt.waiting at up = inl refl
  first_awake task rest h some_worker e WorkerAt.asleep at up = absurd (up refl)
  first_awake task rest h some_worker e (WorkerAt.running t) at up = inr (t, refl)
  first_awake task rest h some_worker e WorkerAt.exited at up =
      absurd (ground (arith, h.left 0 at, some_worker, e))

  pub nobody-Inv :
      {n : ℕ} {s : System A} (left : ℕ)
      → ((i : ℕ) → s.workers i ≢ WorkerAt.asleep)
      → Inv n s
      → Inv n (record s { notifying = left })
  nobody-Inv {n} {s} left up h = record {
    in_order = h.in_order;
    handled = h.handled;
    left = h.left;
    beyond = h.beyond;
    gone = h.gone;
    within = h.within;
    stopped = h.stopped;
    stopping = h.stopping;
    awake = h.awake;
    served = λ t rest some_worker tasks.
        inl (0, first_awake t rest h some_worker tasks (s.workers 0) refl (up 0));
  }

  pub notified-waits : (workers : ℕ → WorkerAt A) (i : ℕ) → notify_all workers i ≢ WorkerAt.asleep
  unfolding notify_all woken
  notified-waits workers i = by_place (workers i)
    where
      by_place : (w : WorkerAt A) → woken w ≢ WorkerAt.asleep
      by_place WorkerAt.waiting e = ground arith
      by_place WorkerAt.asleep e = ground arith
      by_place (WorkerAt.running t) e = ground arith
      by_place WorkerAt.exited e = ground arith

  pub notified-exited :
      (workers : ℕ → WorkerAt A) (i : ℕ)
      → (notify_all workers i ≡ WorkerAt.exited) ↔ (workers i ≡ WorkerAt.exited)
  unfolding notify_all woken
  notified-exited workers i = by_place (workers i)
    where
      by_place : (w : WorkerAt A) → (woken w ≡ WorkerAt.exited) ↔ (w ≡ WorkerAt.exited)
      by_place WorkerAt.waiting = (λ e. absurd (ground arith), λ e. absurd (ground arith))
      by_place WorkerAt.asleep = (λ e. absurd (ground arith), λ e. absurd (ground arith))
      by_place (WorkerAt.running t) = (λ e. absurd (ground arith), λ e. absurd (ground arith))
      by_place WorkerAt.exited = (λ e. refl, λ e. refl)

  pub notified-Inv :
      {n : ℕ} {s : System A}
      → s.destructor ≡ DestructorAt.notifying
      → Inv n s
      → Inv n (record s { workers = notify_all s.workers; destructor = DestructorAt.joining 0 })
  notified-Inv {n} {s} at h = record {
    in_order = h.in_order;
    handled =
        All-Handled s.workers (notify_all s.workers) s.finished s.finished s.started
          (λ t. Handled-notified s.workers s.finished t) h.handled;
    left = λ i out. h.left i ((notified-exited s.workers i).0 out);
    beyond = λ i far. (notified-exited s.workers i).1 (h.beyond i far);
    gone = λ i g. absurd (omega (arith, g));
    within = omega arith;
    stopped = λ k e. h.stopping at;
    stopping = λ e. absurd (ground (arith, e));
    awake = λ k i e. notified-waits s.workers i;
    served = λ t rest some_worker tasks. inl (
      0,
      waiting_first t rest some_worker tasks (notify_all s.workers 0) refl
          (notified-waits s.workers 0),
    );
  }
    where
      waiting_first :
          (t : A) (rest : List A)
          → 0 < n
          → s.pool.tasks ≡ t ∷ rest
          → (w : WorkerAt A) → notify_all s.workers 0 ≡ w
          → w ≢ WorkerAt.asleep
          → (w ≡ WorkerAt.waiting) ⊎ (u : A) × (w ≡ WorkerAt.running u)
      waiting_first t rest some_worker tasks WorkerAt.waiting e up = inl refl
      waiting_first t rest some_worker tasks WorkerAt.asleep e up = absurd (up refl)
      waiting_first t rest some_worker tasks (WorkerAt.running u) e up = inr (u, refl)
      waiting_first t rest some_worker tasks WorkerAt.exited e up =
          absurd (ground (arith, h.left 0 ((notified-exited s.workers 0).0 e), some_worker, tasks))
