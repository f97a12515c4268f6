-- ===== src/Concurrency/ThreadPool/Work.antt =====
-- What is left of the destructor of src/concurrency/thread_pool.cpp, as a number that each step lowers.
use native.Mathlib.Decide.{ℕ_discrete}
use f1_telemetry.Prelude.{
  ℕ, zero, suc, ◌+◌, ◌-◌, ◌*◌, ◌<◌, ◌≤◌, ◌≡◌, ◌≢◌, refl, sym, ap, ◌∙◌, true, List, arith, length,
  update,
}
use f1_telemetry.Concurrency.ThreadPool.{
  WorkerAt, DestructorAt, notify_all, woken, request_stop, System, Step, submits, notifies,
  notifies_nobody, sleeps, takes, finishes, leaves, stops, notifies_all, joins,
}
use f1_telemetry.Concurrency.ThreadPool.Invariant.{Inv, submit_ok, turn_runs}
use f1_telemetry.Concurrency.ThreadPool.Wakes.{turn_waits}

abbrev pub destructor_work : ℕ → DestructorAt → ℕ
destructor_work n DestructorAt.alive = n + 2
destructor_work n DestructorAt.notifying = n + 1
destructor_work n (DestructorAt.joining k) = n - k

module _ {A : Type 0} where
  -- Turns that a worker has still to make, beside those for the tasks that wait.
  abbrev pub weight : WorkerAt A → ℕ
  weight WorkerAt.waiting = 1
  weight WorkerAt.asleep = 1
  weight (WorkerAt.running task) = 2
  weight WorkerAt.exited = 0

  abbrev pub workers_work : ℕ → (ℕ → WorkerAt A) → ℕ
  workers_work zero workers = 0
  workers_work (suc n) workers = weight (workers n) + workers_work n workers

  abbrev pub work : ℕ → System A → ℕ
  work n s =
      2 * length s.pool.tasks
      + workers_work n s.workers
      + s.notifying
      + destructor_work n s.destructor

  update_self : (w : ℕ → WorkerAt A) (i : ℕ) (x : WorkerAt A) → update w i x i ≡ x
  update_self w i x = ground arith

  update_other : (w : ℕ → WorkerAt A) (i j : ℕ) (x : WorkerAt A) → i ≢ j → update w i x j ≡ w j
  update_other w i j x n = ground arith

  work_beyond :
      (n : ℕ) (w : ℕ → WorkerAt A) (i : ℕ) (x : WorkerAt A)
      → n ≤ i
      → workers_work n (update w i x) ≡ workers_work n w
  work_beyond zero w i x h = refl
  work_beyond (suc n) w i x h = omega (
    arith,
    ap weight (update_other w i n x (λ e. absurd (omega (arith, h, e)))),
    work_beyond n w i x (omega (arith, h)),
  )

  -- One worker goes on to another place.
  work-update :
      (n : ℕ) (w : ℕ → WorkerAt A) (i : ℕ) (x : WorkerAt A)
      → i < n
      → workers_work n (update w i x) + weight (w i) ≡ workers_work n w + weight x
  work-update zero w i x h = absurd (omega (arith, h))
  work-update (suc n) w i x h = elim (ℕ_discrete i n) [
    | yes e ↦ omega (
      arith,
      ap weight (ap (update w i x) (sym e) ∙ update_self w i x),
      ap (λ j. weight (w j)) e,
      work_beyond n w i x (omega (arith, e)),
    )
    | no apart ↦ omega (
      arith,
      ap weight (update_other w i n x apart),
      work-update n w i x (omega (arith, h, apart)),
    )
  ]

  weight-woken : (w : WorkerAt A) → weight (woken w) ≡ weight w
  unfolding woken
  weight-woken WorkerAt.waiting = refl
  weight-woken WorkerAt.asleep = refl
  weight-woken (WorkerAt.running task) = refl
  weight-woken WorkerAt.exited = refl

  work_notified : (n : ℕ) (w : ℕ → WorkerAt A) → workers_work n (notify_all w) ≡ workers_work n w
  unfolding notify_all
  work_notified zero w = refl
  work_notified (suc n) w = omega (arith, weight-woken (w n), work_notified n w)

  module _ {n : ℕ} {s : System A} (h : Inv n s) (begun : s.destructor ≢ DestructorAt.alive) where
    -- A worker that has not left is one of the pool.
    one_of : (i : ℕ) → s.workers i ≢ WorkerAt.exited → i < n
    one_of i up = let far = λ (e : n ≤ i). up (h.beyond i e) in by_place i far
      where
        by_place : (i : ℕ) → ¬ (n ≤ i) → i < n
        by_place i far = omega (arith, far)

    pub stop_set : s.pool.stop ≡ true
    stop_set = by_place s.destructor refl
      where
        by_place : (d : DestructorAt) → s.destructor ≡ d → s.pool.stop ≡ true
        by_place DestructorAt.alive e = absurd (begun e)
        by_place DestructorAt.notifying e = h.stopping e
        by_place (DestructorAt.joining k) e = h.stopped k e

    pub Step-work : {t : System A} → Step n s t → work n t < work n s
    unfolding request_stop
    Step-work (submits task p e) = absurd (ground (arith, submit_ok s.pool p task e, stop_set))
    Step-work (notifies i some_call e) = omega (
      arith,
      some_call,
      ap weight e,
      work-update n s.workers i WorkerAt.waiting (one_of i (λ out. ground (arith, e, out))),
    )
    Step-work (notifies_nobody some_call up) = omega (arith, some_call)
    Step-work (sleeps i e turn) = absurd (ground (arith, turn_waits s.pool turn, stop_set))
    Step-work (takes i task p e turn) =
        let (head, same) = turn_runs s.pool p task turn in
        omega (
          arith,
          ap (λ (l : List A). length l) head,
          ap weight e,
          work-update n s.workers i (WorkerAt.running task)
              (one_of i (λ out. ground (arith, e, out))),
        )
    Step-work (finishes i task e) = omega (
      arith,
      ap weight e,
      work-update n s.workers i WorkerAt.waiting (one_of i (λ out. ground (arith, e, out))),
    )
    Step-work (leaves i e turn) = omega (
      arith,
      ap weight e,
      work-update n s.workers i WorkerAt.exited (one_of i (λ out. ground (arith, e, out))),
    )
    Step-work (stops e) = absurd (begun e)
    Step-work (notifies_all e) = omega (arith, ap (destructor_work n) e, work_notified n s.workers)
    Step-work (joins k at room out) = omega (arith, ap (destructor_work n) at, room)
