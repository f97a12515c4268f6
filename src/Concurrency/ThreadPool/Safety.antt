-- ===== src/Concurrency/ThreadPool/Safety.antt =====
-- What the pool of src/concurrency/thread_pool.h promises in every interleaving.
use f1_telemetry.Prelude.{
  ℕ, ◌<◌, ◌≤◌, ◌≡◌, ◌≢◌, ◌⊎◌, inl, inr, refl, sym, ap, subst, ◌∙◌, true, List, [], ◌∷◌, ◌++◌, arith,
  All, Bool-cases, ltb,
}
use mathlib.Core.List.{append-nil}
use f1_telemetry.Prelude.Result.{throws, Exception}
use f1_telemetry.Concurrency.ThreadPool.{
  ThreadPool, Turn, WorkerAt, DestructorAt, submit, worker_turn, System, Step, Reach, takes,
  finishes, leaves, joins, notifies_all,
}
use f1_telemetry.Concurrency.ThreadPool.Invariant.{In, Handled, Served, joined}
use f1_telemetry.Concurrency.ThreadPool.Kept.{Reach-Inv}
use f1_telemetry.Concurrency.ThreadPool.Work.{work, Step-work}

below_or_far : (i n : ℕ) → (i < n) ⊎ (n ≤ i)
below_or_far i n = elim (Bool-cases (ltb i n)) [
  | inl below ↦ inl (ground arith)
  | inr far ↦ inr (ground arith)
]

module _ {A : Type 0} where
  All-finished :
      (workers : ℕ → WorkerAt A) (finished tasks : List A)
      → ((i : ℕ) → workers i ≡ WorkerAt.exited)
      → All (Handled workers finished) tasks
      → All (λ t. In t finished) tasks
  All-finished workers finished [] out all = tt
  All-finished workers finished (t ∷ tasks) out (inl done, all) =
      (done, All-finished workers finished tasks out all)
  All-finished workers finished (t ∷ tasks) out (inr (i, busy), all) =
      absurd (ground (arith, out i, busy))

  turn_stopped :
      (p : ThreadPool A)
      → p.stop ≡ true
      → (worker_turn p ≡ Turn.exits)
        ⊎ (task : A) × (q : ThreadPool A) × (worker_turn p ≡ Turn.runs task q)
  unfolding worker_turn
  turn_stopped p h = by_tasks p.tasks refl
    where
      by_tasks :
          (tasks : List A)
          → p.tasks ≡ tasks
          → (worker_turn p ≡ Turn.exits)
            ⊎ (task : A) × (q : ThreadPool A) × (worker_turn p ≡ Turn.runs task q)
      by_tasks [] e = inl (ground (arith, e, h))
      by_tasks (task ∷ tasks) e =
          inr (task, record { tasks = tasks; stop = p.stop }, ground (arith, e))

module _ {A : Type 0} {n : ℕ} {s : System A} (r : Reach n s) where
  -- In every reachable state the tasks that workers have taken, in the order in which they took them,
  -- and then those still waiting are the tasks that `submit` accepted, in the order of the calls: each
  -- is taken at most once, and none is lost or overtaken.
  pub tasks_in_order : s.started ++ s.pool.tasks ≡ s.submitted
  tasks_in_order = (Reach-Inv r).in_order

  -- Once the destructor of a pool of at least one worker has joined all its workers, no task is left,
  -- and every task that `submit` ever accepted has been run to its end.
  pub destructor_drains :
      0 < n
      → s.destructor ≡ DestructorAt.joining n
      → (s.pool.tasks ≡ []) × All (λ t. In t s.finished) s.submitted
  destructor_drains some_worker at =
      let h = Reach-Inv r in
      let out : ((i : ℕ) → s.workers i ≡ WorkerAt.exited) = λ i. elim (below_or_far i n) [
        | inl below ↦ h.gone i (ground (arith, at, below))
        | inr far ↦ h.beyond i far
      ] in
      let empty : s.pool.tasks ≡ [] = ground (arith, h.left 0 (out 0), some_worker) in
      let all : s.started ≡ s.submitted =
        sym (append-nil s.started) ∙ ap (λ l. s.started ++ l) (sym empty) ∙ h.in_order in
      (
        empty,
        subst (All (λ t. In t s.finished)) all
            (All-finished s.workers s.finished s.started out h.handled),
      )

  -- No wake-up is lost: whenever a task waits in a pool of at least one worker, some worker is awake, or
  -- a call of `submit` has yet to notify one, or the destructor has yet to notify all.
  pub no_lost_wakeup : (task : A) (rest : List A) → 0 < n → s.pool.tasks ≡ task ∷ rest → Served s
  no_lost_wakeup task rest some_worker e = (Reach-Inv r).served task rest some_worker e

  -- Once the destructor has begun, `submit` throws, and every step but waking up without a notification
  -- leaves less `work`. Until it has joined all workers there is such a step, of a worker, of a call of
  -- `submit` or of the destructor; so no more steps than the `work` are left till then.
  pub shutdown_proceeds :
      (task : A)
      → s.destructor ≢ DestructorAt.alive
      → s.destructor ≢ DestructorAt.joining n
      → (submit s.pool task ≡ throws Exception.runtime_error)
        × ((u : System A) → Step n s u → work n u < work n s)
        × (t : System A) × Step n s t
        × (work n t < work n s)
  unfolding submit
  shutdown_proceeds task begun not_done = by_place s.destructor refl
    where
      less : (u : System A) → Step n s u → work n u < work n s
      less u step = Step-work (Reach-Inv r) begun step

      worker_proceeds :
          (k : ℕ)
          → s.destructor ≡ DestructorAt.joining k
          → k < n
          → (w : WorkerAt A) → s.workers k ≡ w
          → s.pool.stop ≡ true
          → (t : System A) × Step n s t
      worker_proceeds k at room WorkerAt.exited e stop = (_, joins k at room e)
      worker_proceeds k at room (WorkerAt.running u) e stop = (_, finishes k u e)
      worker_proceeds k at room WorkerAt.asleep e stop = absurd ((Reach-Inv r).awake k k at e)
      worker_proceeds k at room WorkerAt.waiting e stop = elim (turn_stopped s.pool stop) [
        | inl exits ↦ (_, leaves k e exits)
        | inr (u, q, runs) ↦ (_, takes k u q e runs)
      ]

      by_place :
          (d : DestructorAt)
          → s.destructor ≡ d
          → (submit s.pool task ≡ throws Exception.runtime_error)
            × ((u : System A) → Step n s u → work n u < work n s)
            × (t : System A) × Step n s t
            × (work n t < work n s)
      by_place DestructorAt.alive at = absurd (begun at)
      by_place DestructorAt.notifying at = (
        ground (arith, (Reach-Inv r).stopping at),
        less,
        _,
        notifies_all at,
        less _ (notifies_all at),
      )
      by_place (DestructorAt.joining k) at =
          let h = Reach-Inv r in
          let stopped = h.stopped k at in
          let apart = λ (e : k ≡ n). not_done (at ∙ ap DestructorAt.joining e) in
          let within : k ≤ n = subst (λ d. joined d ≤ n) at h.within in
          let (t, step) = worker_proceeds k at (omega (arith, within)) (s.workers k) refl stopped in
          (ground (arith, stopped), less, t, step, less t step)
