-- ===== src/Concurrency/ThreadPool/Invariant.antt =====
-- What holds between the steps of the pool of src/concurrency/thread_pool.cpp, and what becomes of the
-- tasks that workers have taken.
use mathlib.Core.List.{append_assoc}
use f1_telemetry.Prelude.{
  ℕ, ◌<◌, ◌≤◌, ◌≡◌, ◌≢◌, ◌⊎◌, inl, inr, refl, ap, ◌∙◌, true, false, List, [], ◌∷◌, ◌++◌, arith,
  update, All, Bool-cases, ◌==◌, ==_iff,
}
use f1_telemetry.Prelude.Result.{ok}
use f1_telemetry.Concurrency.ThreadPool.{
  ThreadPool, Turn, WorkerAt, DestructorAt, submit, worker_turn, System, start,
}

-- How far the destructor is, as a number; 0 if it has not begun.
abbrev pub joined : DestructorAt → ℕ
joined DestructorAt.alive = 0
joined DestructorAt.notifying = 0
joined (DestructorAt.joining k) = k

module _ {A : Type 0} where
  -- The task stands in the list.
  abbrev pub In : A → List A → Type 0
  In task tasks = (before : List A) × (after : List A) × (tasks ≡ before ++ task ∷ after)

  -- The task is over, or a worker is at it.
  abbrev pub Handled : (ℕ → WorkerAt A) → List A → A → Type 0
  Handled workers finished task = In task finished ⊎ (i : ℕ) × (workers i ≡ WorkerAt.running task)

  -- A worker that has a task, or is about to look for one.
  abbrev pub Awake : (ℕ → WorkerAt A) → Type 0
  Awake workers =
      (i : ℕ) × ((workers i ≡ WorkerAt.waiting) ⊎ (task : A) × (workers i ≡ WorkerAt.running task))

  -- Somebody will see to the tasks that wait.
  abbrev pub Served : System A → Type 0
  Served s = Awake s.workers ⊎ (0 < s.notifying) ⊎ (s.destructor ≡ DestructorAt.notifying)

  pub record Inv (n : ℕ) (s : System A) : Type 0 where
    pub in_order : s.started ++ s.pool.tasks ≡ s.submitted
    pub handled : All (Handled s.workers s.finished) s.started
    -- A worker that has left saw the stop, and no task.
    pub left :
        (i : ℕ)
        → s.workers i ≡ WorkerAt.exited
        → (n ≤ i) ⊎ (s.pool.stop ≡ true) × (s.pool.tasks ≡ [])
    pub beyond : (i : ℕ) → n ≤ i → s.workers i ≡ WorkerAt.exited
    pub gone : (i : ℕ) → i < joined s.destructor → s.workers i ≡ WorkerAt.exited
    pub within : joined s.destructor ≤ n
    pub stopped : (k : ℕ) → s.destructor ≡ DestructorAt.joining k → s.pool.stop ≡ true
    pub stopping : s.destructor ≡ DestructorAt.notifying → s.pool.stop ≡ true
    pub awake : (k i : ℕ) → s.destructor ≡ DestructorAt.joining k → s.workers i ≢ WorkerAt.asleep
    pub served : (task : A) (rest : List A) → 0 < n → s.pool.tasks ≡ task ∷ rest → Served s

  pub In-append : (task : A) (tasks more : List A) → In task tasks → In task (tasks ++ more)
  In-append task tasks more (before, after, e) =
      (before, after ++ more, ap (λ l. l ++ more) e ∙ append_assoc before (task ∷ after) more)

  pub start-Inv : (n : ℕ) → Inv n (start n)
  start-Inv n = record {
    in_order = refl;
    handled = tt;
    left = λ i e. inl (ground arith);
    beyond = λ i h. ground arith;
    gone = λ i h. absurd (ground arith);
    within = omega arith;
    stopped = λ k e. absurd (ground arith);
    stopping = λ e. absurd (ground arith);
    awake = λ k i e. absurd (ground arith);
    served = λ task rest some_worker e. absurd (ground arith);
  }

  pub same_task :
      (workers : ℕ → WorkerAt A) (i j : ℕ) (task t : A)
      → workers i ≡ WorkerAt.running task
      → workers j ≡ WorkerAt.running t
      → i ≡ j
      → task ≡ t
  same_task workers i j task t e busy same = ground (arith, ap workers same)

  -- A worker that becomes busy, or idle with its task over, leaves no started task unhandled.
  pub Handled-taken :
      (workers : ℕ → WorkerAt A) (finished : List A) (i : ℕ) (task t : A)
      → workers i ≡ WorkerAt.waiting
      → Handled workers finished t
      → Handled (update workers i (WorkerAt.running task)) finished t
  Handled-taken workers finished i task t e (inl done) = inl done
  Handled-taken workers finished i task t e (inr (j, busy)) = inr (j, ground arith)

  pub Handled-finished :
      (workers : ℕ → WorkerAt A) (finished : List A) (i : ℕ) (task t : A)
      → workers i ≡ WorkerAt.running task
      → Handled workers finished t
      → Handled (update workers i WorkerAt.waiting) (finished ++ task ∷ []) t
  Handled-finished workers finished i task t e (inl done) =
      inl (In-append t finished (task ∷ []) done)
  Handled-finished workers finished i task t e (inr (j, busy)) = elim (Bool-cases (i == j)) [
    | inl same ↦ inl (
      finished,
      [],
      ap (λ u. finished ++ u ∷ []) (same_task workers i j task t e busy ((==_iff i j).0 same)),
    )
    | inr other ↦ inr (j, ground arith)
  ]

  pub Handled-left :
      (workers : ℕ → WorkerAt A) (finished : List A) (i : ℕ) (t : A)
      → workers i ≡ WorkerAt.waiting
      → Handled workers finished t
      → Handled (update workers i WorkerAt.exited) finished t
  Handled-left workers finished i t e (inl done) = inl done
  Handled-left workers finished i t e (inr (j, busy)) = inr (j, ground arith)

  pub submit_ok :
      (q p : ThreadPool A) (task : A)
      → submit q task ≡ ok p
      → (q.stop ≡ false) × (p.stop ≡ false) × (p.tasks ≡ q.tasks ++ task ∷ [])
  unfolding submit
  submit_ok q p task e = ground (arith, e)

  pub turn_runs :
      (q p : ThreadPool A) (task : A)
      → worker_turn q ≡ Turn.runs task p
      → (q.tasks ≡ task ∷ p.tasks) × (p.stop ≡ q.stop)
  unfolding worker_turn
  turn_runs q p task e = ground (arith, e)

  pub turn_exits :
      (q : ThreadPool A) → worker_turn q ≡ Turn.exits → (q.stop ≡ true) × (q.tasks ≡ [])
  unfolding worker_turn
  turn_exits q e = ground (arith, e)

  pub All-Handled :
      (workers after : ℕ → WorkerAt A) (finished more : List A) (tasks : List A)
      → ((t : A) → Handled workers finished t → Handled after more t)
      → All (Handled workers finished) tasks
      → All (Handled after more) tasks
  All-Handled workers after finished more [] f all = tt
  All-Handled workers after finished more (t ∷ tasks) f (here, all) =
      (f t here, All-Handled workers after finished more tasks f all)
