-- ===== src/Concurrency/ThreadPool.antt =====
-- src/concurrency/thread_pool.h and .cpp. Each region under the mutex is one step, and each
-- notification another. A worker that has found its condition false sleeps until a notification, or a
-- spurious wake-up, and then looks again. `A` is the type of the tasks.
pub mod Invariant
pub mod Tasks
pub mod Wakes
pub mod Kept
pub mod Work
pub mod Safety
mod Tests
use f1_telemetry.Prelude.{
  ℕ, ◌+◌, ◌-◌, ◌<◌, ◌≡◌, ◌≢◌, Bool, true, false, List, [], ◌∷◌, ◌++◌, ltb, update, if◌then◌else◌,
}
use f1_telemetry.Prelude.Result.{Result, ok, throws, Exception}

-- What the mutex guards.
pub record ThreadPool {ℓ} (A : Type ℓ) : Type ℓ where
  pub tasks : List A
  pub stop : Bool

-- What a worker does once it has the lock and its wait has returned, if it has.
pub data Turn {ℓ} (A : Type ℓ) : Type ℓ where
  waits : Turn A
  exits : Turn A
  runs : A → ThreadPool A → Turn A

pub data WorkerAt {ℓ} (A : Type ℓ) : Type ℓ where
  waiting : WorkerAt A  -- awake, before the condition of `cv_.wait`
  asleep : WorkerAt A  -- blocked in `cv_.wait`
  running : A → WorkerAt A  -- in `task()`
  exited : WorkerAt A

-- Where the thread stands that destroys the pool; `joining k` is after `k` calls of `join`.
pub data DestructorAt : Type 0 where
  alive : DestructorAt
  notifying : DestructorAt  -- before `cv_.notify_all`
  joining : ℕ → DestructorAt

module _ {ℓ} {A : Type ℓ} where
  unfoldable pub submit : ThreadPool A → A → Result (ThreadPool A)
  submit p task =
      if p.stop
      then throws Exception.runtime_error
      else ok (record p { tasks = p.tasks ++ task ∷ [] })

  -- The body of the loop of `worker_loop` under the lock.
  unfoldable pub worker_turn : ThreadPool A → Turn A
  worker_turn p = elim p.tasks [
    | [] ↦ if p.stop then Turn.exits else Turn.waits
    | task ∷ tasks ↦ Turn.runs task (record p { tasks = tasks })
  ]

  -- The first block of the destructor.
  unfoldable pub request_stop : ThreadPool A → ThreadPool A
  request_stop p = record p { stop = true }

  unfoldable pub woken : WorkerAt A → WorkerAt A
  woken WorkerAt.asleep = WorkerAt.waiting
  woken w = w

  -- `cv_.notify_all` for the workers.
  unfoldable pub notify_all : (ℕ → WorkerAt A) → ℕ → WorkerAt A
  notify_all workers i = woken (workers i)

-- A pool of workers 0 to `n - 1`, with the tasks submitted, started and finished so far. `notifying` is
-- the number of calls of `submit` that are before `cv_.notify_one`.
pub record System {ℓ} (A : Type ℓ) : Type ℓ where
  pub pool : ThreadPool A
  pub workers : ℕ → WorkerAt A
  pub destructor : DestructorAt
  pub notifying : ℕ
  pub submitted : List A
  pub started : List A
  pub finished : List A

module _ {ℓ} {A : Type ℓ} where
  -- The constructor. There are no workers from `n` on.
  abbrev pub start : ℕ → System A
  start n = record {
    pool = record { tasks = []; stop = false };
    workers = λ i. if ltb i n then WorkerAt.waiting else WorkerAt.exited;
    destructor = DestructorAt.alive;
    notifying = 0;
    submitted = [];
    started = [];
    finished = [];
  }

  pub data Step (n : ℕ) (s : System A) : System A → Type ℓ where
    submits :
        (task : A) (p : ThreadPool A)
        → submit s.pool task ≡ ok p
        → Step n s (record s {
          pool = p;
          notifying = s.notifying + 1;
          submitted = s.submitted ++ task ∷ [];
        })
    notifies :
        (i : ℕ)
        → 0 < s.notifying
        → s.workers i ≡ WorkerAt.asleep
        → Step n s (record s {
          workers = update s.workers i WorkerAt.waiting;
          notifying = s.notifying - 1;
        })
    notifies_nobody :
        0 < s.notifying
        → ((i : ℕ) → s.workers i ≢ WorkerAt.asleep)
        → Step n s (record s { notifying = s.notifying - 1 })
    sleeps :
        (i : ℕ)
        → s.workers i ≡ WorkerAt.waiting
        → worker_turn s.pool ≡ Turn.waits
        → Step n s (record s { workers = update s.workers i WorkerAt.asleep })
    takes :
        (i : ℕ) (task : A) (p : ThreadPool A)
        → s.workers i ≡ WorkerAt.waiting
        → worker_turn s.pool ≡ Turn.runs task p
        → Step n s (record s {
          pool = p;
          workers = update s.workers i (WorkerAt.running task);
          started = s.started ++ task ∷ [];
        })
    finishes :
        (i : ℕ) (task : A)
        → s.workers i ≡ WorkerAt.running task
        → Step n s (record s {
          workers = update s.workers i WorkerAt.waiting;
          finished = s.finished ++ task ∷ [];
        })
    leaves :
        (i : ℕ)
        → s.workers i ≡ WorkerAt.waiting
        → worker_turn s.pool ≡ Turn.exits
        → Step n s (record s { workers = update s.workers i WorkerAt.exited })
    stops :
        s.destructor ≡ DestructorAt.alive
        → Step n s (record s { pool = request_stop s.pool; destructor = DestructorAt.notifying })
    notifies_all :
        s.destructor ≡ DestructorAt.notifying
        → Step n s
            (record s { workers = notify_all s.workers; destructor = DestructorAt.joining 0 })
    joins :
        (k : ℕ)
        → s.destructor ≡ DestructorAt.joining k
        → k < n
        → s.workers k ≡ WorkerAt.exited
        → Step n s (record s { destructor = DestructorAt.joining (k + 1) })

  -- The states that some interleaving reaches from a new pool.
  pub data Reach (n : ℕ) : System A → Type ℓ where
    begin : Reach n (start n)
    next : {s t : System A} → Reach n s → Step n s t → Reach n t
    wakes :  -- spuriously
        {s : System A} (i : ℕ)
        → Reach n s
        → s.workers i ≡ WorkerAt.asleep
        → Reach n (record s { workers = update s.workers i WorkerAt.waiting })
