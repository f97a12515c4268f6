-- ===== src/Concurrency/Spsc/Steps/Solo.antt =====
-- No producer of src/concurrency/spsc_queue.h ever waits for the consumer.
use native.Mathlib.Decide.{ℕ_discrete}
use f1_telemetry.Prelude.{ℕ, ◌<◌, ◌≤◌, ◌≡◌, some, List, arith, get_elem?}
use f1_telemetry.Concurrency.Spsc.{SpscQueue, next_index}
use f1_telemetry.Concurrency.Spsc.Steps.{Orders, ProducerAt, Produce}

module _ {T : Type 0} where
  -- Steps that a push still needs at most.
  abbrev pub push_left : ProducerAt T → ℕ
  push_left ProducerAt.idle = 0
  push_left (ProducerAt.entered item tail) = 4
  push_left (ProducerAt.reloading item tail) = 3
  push_left (ProducerAt.storing item tail) = 2
  push_left (ProducerAt.publishing item tail) = 1

module _ {T : Type 0} (k : ℕ) where
  -- Whatever the consumer has made of the queue by then, and whichever value a load of `head_` returns, a
  -- producer inside `push` has a next step of its own, and after that step fewer of the at most four that
  -- were left remain: it never waits.
  pub push_wait_free :
      (q : SpscQueue T) (o : Orders) (pushed : List T) (p : ProducerAt T) (j head : ℕ)
      → o.head_read ≤ j
      → get_elem? o.heads j ≡ some head
      → 0 < push_left p
      → (q' : SpscQueue T) × (o' : Orders) × (pushed' : List T) × (p' : ProducerAt T) × Produce k q
          o pushed p q' o' pushed' p'
        × (push_left p' < push_left p)
  push_wait_free q o pushed ProducerAt.idle j head newer at h = absurd (omega arith)
  push_wait_free q o pushed (ProducerAt.entered item tail) j head newer at h =
      elim (ℕ_discrete (next_index k tail) q.head_cache) [
        | yes e ↦ (_, _, _, _, Produce.stale e, omega arith)
        | no n ↦ (_, _, _, _, Produce.roomy n, omega arith)
      ]
  push_wait_free q o pushed (ProducerAt.reloading item tail) j head newer at h =
      elim (ℕ_discrete (next_index k tail) head) [
        | yes e ↦ (_, _, _, _, Produce.refuse j head newer at e, omega arith)
        | no n ↦ (_, _, _, _, Produce.reload j head newer at n, omega arith)
      ]
  push_wait_free q o pushed (ProducerAt.storing item tail) j head newer at h =
      (_, _, _, _, Produce.store, omega arith)
  push_wait_free q o pushed (ProducerAt.publishing item tail) j head newer at h =
      (_, _, _, _, Produce.publish, omega arith)
