-- ===== src/Concurrency/Spsc/Steps.antt =====
-- src/concurrency/spsc_queue.h with `push` and `pop` running at the same time: each access to a
-- shared field or slot is one step, and the two threads' steps interleave in any order. A thread's loads
-- of its own index return what it stored last. A load of the other's index may return an older value than
-- the last one stored, but none older than the thread has read before: `Orders` keeps the values that were
-- stored to `head_` and to `tail_`, in order, and how far each thread has read. An acquire load sees the
-- accesses to the slots before the release store that it reads from. The slots are written and read at
-- once here, which is what the threads see as long as no two accesses of a slot race.
pub mod Log
pub mod Invariant
pub mod Producer
pub mod Consumer
pub mod Safety
pub mod Solo
use f1_telemetry.Prelude.{
  ℕ, ◌≡◌, ◌≢◌, ◌≤◌, Bool, true, false, Option, some, List, [], ◌∷◌, ◌++◌, set, get_elem?,
}
use f1_telemetry.Concurrency.Spsc.{SpscQueue, next_index, fresh}

-- Where the producer stands in `push`, with its locals.
pub data ProducerAt (T : Type 0) : Type 0 where
  idle : ProducerAt T
  entered : (item : T) (tail : ℕ) → ProducerAt T  -- before `next == head_cache_`
  reloading : (item : T) (tail : ℕ) → ProducerAt T  -- before `head_.load`
  storing : (item : T) (tail : ℕ) → ProducerAt T  -- before `buffer_[tail] = item`
  publishing : (item : T) (tail : ℕ) → ProducerAt T  -- before `tail_.store`

-- Where the consumer stands in `pop`; `out` is what it has read.
pub data ConsumerAt (T : Type 0) : Type 0 where
  idle : ConsumerAt T
  entered : (head : ℕ) → ConsumerAt T  -- before `head == tail_cache_`
  reloading : (head : ℕ) → ConsumerAt T  -- before `tail_.load`
  reading : (head : ℕ) → ConsumerAt T  -- before `out = buffer_[head]`
  publishing : (head : ℕ) (out : Option T) → ConsumerAt T  -- before `head_.store`

-- All values that `head_` and `tail_` have had, and the positions of those that the producer and the
-- consumer have read last.
pub record Orders : Type 0 where
  pub heads : List ℕ
  pub tails : List ℕ
  pub head_read : ℕ
  pub tail_read : ℕ

-- A step of the producer: from its place, over the queue, the orders and the items pushed so far, to its
-- next. An item counts as pushed once its tail is published. `head_.load` returns the value `head` at
-- position `j` of the order.
pub data Produce {T : Type 0} (k : ℕ) (q : SpscQueue T) (o : Orders) (pushed : List T)
    : ProducerAt T → SpscQueue T → Orders → List T → ProducerAt T → Type 0 where
  call :
      (item : T) → Produce k q o pushed ProducerAt.idle q o pushed (ProducerAt.entered item q.tail)
  roomy :
      {item : T} {tail : ℕ}
      → next_index k tail ≢ q.head_cache
      → Produce k q o pushed
          (ProducerAt.entered item tail)
          q
          o
          pushed
          (ProducerAt.storing item tail)
  stale :
      {item : T} {tail : ℕ}
      → next_index k tail ≡ q.head_cache
      → Produce k q o pushed
          (ProducerAt.entered item tail)
          q
          o
          pushed
          (ProducerAt.reloading item tail)
  refuse :
      {item : T} {tail : ℕ} (j head : ℕ)
      → o.head_read ≤ j
      → get_elem? o.heads j ≡ some head
      → next_index k tail ≡ head
      → Produce k q o pushed
          (ProducerAt.reloading item tail)
          (record q { head_cache = head })
          (record o { head_read = j })
          pushed
          ProducerAt.idle
  reload :
      {item : T} {tail : ℕ} (j head : ℕ)
      → o.head_read ≤ j
      → get_elem? o.heads j ≡ some head
      → next_index k tail ≢ head
      → Produce k q o pushed
          (ProducerAt.reloading item tail)
          (record q { head_cache = head })
          (record o { head_read = j })
          pushed
          (ProducerAt.storing item tail)
  store :
      {item : T} {tail : ℕ}
      → Produce k q o pushed
          (ProducerAt.storing item tail)
          (record q { buffer = set q.buffer tail item })
          o
          pushed
          (ProducerAt.publishing item tail)
  publish :
      {item : T} {tail : ℕ}
      → Produce k q o pushed
          (ProducerAt.publishing item tail)
          (record q { tail = next_index k tail })
          (record o { tails = o.tails ++ next_index k tail ∷ [] })
          (pushed ++ item ∷ [])
          ProducerAt.idle

-- A step of the consumer, over the queue, the orders and what its calls have put into `out` so far.
pub data Consume {T : Type 0} (k : ℕ) (q : SpscQueue T) (o : Orders) (outs : List (Option T))
    : ConsumerAt T → SpscQueue T → Orders → List (Option T) → ConsumerAt T → Type 0 where
  call : Consume k q o outs ConsumerAt.idle q o outs (ConsumerAt.entered q.head)
  known :
      {head : ℕ}
      → head ≢ q.tail_cache
      → Consume k q o outs (ConsumerAt.entered head) q o outs (ConsumerAt.reading head)
  stale :
      {head : ℕ}
      → head ≡ q.tail_cache
      → Consume k q o outs (ConsumerAt.entered head) q o outs (ConsumerAt.reloading head)
  refuse :
      {head : ℕ} (j tail : ℕ)
      → o.tail_read ≤ j
      → get_elem? o.tails j ≡ some tail
      → head ≡ tail
      → Consume k q o outs
          (ConsumerAt.reloading head)
          (record q { tail_cache = tail })
          (record o { tail_read = j })
          outs
          ConsumerAt.idle
  reload :
      {head : ℕ} (j tail : ℕ)
      → o.tail_read ≤ j
      → get_elem? o.tails j ≡ some tail
      → head ≢ tail
      → Consume k q o outs
          (ConsumerAt.reloading head)
          (record q { tail_cache = tail })
          (record o { tail_read = j })
          outs
          (ConsumerAt.reading head)
  read :
      {head : ℕ}
      → Consume k q o outs
          (ConsumerAt.reading head)
          q
          o
          outs
          (ConsumerAt.publishing head (get_elem? q.buffer head))
  publish :
      {head : ℕ} {out : Option T}
      → Consume k q o outs
          (ConsumerAt.publishing head out)
          (record q { head = next_index k head })
          (record o { heads = o.heads ++ next_index k head ∷ [] })
          (outs ++ out ∷ [])
          ConsumerAt.idle

pub record System (T : Type 0) : Type 0 where
  pub queue : SpscQueue T
  pub orders : Orders
  pub pushed : List T
  pub outs : List (Option T)
  pub producer : ProducerAt T
  pub consumer : ConsumerAt T

pub data Step {T : Type 0} (k : ℕ) (s : System T) : System T → Type 0 where
  produces :
      {q : SpscQueue T} {o : Orders} {pushed : List T} {p : ProducerAt T}
      → Produce k s.queue s.orders s.pushed s.producer q o pushed p
      → Step k s (record s { queue = q; orders = o; pushed = pushed; producer = p })
  consumes :
      {q : SpscQueue T} {o : Orders} {outs : List (Option T)} {c : ConsumerAt T}
      → Consume k s.queue s.orders s.outs s.consumer q o outs c
      → Step k s (record s { queue = q; orders = o; outs = outs; consumer = c })

abbrev pub start : {T : Type 0} → ℕ → T → System T
start k default = record {
  queue = fresh k default;
  orders = record { heads = 0 ∷ []; tails = 0 ∷ []; head_read = 0; tail_read = 0 };
  pushed = [];
  outs = [];
  producer = ProducerAt.idle;
  consumer = ConsumerAt.idle;
}

-- The states that some interleaving reaches from a new queue.
pub data Reach {T : Type 0} (k : ℕ) (default : T) : System T → Type 0 where
  begin : Reach k default (start k default)
  next : {s t : System T} → Reach k default s → Step k s t → Reach k default t
