-- ===== src/Concurrency/Mpsc/Steps.antt =====
-- src/concurrency/mpsc_queue.h with any number of producers in `push` and one consumer in `pop`. A
-- push is two steps, the exchange of the tail and the link from the node before; a pop looks at the
-- link, and then takes the node.
use f1_telemetry.Prelude.{update, ℕ, ◌≡◌, none, some, List, [], ◌∷◌, ◌++◌}
use f1_telemetry.Concurrency.Mpsc.{MpscQueue, create, exchange, link, advance}

-- Where a producer stands, with its locals `new_node` and `prev_tail`.
pub data ProducerAt : Type 0 where
  idle : ProducerAt
  linking : (node prev : ℕ) → ProducerAt

-- Where the consumer stands, with its local `next`.
pub data ConsumerAt : Type 0 where
  idle : ConsumerAt
  taking : (next : ℕ) → ConsumerAt

pub record System (T : Type 0) : Type 0 where
  pub queue : MpscQueue T
  pub producers : ℕ → ProducerAt
  pub consumer : ConsumerAt
  pub pushed : List T  -- in the order of the exchanges
  pub outs : List T  -- what the pops have returned

module _ {T : Type 0} where
  abbrev pub exchanged : System T → ℕ → T → System T
  exchanged s i value = record s {
    queue = exchange s.queue value;
    producers = update s.producers i (ProducerAt.linking s.queue.allocated s.queue.tail);
    pushed = s.pushed ++ value ∷ [];
  }

  abbrev pub linked : System T → ℕ → ℕ → ℕ → System T
  linked s i node prev = record s {
    queue = link s.queue prev node;
    producers = update s.producers i ProducerAt.idle;
  }

  abbrev pub looked : System T → ℕ → System T
  looked s next = record s { consumer = ConsumerAt.taking next }

  abbrev pub taken : System T → ℕ → System T
  taken s next = record s {
    queue = advance s.queue next;
    consumer = ConsumerAt.idle;
    outs = s.outs ++ (s.queue.memory next).item ∷ [];
  }

pub data Step {T : Type 0} (s : System T) : System T → Type 0 where
  exchanges : (i : ℕ) (value : T) → s.producers i ≡ ProducerAt.idle → Step s (exchanged s i value)
  links :
      (i node prev : ℕ)
      → s.producers i ≡ ProducerAt.linking node prev
      → Step s (linked s i node prev)
  finds_none : s.consumer ≡ ConsumerAt.idle → (s.queue.memory s.queue.head).next ≡ none → Step s s
  finds :
      (next : ℕ)
      → s.consumer ≡ ConsumerAt.idle
      → (s.queue.memory s.queue.head).next ≡ some next
      → Step s (looked s next)
  takes : (next : ℕ) → s.consumer ≡ ConsumerAt.taking next → Step s (taken s next)

abbrev pub start : {T : Type 0} → T → System T
start default = record {
  queue = create default;
  producers = λ _. ProducerAt.idle;
  consumer = ConsumerAt.idle;
  pushed = [];
  outs = [];
}

pub data Reach {T : Type 0} (default : T) : System T → Type 0 where
  begin : Reach default (start default)
  next : {s t : System T} → Reach default s → Step s t → Reach default t
