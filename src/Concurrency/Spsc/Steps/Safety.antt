-- ===== src/Concurrency/Spsc/Steps/Safety.antt =====
-- What src/concurrency/spsc_queue.h guarantees to a producer and a consumer that run at the same
-- time, in every interleaving of their steps.
use f1_telemetry.Prelude.{
  ℕ, ◌+◌, ◌-◌, ◌^◌, ◌≤◌, ◌<◌, ◌≡◌, ◌≢◌, ◌↔◌, sym, subst, ◌∙◌, some, ◌++◌, map, arith, length, drop,
  get_elem?,
}
use f1_telemetry.Concurrency.Spsc.{next_index}
use f1_telemetry.Concurrency.Spsc.Inv.{tail_slot_free, tail_in_bounds, head_in_bounds}
use f1_telemetry.Concurrency.Spsc.Steps.{ProducerAt, ConsumerAt, System, Reach}
use f1_telemetry.Concurrency.Spsc.Steps.Invariant.{Producing, Consuming}
use f1_telemetry.Concurrency.Spsc.Steps.Consumer.{Reach-Inv}

module _ {T : Type 0} (k : ℕ) (small : k ≤ 63) (default : T) {s : System T}
    (r : Reach k default s) where
  open s use {queue, orders, pushed, outs, producer, consumer}

  -- For a capacity of 2^k with k at most 63, in every state that an interleaving reaches from a new
  -- queue: what the pops have returned is, item by item, the first part of what was pushed, and
  -- at most the capacity less one items are under way.
  pub fifo :
      (map some pushed ≡ outs ++ map some (drop (length outs) pushed))
      × (length outs ≤ length pushed)
      × (length pushed ≤ length outs + (2 ^ k - 1))
  fifo =
      let i = Reach-Inv k small default r in
      (
        i.history,
        omega (arith, i.rep.tail_cache_new, i.rep.tail_cache_old),
        omega (arith, i.rep.room, i.rep.head_cache_old),
      )

  storing_tail : (item : T) (t : ℕ) → producer ≡ ProducerAt.storing item t → t ≡ queue.tail
  storing_tail item t e =
      let i = Reach-Inv k small default r in
      (subst (Producing k queue pushed orders.head_read) e i.producing).0

  reading_head :
      (h : ℕ) → consumer ≡ ConsumerAt.reading h → (h ≡ queue.head) × (length outs < length pushed)
  reading_head h e =
      let i = Reach-Inv k small default r in
      let (at, left) =
        subst (Consuming queue pushed (length outs) orders.tail_read) e i.consuming in
      (at, omega (arith, i.rep.tail_cache_old))

  -- In every reachable state: the slot that a push is about to write lies in the buffer, the slot
  -- that a pop is about to read lies in the buffer, and the two are never the same slot.
  pub no_race :
      (item : T) (t h : ℕ)
      → producer ≡ ProducerAt.storing item t
      → consumer ≡ ConsumerAt.reading h
      → (t ≢ h) × (t < length queue.buffer) × (h < length queue.buffer)
  no_race item t h p c =
      let i = Reach-Inv k small default r in
      let at = storing_tail item t p in
      let (head, unread) = reading_head h c in
      (
        λ e.
            tail_slot_free k i.rep (length outs) (omega arith) unread
              (sym at ∙ e ∙ head ∙ i.rep.head_at),
        rw at (tail_in_bounds k i.rep),
        rw head (head_in_bounds k i.rep),
      )

  -- A load that a push whose cached index is stale makes next, or one that such a pop makes, with the
  -- position and the value that it returns.
  pub data Load : Type 0 where
    of_head :
        (item : T) (t j head : ℕ)
        → producer ≡ ProducerAt.reloading item t
        → orders.head_read ≤ j
        → get_elem? orders.heads j ≡ some head
        → Load
    of_tail :
        (h j tail : ℕ)
        → consumer ≡ ConsumerAt.reloading h
        → orders.tail_read ≤ j
        → get_elem? orders.tails j ≡ some tail
        → Load

  -- The test that follows it succeeds, and the call returns false, exactly when the queue is full, or
  -- empty, of what the load has seen: of the first `j` pops, or of the first `j` pushes.
  abbrev pub Tells : Load → Type 0
  Tells (of_head item t j head e newer at) =
      (j ≤ length outs)
      × (length pushed ≤ j + (2 ^ k - 1))
      × ((next_index k t ≡ head) ↔ (length pushed ≡ j + (2 ^ k - 1)))
  Tells (of_tail h j tail e newer at) =
      (length outs ≤ j) × (j ≤ length pushed) × ((h ≡ tail) ↔ (length outs ≡ j))
