-- ===== src/Concurrency/Mpsc/Safety.antt =====
-- What src/concurrency/mpsc_queue.h guarantees while producers and the consumer interleave.
use native.Mathlib.Decide.{dec_lt}
use f1_telemetry.Prelude.{
  ℕ, ◌≤◌, ◌<◌, ◌≡◌, ◌↔◌, inl, inr, true, none, ◌++◌, arith, length, drop, Option-cases,
}
use f1_telemetry.Concurrency.Mpsc.Steps.{ProducerAt, ConsumerAt, System, Reach}
use f1_telemetry.Concurrency.Mpsc.Invariant.{Reach-Inv}

-- The nodes that the next steps read, write or delete.
pub data Touches {T : Type 0} (s : System T) : ℕ → Type 0 where
  exchanged_tail : Touches s s.queue.tail
  writes_link : (i node prev : ℕ) → s.producers i ≡ ProducerAt.linking node prev → Touches s prev
  links_node : (i node prev : ℕ) → s.producers i ≡ ProducerAt.linking node prev → Touches s node
  reads_link : Touches s s.queue.head
  moves_item : (n : ℕ) → s.consumer ≡ ConsumerAt.taking n → Touches s n

module _ {T : Type 0} {default : T} {s : System T} (r : Reach default s) where
  -- In every state that an interleaving reaches from a new queue, each node that a producer or the
  -- consumer is about to read, write, link or delete is allocated and has not been deleted.
  pub no_dangling : {a : ℕ} → Touches s a → (s.queue.memory a).live ≡ true
  no_dangling exchanged_tail =
      let inv = Reach-Inv r in inv.alive s.queue.tail inv.head_le (omega (arith, inv.tail_last))
  no_dangling (writes_link i node prev e) =
      let inv = Reach-Inv r in
      let (_, above, below, _) = inv.pending i node prev e in
      inv.alive prev above (omega (arith, inv.tail_last))
  no_dangling (links_node i node prev e) =
      let inv = Reach-Inv r in
      let (follows, above, below, _) = inv.pending i node prev e in
      inv.alive node (omega arith) (omega (arith, inv.tail_last))
  no_dangling reads_link =
      let inv = Reach-Inv r in
      inv.alive s.queue.head (omega arith) (omega (arith, inv.tail_last, inv.head_le))
  no_dangling (moves_item n e) =
      let inv = Reach-Inv r in
      let (follows, below) =
        inv.links_on s.queue.head n (omega arith) (omega (arith, inv.tail_last, inv.head_le))
          (inv.taking n e) in
      inv.alive n (omega arith) (omega (arith, inv.tail_last))

  -- In every reachable state the items popped so far, in order, are the first of those pushed, in the
  -- order of their exchanges: none is lost, repeated or overtaken.
  pub exchange_order :
      (s.outs ++ drop (length s.outs) s.pushed ≡ s.pushed) × (length s.outs ≤ length s.pushed)
  exchange_order =
      let inv = Reach-Inv r in
      (rw inv.count_out inv.history, omega (arith, inv.count_in, inv.count_out, inv.head_le))

  -- In every reachable state in which no producer is between its exchange and its link, a pop finds no
  -- node exactly when every item pushed has been popped.
  quiescent_empty :
      ((i : ℕ) → s.producers i ≡ ProducerAt.idle)
      → ((s.queue.memory s.queue.head).next ≡ none) ↔ (length s.outs ≡ length s.pushed)
  quiescent_empty quiet =
      let inv = Reach-Inv r in
      (
        λ e. elim (dec_lt s.queue.head s.queue.tail) [
          | yes more ↦
              let (i, waiting) = inv.missing s.queue.head (omega arith) more e in cc (quiet i)
          | no all ↦ omega (arith, inv.count_in, inv.count_out, inv.head_le)
        ],
        λ e. elim (Option-cases (s.queue.memory s.queue.head).next) [
          | inl bare ↦ bare
          | inr (n, on) ↦
              let (_, below) =
                inv.links_on s.queue.head n (omega arith)
                  (omega (arith, inv.tail_last, inv.head_le)) on in
              absurd (omega (arith, inv.count_in, inv.count_out))
        ],
      )

  -- In every reachable state: while a producer stands between its exchange and its link at the head, a
  -- pop finds no node although at least one item is in, however many later pushes have returned.
  pub stalled_behind :
      (i node : ℕ)
      → s.producers i ≡ ProducerAt.linking node s.queue.head
      → ((s.queue.memory s.queue.head).next ≡ none) × (length s.outs < length s.pushed)
  stalled_behind i node e =
      let inv = Reach-Inv r in
      let (_, _, below, bare) = inv.pending i node s.queue.head e in
      (bare, omega (arith, inv.count_in, inv.count_out))
